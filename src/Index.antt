-- ===== src/Index.antt =====
-- src/index: the k-nearest-neighbour index.
pub mod Best
pub mod Words
pub mod Layout
pub mod Table
pub mod Scan
pub mod Defer
pub mod Search
pub mod Predict
pub mod Writer
pub mod Reader
pub mod Load
pub mod Build
pub mod PartitionSet
pub mod Tracked
pub mod Scheme

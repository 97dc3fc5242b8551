-- ===== src/Tests.antt =====
-- Runs of the definitions on concrete inputs, and the theorems applied to them.
mod Index
mod Build
mod Tracked
mod Records
mod Scheme
mod Pruned
mod Http
mod Server
mod Control
mod Vector
mod Json
mod Lb

-- ===== src/Lib.antt =====
-- A fraud-scoring HTTP service. A load balancer (src/lb) passes the descriptors of its clients to
-- API processes (src/fd_passing); a process reads requests from them (src/http), turns a
-- transaction into a vector (src/vector), finds the vectors nearest to it in an index that is read
-- in place from a file (src/index), and answers with the share of frauds among them (src/api). The
-- file is built beforehand from labelled references (src/index/build.rs).
--
-- Index/Best is the array of the K best candidates (insert_best_fast, insert_best and
-- candidate_before of src/index/search.rs), Index/Words and Index/Layout the records of the file
-- (src/index/layout.rs), Index/Table the loaded index, Index/Scan the scan of a leaf
-- (scan_leaf_fast, scan_block_pair_avx2_bounded, lower_bound_box), Index/Defer the subtrees that
-- are put off (PendingSubtrees), Index/Search the search of a tree (search_node_iterative_fast),
-- Index/Predict the whole lookup (predict_fraud_count of src/index/mod.rs). The vector
-- instructions are their effect on each lane, with the wrap-around of 16 and 32 bits.
--
-- Index/Tracked is the prediction that keeps statistics, the partition keys of the slots, or to
-- some partitions (predict_fraud_count_inner of src/index/mod.rs, search_node_iterative and
-- scan_leaf), and Index/PartitionSet the set of those partitions.
--
-- Index/Writer is src/index/format.rs, the writer of the file's parts. Index/Reader is the reader
-- of src/index/search.rs and Index/Load is open and load of src/index/mod.rs, with the records as
-- the writer leaves them in Index/Load/Records. Index/Build is src/index/build.rs: the choice of a
-- dimension, the nodes and leaves, the partitions, and the file. Index/Scheme is the learning of
-- the predicates that part the references (learn_tree_predicates of
-- src/index/partition_scheme.rs), with Index/Scheme/Train for the choice by score and
-- Index/Scheme/Returns for results that may panic. A file is the list of its bytes.
--
-- Vector/Dates is the calendar and the digits of src/vector/helpers.rs, Vector/Fields its other
-- readers. Vector/Compact is src/vector/compact.rs, Vector/Skip, Members and SinglePass are
-- src/vector/single_pass.rs, Vector/Payload and Serde are src/vector/serde_fallback.rs, and
-- Vector/Query is parse_query of src/vector/mod.rs, which tries the three in turn. Vector/Floats
-- is the interface of f64, Vector/Range what is asked of its rounding, Vector/Json the results of
-- the parsers.
--
-- Http/Parser is src/http/parser.rs and Http/Responses is src/http/responses.rs, Api is
-- src/api/handler.rs. A panic is a result of its own; the release build aborts on it.
--
-- FdPassing/Batch and FdPassing/Conn are src/fd_passing/conn.rs, FdPassing/Server, Write, Evented
-- and Events the client handlers of src/fd_passing/evented.rs with greedy_read of
-- src/fd_passing/io.rs, Control accept_control and Drain drain_fds of src/fd_passing/evented.rs.
-- The results of read, writev, accept4 and recv_fd_nb are scripts that the handlers use up, a
-- used-up script stands for a call that would block, and the calls that are made are a log.
--
-- Lb is src/lb/main.rs: the hand-over of a client's descriptor and the round robin over the
-- upstreams, with Lb/Settings for the settings that name them. The results of accept4 and sendmsg
-- are scripts here too.
--
-- Prelude holds what the parts share; Tests holds runs on concrete inputs, among them a build of a
-- small file, its loading and a lookup in it.
--
-- Parameters stand for what the repository does not hold: memmem of the C library, with what it
-- documents as IsMemmem, the standard library's sorts, as IsSortByBound or as a permutation, the
-- arithmetic of f64 (Vector/Floats, and Scores of Index/Scheme/Train), and the values that
-- serde_json reads. The handler of a request takes the parser of the transaction and the lookup as
-- arguments.
--
-- Bounds. The tree search runs on fuel, one unit a node: the number of a tree's nodes is enough,
-- and its stack of 128 entries does for a tree that is not deeper. Building a tree runs on fuel,
-- one unit a level, and d + 1 levels are enough for leaf · 2 ^ d references, since each split
-- halves them. Reading from a socket runs on fuel too, and the number of bytes that were read is
-- enough, since every round consumes a request. The JSON parsers' loops have one unit more than
-- the payload has bytes, and every round moves the position on.
--
-- Not modelled: the mapping of the file into memory, the warm-up, epoll and the receiving of
-- descriptors, the load balancer's making of sockets and threads, and the command-line tools,
-- which are system calls and measurements. The log of a run and the time it takes are left out as
-- well. The panic of a scan that reads a label or an index past the end of its table is not
-- modelled: such a read gives 0, and the trees of Index/Search/Trees have none.
pub mod Prelude
pub mod Index
pub mod Http
pub mod FdPassing
pub mod Api
pub mod Vector
pub mod Lb
pub mod Tests

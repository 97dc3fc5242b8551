-- ===== src/Tests/Tracked.antt =====
-- src/index/mod.rs: the prediction with statistics, with partition keys, and within some partitions;
-- and the table of a file that is loaded.
use rinha_rust_tree.Prelude.{◌≡◌, refl, true, [], ◌∷◌, none, some}
use rinha_rust_tree.Index.Layout
use rinha_rust_tree.Index.Best.{candidate_before}
use rinha_rust_tree.Index.Scan.{lower_bound_box}
use rinha_rust_tree.Index.PartitionSet.{PartitionSet, empty, set_key, from_top_keys, keys_sorted}
use rinha_rust_tree.Index.Predict.{insertion_sort, predict_fraud_count}
use rinha_rust_tree.Index.Tracked.Predict.{
  predict_fraud_count_inner, predict_fraud_count_with_stats, predict_fraud_count_with_partitions,
}
use rinha_rust_tree.Index.Tracked.Same.{count_of, predict_fraud_count_inner-predict_fraud_count}
use rinha_rust_tree.Tests.Index.{small_index, origin}

abbrev two_keys : PartitionSet
two_keys = from_top_keys (700 ∷ 3 ∷ 3 ∷ 4_294_967_295 ∷ [])

both_kept : keys_sorted two_keys ≡ 3 ∷ 700 ∷ []
unfolding keys_sorted from_top_keys
both_kept = refl

-- one partition, one node, one leaf, one block
stats_of_small :
    predict_fraud_count_with_stats (insertion_sort []) 1 small_index origin
    ≡ some (
      1,
      some (record {
        partitions_visited = 1;
        secondary_partitions = 0;
        nodes_visited = 1;
        leaves_scanned = 1;
        blocks_scanned = 1;
      }),
    )
unfolding predict_fraud_count_with_stats lower_bound_box Layout.partition_min Layout.partition_max
    Layout.node_left Layout.node_right Layout.partition_root Layout.node_len Layout.node_start
    Layout.partition_key candidate_before
stats_of_small = refl

partitions_of_small :
    predict_fraud_count_with_partitions (insertion_sort []) 1 small_index origin
    ≡ some (1, set_key 0 empty)
unfolding predict_fraud_count_with_partitions lower_bound_box Layout.partition_min
    Layout.partition_max Layout.node_left Layout.node_right Layout.partition_root Layout.node_len
    Layout.node_start Layout.partition_key candidate_before
partitions_of_small = refl

predict_fraud_count_inner-predict_fraud_count_example :
    count_of (predict_fraud_count_inner (insertion_sort []) 1 small_index origin none none true)
    ≡ predict_fraud_count (insertion_sort []) 1 small_index origin
predict_fraud_count_inner-predict_fraud_count_example =
    predict_fraud_count_inner-predict_fraud_count (insertion_sort []) 1 small_index origin none true
      refl

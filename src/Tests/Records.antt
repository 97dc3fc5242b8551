-- ===== src/Tests/Records.antt =====
-- src/index/format.rs and src/index/layout.rs: the records of two nodes and a partition.
use rinha_rust_tree.Prelude.{ℕ, zero, suc, refl, List, [], ◌∷◌, ◌++◌, arith, replicate, All}
use rinha_rust_tree.Prelude.Int.{ℤ, pos, negsuc}
use rinha_rust_tree.Index.Build.{NodeEntry}
use rinha_rust_tree.Index.Build.File.{Meta, write_nodes, write_partitions}
use rinha_rust_tree.Index.Reader.RoundTrip.{Fits16}
use rinha_rust_tree.Index.Load.Records.Nodes.{FitsRecord, HoldsNode, write_nodes-HoldsNode}
use rinha_rust_tree.Index.Load.Records.Partitions.{
  FitsEntry, HoldsPartition, write_partitions-HoldsPartition,
}

abbrev lowest : List ℤ
lowest = replicate 16 (negsuc 9999)

abbrev highest : List ℤ
highest = replicate 16 (pos 10_000)

replicate_fits : (n : ℕ) (v : ℤ) → Fits16 v → All Fits16 (replicate n v)
replicate_fits zero v h = tt
replicate_fits (suc n) v h = (h, replicate_fits n v h)

abbrev root_leaf : NodeEntry
root_leaf = record {
  left = negsuc 0;
  right = negsuc 0;
  start = 0;
  len = 3;
  mn = lowest;
  mx = highest;
  class_bits = 0;
}

abbrev other_leaf : NodeEntry
other_leaf = record {
  left = negsuc 0;
  right = negsuc 0;
  start = 8;
  len = 5;
  mn = lowest;
  mx = lowest;
  class_bits = 0;
}

abbrev two_nodes : List NodeEntry
two_nodes = root_leaf ∷ other_leaf ∷ []

abbrev two_entries : Meta
two_entries = (0, 0) ∷ (7, 1) ∷ []

lowest_fits : All Fits16 lowest
lowest_fits = replicate_fits 16 (negsuc 9999) (omega arith, omega arith)

highest_fits : All Fits16 highest
highest_fits = replicate_fits 16 (pos 10_000) (omega arith, omega arith)

root_leaf-FitsRecord : FitsRecord root_leaf
root_leaf-FitsRecord = record {
  left = (omega arith, omega arith);
  right = (omega arith, omega arith);
  start = omega arith;
  len = omega arith;
  mn = lowest_fits;
  mx = highest_fits;
  mn_size = refl;
  mx_size = refl;
}

other_leaf-FitsRecord : FitsRecord other_leaf
other_leaf-FitsRecord = record {
  left = (omega arith, omega arith);
  right = (omega arith, omega arith);
  start = omega arith;
  len = omega arith;
  mn = lowest_fits;
  mx = lowest_fits;
  mn_size = refl;
  mx_size = refl;
}

first_entry_fits : FitsEntry two_nodes (0, 0)
first_entry_fits = record {
  key = omega arith;
  root = omega arith;
  len = omega arith;
  mn = lowest_fits;
  mx = highest_fits;
  mn_size = refl;
  mx_size = refl;
}

second_entry_fits : FitsEntry two_nodes (7, 1)
second_entry_fits = record {
  key = omega arith;
  root = omega arith;
  len = omega arith;
  mn = lowest_fits;
  mx = lowest_fits;
  mn_size = refl;
  mx_size = refl;
}

write_nodes-HoldsNode_example : HoldsNode (write_nodes two_nodes [] ++ (1 ∷ [])) 1 other_leaf
write_nodes-HoldsNode_example =
    write_nodes-HoldsNode two_nodes (1 ∷ []) 1 other_leaf
      (root_leaf-FitsRecord, (other_leaf-FitsRecord, tt)) refl

write_partitions-HoldsPartition_example :
    HoldsPartition two_nodes (write_partitions two_nodes two_entries [] ++ (1 ∷ [])) 1 (7, 1)
write_partitions-HoldsPartition_example =
    write_partitions-HoldsPartition two_nodes two_entries (1 ∷ []) 1 (7, 1)
      (first_entry_fits, (second_entry_fits, tt)) refl

-- ===== src/Index/PartitionSet.antt =====
-- `PartitionSet` of src/index/mod.rs: a bit for each partition key, in 16 words of 64 bits.
use Prim.Native.Nat.{bit_or, bit_and}
use rinha_rust_tree.Prelude.{
  ℕ, zero, suc, ◌+◌, ◌/◌, ◌%◌, ◌^◌, Bool, false, not, List, [], ◌∷◌, ltb, leb, ◌==◌, if◌then◌else◌,
  get_or, set, replicate,
}
use rinha_rust_tree.Index.Load.{key_lookup_size}

pub record PartitionSet : Type 0 where
  pub words : List ℕ

abbrev pub empty : PartitionSet
empty = record { words = replicate 16 0 }

unfoldable pub set_key : ℕ → PartitionSet → PartitionSet
set_key key s =
    if ltb key key_lookup_size
    then record {
      words = set s.words (key / 64) (bit_or (get_or s.words (key / 64) 0) (2 ^ (key % 64)));
    }
    else s

unfoldable pub contains : PartitionSet → ℕ → Bool
contains s key =
    if leb key_lookup_size key
    then false
    else not (bit_and (get_or s.words (key / 64) 0) (2 ^ (key % 64)) == 0)

-- `for &k in keys`
unfoldable pub set_keys : List ℕ → PartitionSet → PartitionSet
unfolding set_key
set_keys [] s = s
set_keys (key ∷ keys) s = set_keys keys (if ltb key key_lookup_size then set_key key s else s)

unfoldable pub from_top_keys : List ℕ → PartitionSet
unfolding set_keys
from_top_keys keys = set_keys keys empty

-- the keys of the set from `key` on, `n` of them left
unfoldable pub keys_from : ℕ → ℕ → PartitionSet → List ℕ
unfolding contains
keys_from zero key s = []
keys_from (suc n) key s =
    let rest = keys_from n (key + 1) s in if contains s key then key ∷ rest else rest

unfoldable pub keys_sorted : PartitionSet → List ℕ
unfolding keys_from
keys_sorted s = keys_from key_lookup_size 0 s

-- ===== src/Index/Load/Table.antt =====
-- The table of the keys that `load` of src/index/mod.rs makes out of the partitions' records.
use mathlib.Core.Path.{subst}
use rinha_rust_tree.Prelude.{
  ℕ, zero, suc, ◌+◌, ◌*◌, ◌%◌, ◌^◌, ◌<◌, ◌≤◌, ◌≡◌, refl, false, List, [], ◌∷◌, ltb, if◌then◌else◌,
  inl, inr, Bool-cases, arith, ap, sym, length, get_or, set, take, replicate,
}
use rinha_rust_tree.Prelude.Int.{ℤ, pos, negsuc, ltb_ℤ}
use rinha_rust_tree.Index.Words.{as_usize, i16s_at, wrap32, wrap32-fits}
use rinha_rust_tree.Index.Layout
use rinha_rust_tree.Index.Table.{SpecialistIndex, PartitionScheme, active_from}
use rinha_rust_tree.Index.Predict.Valid.{idx_of}
use rinha_rust_tree.Index.Reader.{
  Result, ok, failed, panicked, and_then, LoadError, Header, partition_count_overflow,
  truncated_partitions, node_count_overflow, truncated_nodes, unaligned_vectors, truncated_vectors,
  truncated_labels, unaligned_ref_indices, truncated_ref_indices, truncated_class_bits,
}
use rinha_rust_tree.Index.Load.{
  fill_table, u32s, key_lookup_size, Settings, load_sections, load_header, load, open_index,
  same_bytes, value, section, strided_section, unless_aligned, align,
}
use rinha_rust_tree.Index.Writer.{magic_v5}

-- An entry of the table: no partition, or one below `n` whose record names the key.
abbrev LeadsBack : List ℕ → ℕ → ℕ → ℤ → Type 0
LeadsBack partitions_base n key (negsuc _) = Unit {0}
LeadsBack partitions_base n key (pos idx) =
    (idx < n) × (Layout.partition_key partitions_base idx ≡ key)

LeadsBack-mono :
    (base : List ℕ) (n key : ℕ) (v : ℤ) → LeadsBack base n key v → LeadsBack base (n + 1) key v
LeadsBack-mono base n key (negsuc _) h = tt
LeadsBack-mono base n key (pos idx) h = (omega (arith, h.0), h.1)

get_or-set :
    (table : List ℤ) (key i : ℕ) (v : ℤ) (P : ℤ → Type 0)
    → ((i ≡ key) → P v)
    → P (get_or table i (negsuc 0))
    → P (get_or (set table key v) i (negsuc 0))
get_or-set [] key i v P h g = g
get_or-set (x ∷ xs) zero zero v P h g = h refl
get_or-set (x ∷ xs) zero (suc i) v P h g = g
get_or-set (x ∷ xs) (suc key) zero v P h g = g
get_or-set (x ∷ xs) (suc key) (suc i) v P h g = get_or-set xs key i v P (λ e. h (ap suc e)) g

get_or-replicate : (m i : ℕ) → get_or (replicate m (negsuc 0)) i (negsuc 0) ≡ negsuc 0
get_or-replicate zero i = refl
get_or-replicate (suc m) zero = refl
get_or-replicate (suc m) (suc i) = get_or-replicate m i

module _ (base : List ℕ) where
  abbrev IsFilled : ℕ → List ℤ → Type 0
  IsFilled n table = (key : ℕ) → LeadsBack base n key (get_or table key (negsuc 0))

  fill_step :
      (idx : ℕ) (table : List ℤ)
      → idx < 2 ^ 31
      → IsFilled idx table
      → let key = Layout.partition_key base idx in
        IsFilled
          (idx + 1)
          (if ltb key key_lookup_size then set table key (wrap32 (pos idx)) else table)
  fill_step idx table small h =
      elim (Bool-cases (ltb (Layout.partition_key base idx) key_lookup_size)) [
        | inl inside ↦
            rw (inside, wrap32-fits idx (omega arith))
              (λ key.
                get_or-set table (Layout.partition_key base idx) key (pos idx)
                  (LeadsBack base (idx + 1) key) (λ e. (omega arith, sym e))
                  (LeadsBack-mono base idx key _ (h key)))
        | inr outside ↦ rw outside (λ key. LeadsBack-mono base idx key _ (h key))
      ]

  fill_table-IsFilled :
      (n idx : ℕ) (table : List ℤ)
      → idx + n ≤ 2 ^ 31
      → IsFilled idx table
      → IsFilled (idx + n) (fill_table n idx base table)
  unfolding fill_table
  fill_table-IsFilled zero idx table small h = let e : idx + 0 ≡ idx = omega arith in rw e h
  fill_table-IsFilled (suc n) idx table small h =
      let e : idx + suc n ≡ idx + 1 + n = omega arith in
      rw e (fill_table-IsFilled n (idx + 1) _ (omega arith) (fill_step idx table (omega arith) h))

-- A table that says where the record of each of its keys stands.
pub record IsTable (ix : SpecialistIndex) : Type 0 where
  pub keys : ix.active_keys ≡ active_from 0 ix.key_to_partition
  pub in_table :
      (key : ℕ)
      → ltb_ℤ (get_or ix.key_to_partition key (negsuc 0)) (pos 0) ≡ false
      → idx_of ix key < ix.partition_count
  pub keyed :
      (key : ℕ)
      → ltb_ℤ (get_or ix.key_to_partition key (negsuc 0)) (pos 0) ≡ false
      → Layout.partition_key ix.partitions_base (idx_of ix key) ≡ key

LeadsBack-active :
    (base : List ℕ) (n key : ℕ) (v : ℤ)
    → n ≤ 2 ^ 31
    → LeadsBack base n key v
    → ltb_ℤ v (pos 0) ≡ false
    → (as_usize v < n) × (Layout.partition_key base (as_usize v) ≡ key)
LeadsBack-active base n key (negsuc i) small h e = absurd (ground arith)
LeadsBack-active base n key (pos idx) small h e =
    let same : as_usize (pos idx) ≡ idx = omega (arith, h.0) in rw same h

-- Whatever a reader returns meets the predicate.
data Returns {A : Type 0} (P : A → Type 0) : Result (A × ℕ) → Type 0 where
  returned : (a : A) (cursor : ℕ) → P a → Returns P (ok (a, cursor))
  no_answer : (e : LoadError) → Returns P (failed e)
  no_return : Returns P panicked

bind-Returns :
    {A B : Type 0} {P : B → Type 0} (m : Result A) (f : A → Result (B × ℕ))
    → ((a : A) → Returns P (f a))
    → Returns P (and_then m f)
bind-Returns (ok a) f h = h a
bind-Returns (failed e) f h = no_answer e
bind-Returns panicked f h = no_return

-- What `load` makes is a table, where there are at most 2 ^ 31 partitions.
abbrev Loads : SpecialistIndex → Type 0
Loads ix = ix.partition_count ≤ 2 ^ 31 → IsTable ix

filled-IsTable :
    (ix : SpecialistIndex)
    → ix.active_keys ≡ active_from 0 ix.key_to_partition
    → ix.key_to_partition
      ≡ fill_table ix.partition_count 0 ix.partitions_base (replicate key_lookup_size (negsuc 0))
    → Loads ix
filled-IsTable ix keys table small =
    let start : IsFilled ix.partitions_base 0 (replicate key_lookup_size (negsuc 0)) =
      λ key. rw (get_or-replicate key_lookup_size key) tt in
    let n = ix.partition_count in
    let none_more : 0 + n ≡ n = omega arith in
    let filled : IsFilled ix.partitions_base n ix.key_to_partition = rw table (
      rw none_more at (
        fill_table-IsFilled ix.partitions_base n 0 (replicate key_lookup_size (negsuc 0))
          (omega arith) start)) in
    record {
      keys = keys;
      in_table = λ key e. (LeadsBack-active ix.partitions_base n key _ small (filled key) e).0;
      keyed = λ key e. (LeadsBack-active ix.partitions_base n key _ small (filled key) e).1;
    }

load_sections-Loads :
    (settings : Settings) (header : Header) (scheme : PartitionScheme) (bytes : List ℕ) (cursor : ℕ)
    → Returns Loads (load_sections settings header scheme bytes cursor)
unfolding load_sections
load_sections-Loads settings header scheme bytes cursor =
    let blocks = header.total_blocks in
    let vectors_len = blocks * 14 * 8 % 2 ^ 64 in
    let labels_len = blocks * 8 % 2 ^ 64 in
    bind-Returns
      (strided_section partition_count_overflow truncated_partitions header.partition_count
        Layout.partition_stride bytes cursor)
      _
      λ base.
        bind-Returns
          (strided_section node_count_overflow truncated_nodes header.node_count Layout.node_stride
            bytes base.1)
          _
          λ nodes. bind-Returns (unless_aligned 2 unaligned_vectors nodes.1) _ λ even.
            bind-Returns (section truncated_vectors (vectors_len * 2 % 2 ^ 64) bytes even.1) _
              λ vectors.
                bind-Returns (section truncated_labels labels_len bytes vectors.1) _ λ labels.
                  bind-Returns (align 4 labels.1) _ λ aligned.
                    bind-Returns (unless_aligned 4 unaligned_ref_indices aligned.1) _ λ by_four.
                      bind-Returns
                        (section truncated_ref_indices (labels_len * 4 % 2 ^ 64) bytes by_four.1) _
                        λ refs.
                          bind-Returns (section truncated_class_bits header.node_count bytes refs.1)
                            _
                            λ bits.
                              let table =
                                fill_table header.partition_count 0 base.0
                                  (replicate key_lookup_size (negsuc 0)) in
                              let ix : SpecialistIndex = record {
                                reference_count = header.reference_count;
                                partitions_base = base.0;
                                partition_count = header.partition_count;
                                key_to_partition = table;
                                active_keys = active_from 0 table;
                                partition_scheme = scheme;
                                nodes_base = nodes.0;
                                node_count = header.node_count;
                                vectors = i16s_at vectors_len vectors.0 0;
                                labels = take labels_len labels.0;
                                ref_indices = u32s labels_len refs.0;
                                node_class_bits = take header.node_count bits.0;
                                early_exit_threshold = settings.early_exit_threshold;
                                label_defer = settings.label_defer;
                              } in
                              returned ix bits.1 (filled-IsTable ix refl refl)

Returns-value :
    {A : Type 0} (P : A → Type 0) {r : Result (A × ℕ)} (a : A) → Returns P r → value r ≡ ok a → P a
Returns-value P a (returned b cursor h) e = let same : b ≡ a = cc in subst P same h
Returns-value P a (no_answer e') e = absurd (cc)
Returns-value P a no_return e = absurd (cc)

load-Loads :
    (settings : Settings) (bytes : List ℕ) (cursor : ℕ) → Returns Loads (load settings bytes cursor)
unfolding load
load-Loads settings bytes cursor =
    bind-Returns (load_header settings bytes cursor) _
      λ header. load_sections-Loads settings header.0.0 header.0.1 bytes header.1

-- An index that `open_index` makes out of a file with at most 2 ^ 31 partitions knows its active keys.
-- Each leads to a partition of the file, whose record names the key.
pub open_index-IsTable :
    (settings : Settings) (bytes : List ℕ) (ix : SpecialistIndex)
    → open_index settings bytes ≡ ok ix
    → ix.partition_count ≤ 2 ^ 31
    → IsTable ix
unfolding open_index
open_index-IsTable settings bytes ix e small = elim (Bool-cases (ltb (length bytes) 8)) [
  | inl short ↦ let e' = rw (short, open_index) at e in absurd (cc)
  | inr long ↦ elim (Bool-cases (same_bytes (take 8 bytes) magic_v5)) [
    | inl magic ↦
        Returns-value Loads ix (load-Loads settings bytes 8) (rw (long, magic, open_index) at e)
          small
    | inr other ↦ let e' = rw (long, other, open_index) at e in absurd (cc)
  ]
]

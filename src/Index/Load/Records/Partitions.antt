-- ===== src/Index/Load/Records/Partitions.antt =====
-- The records of the partitions that src/index/format.rs writes, read in place by
-- src/index/layout.rs.
use mathlib.Core.List.{append_assoc, append-nil}
use rinha_rust_tree.Prelude.{
  ℕ, zero, suc, ◌+◌, ◌*◌, ◌^◌, ◌<◌, ◌≡◌, refl, ap, sym, ◌∙◌, List, [], ◌∷◌, ◌++◌, arith, length,
  get_elem?, some, All,
}
use rinha_rust_tree.Prelude.Int.{pos}
use rinha_rust_tree.Index.Words.{le_bytes, u32_at, as_usize, wrap32}
use rinha_rust_tree.Index.Layout
use rinha_rust_tree.Index.Load.Records.{
  record_bytes, write_record, FitsFields, record_bytes-Reads, length-record_bytes, wrap32-bytes,
}
use rinha_rust_tree.Index.Build.{NodeEntry, node_at}
use rinha_rust_tree.Index.Build.File.{Meta, write_partitions}
use rinha_rust_tree.Index.Writer.{Buffer, write_i32, write_u32, write_partition_entry}
use rinha_rust_tree.Index.Reader.RoundTrip.{Left, Left-append, Fits16, le_value-le_bytes}

module _ (nodes : List NodeEntry) where
  abbrev partition_bytes : ℕ × ℕ → List ℕ
  partition_bytes (key, root) =
      let node = node_at nodes root in
      record_bytes (le_bytes 4 key) (wrap32 (pos root)) (pos 0) (wrap32 (pos node.len)) node.mn
        node.mx

  unfoldable partitions_bytes : Meta → List ℕ
  partitions_bytes [] = []
  partitions_bytes (entry ∷ partition_meta) =
      partition_bytes entry ++ partitions_bytes partition_meta

  write_partitions-append :
      (partition_meta : Meta) (buf : Buffer)
      → write_partitions nodes partition_meta buf ≡ buf ++ partitions_bytes partition_meta
  unfolding write_partitions partitions_bytes
  write_partitions-append [] buf = sym (append-nil buf)
  write_partitions-append ((key, root) ∷ partition_meta) buf =
      let node = node_at nodes root in
      let here =
        write_record (le_bytes 4 key) (wrap32 (pos root)) (pos 0) (wrap32 (pos node.len)) node.mn
          node.mx buf in
      write_partitions-append partition_meta _
      ∙ ap (λ out. out ++ partitions_bytes partition_meta)
          (unfold write_partition_entry in unfold write_i32 in unfold write_u32 in here)
      ∙ append_assoc buf (partition_bytes (key, root)) (partitions_bytes partition_meta)

-- A partition fits in its record.
pub record FitsEntry (nodes : List NodeEntry) (entry : ℕ × ℕ) : Type 0 where
  pub key : entry.0 < 2 ^ 32
  pub root : entry.1 < 2 ^ 31
  pub len : (node_at nodes entry.1).len < 2 ^ 31
  pub mn : All Fits16 (node_at nodes entry.1).mn
  pub mx : All Fits16 (node_at nodes entry.1).mx
  pub mn_size : length (node_at nodes entry.1).mn ≡ 16
  pub mx_size : length (node_at nodes entry.1).mx ≡ 16

-- The record of partition `idx` reads as the key, the root and the box of the root.
pub record HoldsPartition (nodes : List NodeEntry) (partitions_base : List ℕ) (idx : ℕ)
    (entry : ℕ × ℕ) : Type 0 where
  pub key : Layout.partition_key partitions_base idx ≡ entry.0
  pub root : Layout.partition_root partitions_base idx ≡ entry.1
  pub mn : Layout.partition_min partitions_base idx ≡ (node_at nodes entry.1).mn
  pub mx : Layout.partition_max partitions_base idx ≡ (node_at nodes entry.1).mx

module _ (nodes : List NodeEntry) (base : List ℕ) where
  -- The record of partition `idx` stands at its place.
  partitions_bytes-Left :
      (cursor : ℕ) (partition_meta : Meta) (rest : List ℕ) (idx : ℕ) (entry : ℕ × ℕ)
      → Left base cursor (partitions_bytes nodes partition_meta ++ rest)
      → All (FitsEntry nodes) partition_meta
      → get_elem? partition_meta idx ≡ some entry
      → (rest' : List ℕ) × Left base (cursor + idx * 80) (partition_bytes nodes entry ++ rest')
        × FitsEntry nodes entry
  unfolding partitions_bytes le_bytes
  partitions_bytes-Left cursor [] rest idx entry h fits e = absurd (cc)
  partitions_bytes-Left cursor (n ∷ partition_meta) rest zero entry h fits e =
      let same : n ≡ entry = cc in
      let at : cursor + 0 * 80 ≡ cursor = omega arith in
      (
        partitions_bytes nodes partition_meta ++ rest,
        rw (at, ← same)
            (h
              ∙ append_assoc (partition_bytes nodes n) (partitions_bytes nodes partition_meta)
                  rest),
        rw (← same) fits.0,
      )
  partitions_bytes-Left cursor (n ∷ partition_meta) rest (suc idx) entry h fits e =
      let node = node_at nodes n.1 in
      let size =
        length-record_bytes (le_bytes 4 n.0) (wrap32 (pos n.1)) (pos 0) (wrap32 (pos node.len))
          node.mn node.mx refl fits.0.mn_size fits.0.mx_size in
      let h' =
        h ∙ append_assoc (partition_bytes nodes n) (partitions_bytes nodes partition_meta) rest in
      let next : Left base (cursor + 80) (partitions_bytes nodes partition_meta ++ rest) =
        rw size at (
          Left-append base cursor (partition_bytes nodes n)
            (partitions_bytes nodes partition_meta ++ rest) h') in
      let at : cursor + suc idx * 80 ≡ cursor + 80 + idx * 80 = omega arith in
      rw at (partitions_bytes-Left (cursor + 80) partition_meta rest idx entry next fits.1 e)

  u32_at_lem :
      (off v : ℕ) (rest : List ℕ)
      → Left base off (le_bytes 4 v ++ rest)
      → v < 2 ^ 32
      → u32_at base off ≡ v
  unfolding u32_at le_bytes
  u32_at_lem off v rest h fits = rw (h, le_value-le_bytes 4 v fits) refl

  partition_bytes-HoldsPartition :
      (idx : ℕ) (entry : ℕ × ℕ) (rest : List ℕ)
      → Left base (idx * 80) (partition_bytes nodes entry ++ rest)
      → FitsEntry nodes entry
      → HoldsPartition nodes base idx entry
  unfolding Layout.partition_key Layout.partition_root Layout.partition_min Layout.partition_max
      le_bytes
  partition_bytes-HoldsPartition idx entry rest h fits =
      let node = node_at nodes entry.1 in
      let (root_kept, root_fits, root_back) = wrap32-bytes entry.1 fits.root in
      let (len_kept, len_fits, len_back) = wrap32-bytes node.len fits.len in
      let fields : FitsFields (wrap32 (pos entry.1)) (pos 0) (wrap32 (pos node.len)) node.mn
          node.mx =
        record {
          a_fits = rw root_kept root_fits;
          b_fits = (omega arith, omega arith);
          c_fits = rw len_kept len_fits;
          mn_fits = fits.mn;
          mx_fits = fits.mx;
          mn_size = fits.mn_size;
          mx_size = fits.mx_size;
        } in
      let reads =
        record_bytes-Reads base (idx * 80) (le_bytes 4 entry.0) (wrap32 (pos entry.1)) (pos 0)
          (wrap32 (pos node.len)) node.mn node.mx rest h refl fields in
      let at : idx * 80 + 0 ≡ idx * 80 = omega arith in
      record {
        key = rw at (u32_at_lem (idx * 80) entry.0 reads.others reads.first_at fits.key);
        root = ap as_usize (reads.a_at ∙ root_kept) ∙ root_back;
        mn = reads.mn_at;
        mx = reads.mx_at;
      }

-- Each partition that `write_partitions` writes, in front of the rest of the file, is read back from
-- its record with its key, its root and its root's box, if these and the root's length fit in their
-- fields.
pub write_partitions-HoldsPartition :
    (nodes : List NodeEntry) (partition_meta : Meta) (rest : List ℕ) (idx : ℕ) (entry : ℕ × ℕ)
    → All (FitsEntry nodes) partition_meta
    → get_elem? partition_meta idx ≡ some entry
    → HoldsPartition nodes (write_partitions nodes partition_meta [] ++ rest) idx entry
write_partitions-HoldsPartition nodes partition_meta rest idx entry fits e =
    let base = write_partitions nodes partition_meta [] ++ rest in
    let whole : Left base 0 (partitions_bytes nodes partition_meta ++ rest) =
      ap (λ buf. buf ++ rest) (write_partitions-append nodes partition_meta []) in
    let (rest', here, fits') =
      partitions_bytes-Left nodes base 0 partition_meta rest idx entry whole fits e in
    let place : 0 + idx * 80 ≡ idx * 80 = omega arith in
    partition_bytes-HoldsPartition nodes base idx entry rest' (rw place at here) fits'

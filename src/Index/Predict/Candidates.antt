-- ===== src/Index/Predict/Candidates.antt =====
-- The partitions that are left for the scan in src/index/mod.rs: those that are passed over are past
-- the last slot, and the sorted ones are entries.
use mathlib.Core.List.Perm
use rinha_rust_tree.Prelude.Perms.{All-perm}
use rinha_rust_tree.Prelude.{ℕ, false, List, ◌++◌, All, All-append}
use rinha_rust_tree.Index.Table.{QueryVector, SpecialistIndex}
use rinha_rust_tree.Index.Best.{Slot, kth_dist}
use rinha_rust_tree.Index.Best.Nearest.{skipped-IsNearest, IsNearest-perm}
use rinha_rust_tree.Index.Scan.Leaf.{Place, slot_at_place, slots_at, slots_at-ge, regroup-perm}
use rinha_rust_tree.Index.Predict.{Entry, candidate_entries, sort_partition_entries}
use rinha_rust_tree.Index.Predict.Sort.{Ascending, IsSortByBound, sort_partition_entries_lem}
use rinha_rust_tree.Index.Predict.Keys.{concat, others}
use rinha_rust_tree.Index.Predict.Valid.{IsForest}
use rinha_rust_tree.Index.Predict.Entries.{
  IsEntry, Near, Below, entry_places, key_places, IsActive, candidate_entries-IsEntry,
  candidate_entries-Split, IsEntry-prop, entry_places-perm,
}

module _ (ix : SpecialistIndex) (query : QueryVector) (fuel : ℕ) (places : ℕ → List Place)
    (h : IsForest ix query fuel places) where
  -- What the scan of the sorted entries starts from, and what its result is worth.
  pub record IsReady (entries : List Entry) (best pool : List Slot) (all : List Place)
      : Type 0 where
    pub ok : All (IsEntry ix query fuel places) entries
    pub ordered : Ascending entries
    pub passed : List Place
    pub near : Near ix query fuel places best (slots_at ix query passed ++ pool)
    pub below : Below ix query fuel places (slots_at ix query passed ++ pool)
    pub finish :
        (best' : List Slot)
        → Near ix query fuel places best' (
            slots_at ix query (entry_places ix query fuel places entries)
            ++ (slots_at ix query passed ++ pool))
        → Near ix query fuel places best' (slots_at ix query all ++ pool)

  pub candidate_entries-IsReady :
      (sort_unstable : List Entry → List Entry) {best pool : List Slot} (query_key : ℕ)
      (keys : List ℕ)
      → IsSortByBound sort_unstable
      → All (IsActive ix query fuel places h) keys
      → Near ix query fuel places best pool
      → Below ix query fuel places pool
      → IsReady
          (sort_partition_entries sort_unstable
            (candidate_entries ix query query_key (kth_dist best) keys))
          best
          pool
          (concat (key_places ix query fuel places h) (others query_key keys))
  candidate_entries-IsReady sort_unstable {best} {pool} query_key keys sorts active v lo =
      let entries = candidate_entries ix query query_key (kth_dist best) keys in
      let split = candidate_entries-Split ix query fuel places h query_key best keys active in
      let (ordered, same) = sort_partition_entries_lem sort_unstable sorts entries in
      let passed = slots_at ix query split.skipped in
      let all =
        Perm.trans (Perm.append_left split.skipped (entry_places-perm ix query fuel places h same))
          split.same in
      record {
        ok = All-perm (IsEntry ix query fuel places) (IsEntry-prop ix query fuel places h) same (
            candidate_entries-IsEntry ix query fuel places h query_key (kth_dist best) keys active);
        ordered = ordered;
        passed = split.skipped;
        near = skipped-IsNearest false passed v split.past;
        below = All-append _ passed pool (slots_at-ge ix query split.skipped) lo;
        finish = λ best' v'.
            IsNearest-perm false
              (Perm.trans (regroup-perm ix query split.skipped _ pool)
                (Perm.append_right pool (Perm.map (slot_at_place ix query) all)))
              v';
      }

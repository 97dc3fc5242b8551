-- ===== src/Index/Predict/Entries.antt =====
-- The scan of the partitions that are sorted by their bounds, in src/index/mod.rs.
use mathlib.Core.Logic.{∥∥₁_elim}
use mathlib.Core.HLevel.{×_prop}
use mathlib.Core.List.{Perm, Perm-prop, Permᴰ, append_assoc, map-append}
use mathlib.Core.List.Perm
use native.Mathlib.Bridge.{le_prop}
use rinha_rust_tree.Prelude.Perms.{perm_left_comm}
use rinha_rust_tree.Prelude.{
  ℕ, ◌<◌, ◌≡◌, refl, inl, inr, false, some, List, [], ◌∷◌, ◌++◌, arith, ◌==◌, Bool-cases, get_or,
  All, All-append,
}
use rinha_rust_tree.Prelude.Int.{ℤ, pos, negsuc, ◌≤ℤ◌, ltb_ℤ}
use rinha_rust_tree.Index.Layout
use rinha_rust_tree.Index.Table.{QueryVector, SpecialistIndex}
use rinha_rust_tree.Index.Best.{Slot, slot_at, kth_dist}
use rinha_rust_tree.Index.Best.Nearest.{Past, IsNearest, skipped-IsNearest, IsNearest-perm}
use rinha_rust_tree.Index.Scan.Leaf.{
  Place, slot_at_place, slots_at, slots_at-ge, i32_min, regroup-perm,
}
use rinha_rust_tree.Index.Defer.{new_pending, should_replay}
use rinha_rust_tree.Index.Search.{leb_ℤ}
use rinha_rust_tree.Index.Search.Nearest.{search_node_iterative_fast-IsNearest}
use rinha_rust_tree.Index.Predict.{
  Entry, Outcome, partition_bound, candidate_entries, replay_pending_if_needed, search_partition,
  search_entries,
}
use rinha_rust_tree.Index.Predict.Sort.{Ascending}
use rinha_rust_tree.Index.Predict.Keys.{concat, others}
use rinha_rust_tree.Index.Predict.Valid.{IsForest, idx_of}

ℤ-set : IsSet ℤ
ℤ-set = hlevel

module _ (ix : SpecialistIndex) (query : QueryVector) (fuel : ℕ) (places : ℕ → List Place) where
  abbrev pub IsEntry : Entry → Type 0
  IsEntry e = (e.idx < ix.partition_count) × (partition_bound ix query e.idx ≡ e.bound)

  abbrev pub Near : List Slot → List Slot → Type 0
  Near = IsNearest false

  abbrev pub Below : List Slot → Type 0
  Below pool = All (λ s. i32_min ≤ℤ s.dist) pool

  -- The run ends with nothing put off, and its slots are K nearest.
  abbrev pub Finds : Outcome → List Place → List Slot → Type 0
  Finds r ps pool =
      (best : List Slot) × (r ≡ some (best, new_pending false))
      × Near best (slots_at ix query ps ++ pool)

  abbrev pub entry_places : List Entry → List Place
  entry_places [] = []
  entry_places (e ∷ entries) = places e.idx ++ entry_places entries

  module _ (h : IsForest ix query fuel places) where
    pub search_partition-Finds :
        (e : Entry) {best pool : List Slot}
        → IsEntry e
        → Near best pool
        → Below pool
        → Finds (search_partition fuel ix query e best (new_pending false)) (places e.idx) pool
    unfolding search_partition replay_pending_if_needed should_replay
    search_partition-Finds e {best} {pool} (inside, bound) v lo =
        let part = h.partitions e.idx inside in
        let (best', found, v') =
          search_node_iterative_fast-IsNearest ix query false (some (new_pending false)) fuel
            (Layout.partition_root ix.partitions_base e.idx) e.bound refl part.tree
            (rw bound at part.bounded) part.shallow part.fuelled v lo in
        (best', rw (found, search_partition), v')

    pub Past-places :
        (best : List Slot) (bound : ℤ) (ps : List Place)
        → kth_dist best ≤ℤ bound
        → All (λ p. bound ≤ℤ (slot_at_place ix query p).dist) ps
        → All (Past false (slot_at best 4)) (slots_at ix query ps)
    Past-places best bound [] le b = tt
    Past-places best bound (p ∷ ps) le b = (omega (arith, b.0), Past-places best bound ps le b.1)

    pub entry_bounded :
        (e : Entry)
        → IsEntry e
        → All (λ p. e.bound ≤ℤ (slot_at_place ix query p).dist) (places e.idx)
    entry_bounded e (inside, bound) = rw bound at (h.partitions e.idx inside).bounded

    -- Entries with bounds past the last slot hold no nearer vector.
    pub Past-entries :
        (best : List Slot) (bound : ℤ) (entries : List Entry)
        → kth_dist best ≤ℤ bound
        → All IsEntry entries
        → All (λ e. bound ≤ℤ e.bound) entries
        → All (Past false (slot_at best 4)) (slots_at ix query (entry_places entries))
    Past-entries best bound [] le es b = tt
    Past-entries best bound (e ∷ entries) le es b =
        rw (map-append (slot_at_place ix query) (places e.idx) (entry_places entries)) (
          All-append _ (slots_at ix query (places e.idx)) _
            (Past-places best e.bound (places e.idx) (omega (arith, b.0)) (entry_bounded e es.0))
            (Past-entries best bound entries le es.1 b.1))

    pub search_entries-Finds :
        ix.early_exit_threshold ≡ pos 0
        → (entries : List Entry) {best pool : List Slot} → All IsEntry entries
        → Ascending entries
        → Near best pool
        → Below pool
        → Finds
            (search_entries fuel ix query entries best (new_pending false))
            (entry_places entries)
            pool
    unfolding search_entries
    search_entries-Finds no_exit [] {best} es asc v lo = (best, refl, v)
    search_entries-Finds no_exit (e ∷ entries) {best} {pool} es asc v lo =
        elim (Bool-cases (leb_ℤ (kth_dist best) e.bound)) [
          | inl far ↦ (
            best,
            rw (far, search_entries),
            skipped-IsNearest false (slots_at ix query (entry_places (e ∷ entries))) v
                (Past-entries best e.bound (e ∷ entries) (ground arith) es (omega arith, asc.0)),
          )
          | inr near ↦
              let (best', found, v') = search_partition-Finds e es.0 v lo in
              let (best'', rest, v'') = search_entries-Finds no_exit entries es.1 asc.1 v' (
                All-append _ (slots_at ix query (places e.idx)) pool
                  (slots_at-ge ix query (places e.idx)) lo) in
              (
                best'',
                rw (near, search_entries, found, no_exit) rest,
                IsNearest-perm false
                    (regroup-perm ix query (places e.idx) (entry_places entries) pool) v'',
              )
        ]

    abbrev pub key_places : ℕ → List Place
    key_places key = places (idx_of ix key)

    abbrev pub IsActive : ℕ → Type 0
    IsActive key = ltb_ℤ (get_or ix.key_to_partition key (negsuc 0)) (pos 0) ≡ false

    pub candidate_entries-IsEntry :
        (query_key : ℕ) (limit : ℤ) (keys : List ℕ)
        → All IsActive keys
        → All IsEntry (candidate_entries ix query query_key limit keys)
    unfolding candidate_entries
    candidate_entries-IsEntry query_key limit [] a = tt
    candidate_entries-IsEntry query_key limit (key ∷ keys) a =
        let rest = candidate_entries-IsEntry query_key limit keys a.1 in
        let bound = partition_bound ix query (idx_of ix key) in
        elim (Bool-cases (key == query_key)) [
          | inl own ↦ rw own rest
          | inr other ↦ elim (Bool-cases (ltb_ℤ bound limit)) [
            | inl near ↦ rw (other, near) ((h.in_table key a.0, refl), rest)
            | inr far ↦ rw (other, far) rest
          ]
        ]

    -- The places of the other partitions: those of the candidates, and those that are past.
    pub record Split (best : List Slot) (entries : List Entry) (all : List Place) : Type 0 where
      pub skipped : List Place
      pub same : Perm (skipped ++ entry_places entries) all
      pub past : All (Past false (slot_at best 4)) (slots_at ix query skipped)

    pub candidate_entries-Split :
        (query_key : ℕ) (best : List Slot) (keys : List ℕ)
        → All IsActive keys
        → Split best
            (candidate_entries ix query query_key (kth_dist best) keys)
            (concat key_places (others query_key keys))
    unfolding candidate_entries concat others
    candidate_entries-Split query_key best [] a = record {
      skipped = [];
      same = Perm.refl _;
      past = tt;
    }
    candidate_entries-Split query_key best (key ∷ keys) a =
        let rest = candidate_entries-Split query_key best keys a.1 in
        let idx = idx_of ix key in
        let bound = partition_bound ix query idx in
        elim (Bool-cases (key == query_key)) [
          | inl own ↦ rw own rest
          | inr other ↦ elim (Bool-cases (ltb_ℤ bound (kth_dist best))) [
            | inl near ↦
                rw (other, near)
                  (record {
                    skipped = rest.skipped;
                    same =
                        Perm.trans (perm_left_comm rest.skipped (places idx) _)
                          (Perm.append_left (places idx) rest.same);
                    past = rest.past;
                  })
            | inr far ↦
                rw (other, far)
                  (record {
                    skipped = places idx ++ rest.skipped;
                    same =
                        rw (append_assoc (places idx) rest.skipped _)
                          (Perm.append_left (places idx) rest.same);
                    past = rw (map-append (slot_at_place ix query) (places idx) rest.skipped) (
                        All-append _ (slots_at ix query (places idx)) _
                          (Past-places best bound (places idx) (ground arith)
                            (h.partitions idx (h.in_table key a.0)).bounded)
                          rest.past);
                  })
          ]
        ]

    pub IsEntry-prop : (e : Entry) → IsProp (IsEntry e)
    IsEntry-prop e = ×_prop le_prop (ℤ-set _ _)

    entry_places-Permᴰ :
        {es fs : List Entry} → Permᴰ es fs → Perm (entry_places es) (entry_places fs)
    entry_places-Permᴰ Permᴰ.nil = Perm.refl _
    entry_places-Permᴰ (Permᴰ.cons {b = e} g p) =
        rw g (Perm.append_left (places e.idx) (entry_places-Permᴰ p))
    entry_places-Permᴰ (Permᴰ.swap {a = e} {b = f} g k) =
        rw (← g, ← k) (perm_left_comm (places e.idx) (places f.idx) _)
    entry_places-Permᴰ (Permᴰ.trans p q) = Perm.trans (entry_places-Permᴰ p) (entry_places-Permᴰ q)

    pub entry_places-perm :
        {es fs : List Entry} → Perm es fs → Perm (entry_places es) (entry_places fs)
    entry_places-perm p = ∥∥₁_elim p Perm-prop entry_places-Permᴰ

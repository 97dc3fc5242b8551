-- ===== src/Index/Best.antt =====
-- src/index/search.rs: the K best candidates found so far, and the insertion of a candidate.
-- `best_dists`, `best_labels` and `best_indices` are always written at the same position; they are
-- one list of slots here, of length K.
pub mod Sorted
pub mod Nearest
use rinha_rust_tree.Prelude.{
  ℕ, zero, suc, ◌+◌, ◌-◌, ◌^◌, Bool, ◌&&◌, ◌||◌, List, [], ◌∷◌, Option, none, some, ltb,
  if◌then◌else◌, get_or, set, replicate,
}
use rinha_rust_tree.Prelude.Int.{ℤ, pos, ltb_ℤ, eqb_ℤ}

pub record Slot : Type 0 where
  pub dist : ℤ
  pub label : ℕ
  pub index : ℕ

-- `K` of src/lib.rs
abbrev pub k : ℕ
k = 5

abbrev pub i64_max : ℤ
i64_max = pos (2 ^ 63 - 1)

abbrev pub u32_max : ℕ
u32_max = 2 ^ 32 - 1

abbrev pub empty_slot : Slot
empty_slot = record { dist = i64_max; label = 0; index = u32_max }

-- `[i64::MAX; K]`, `[0u8; K]`, `[u32::MAX; K]`
abbrev pub no_best : List Slot
no_best = replicate k empty_slot

abbrev pub slot_at : List Slot → ℕ → Slot
slot_at best i = get_or best i empty_slot

-- `best_dists[K - 1]`
abbrev pub kth_dist : List Slot → ℤ
kth_dist best = (slot_at best 4).dist

unfoldable pub candidate_before : ℤ → ℕ → ℤ → ℕ → Bool
candidate_before dist ref_index other_dist other_index =
    ltb_ℤ dist other_dist || (eqb_ℤ dist other_dist && ltb ref_index other_index)

abbrev pub before : Slot → Slot → Bool
before c s = candidate_before c.dist c.index s.dist s.index

-- The `while` loop from position `p`, and the writes behind it.
unfoldable pub insert_from : ℕ → Slot → List Slot → List Slot
insert_from zero c best = set best 0 c
insert_from (suc p) c best =
    let moved = insert_from p c (set best (suc p) (slot_at best p)) in
    if before c (slot_at best p) then moved else set best (suc p) c

unfoldable pub insert_best_fast : Slot → List Slot → List Slot
unfolding insert_from
insert_best_fast c best =
    if before c (slot_at best (k - 1)) then insert_from (k - 1) c best else best

-- `track_part_keys` with the partition key of each slot, where it is `Some`.
pub record Tracked : Type 0 where
  pub best : List Slot
  pub part_keys : Option (List ℕ)

abbrev move_key : ℕ → Option (List ℕ) → Option (List ℕ)
move_key p none = none
move_key p (some keys) = some (set keys (suc p) (get_or keys p 0))

abbrev write_key : ℕ → ℕ → Option (List ℕ) → Option (List ℕ)
write_key p key none = none
write_key p key (some keys) = some (set keys p key)

abbrev write : ℕ → Slot → ℕ → Tracked → Tracked
write p c key t = record { best = set t.best p c; part_keys = write_key p key t.part_keys }

unfoldable pub insert_tracked_from : ℕ → Slot → ℕ → Tracked → Tracked
insert_tracked_from zero c key t = write 0 c key t
insert_tracked_from (suc p) c key t =
    let moved = insert_tracked_from p c key (record {
      best = set t.best (suc p) (slot_at t.best p);
      part_keys = move_key p t.part_keys;
    }) in
    if before c (slot_at t.best p) then moved else write (suc p) c key t

unfoldable pub insert_best : Slot → ℕ → Tracked → Tracked
unfolding insert_tracked_from
insert_best c key t =
    if before c (slot_at t.best (k - 1)) then insert_tracked_from (k - 1) c key t else t

-- `best_labels.iter().map(|&l| l as u32).sum::<u32>()`; five u8 do not wrap.
abbrev pub label_sum : List Slot → ℕ
label_sum [] = 0
label_sum (s ∷ best) = s.label + label_sum best

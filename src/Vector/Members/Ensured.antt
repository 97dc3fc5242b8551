-- ===== src/Vector/Members/Ensured.antt =====
-- The loops over members end within their fuel, and keep what each field keeps.
use rinha_rust_tree.Prelude.{
  ℕ, zero, suc, ◌+◌, ◌-◌, ◌≤◌, ◌<◌, ◌≡◌, refl, Bool, true, false, not, inl, inr, List, [], arith,
  ◌==◌, Bool-cases, Option-cases, length, get_or, drop, length-drop, length-take,
}
use rinha_rust_tree.Http.Bytes.{Bytes, slice, position, position-lt}
use rinha_rust_tree.Vector.Json.{Result, ok, and_then}
use rinha_rust_tree.Vector.Ensures.{Ensures, Ensures-if, Ensures-and_then, Ensures-weaken}
use rinha_rust_tree.Vector.Skip.{skip_ws, skip_value}
use rinha_rust_tree.Vector.Skip.Progress.{
  Moved, byte-lt, skip_ws-bounds, skip_string-Moved, skip_value-Moved,
}
use rinha_rust_tree.Vector.Members.{
  merchants_from, read_known_merchants_at, member, after_comma, members, object, outer_member,
  outer_members,
}

-- nothing is claimed of the value
abbrev pub Any {ℓ} : {A : Type ℓ} → A → Type 0
Any a = Unit

merchants_from-Ensures :
    (fuel : ℕ) (s : Bytes) (hashes : List ℕ)
    → length s < fuel
    → Ensures Any (merchants_from fuel s hashes)
unfolding merchants_from
merchants_from-Ensures zero s hashes h = absurd (omega arith)
merchants_from-Ensures (suc fuel) s hashes h =
    let quote : ℕ → Bool = λ b. b == 34 in
    elim (Option-cases (position quote s)) [
      | inl e ↦ rw (e, merchants_from) (Ensures.holds tt)
      | inr (i, e) ↦
          let content = drop (i + 1) s in
          let lt = position-lt quote s i e in
          elim (Option-cases (position quote content)) [
            | inl f ↦ rw (e, f, merchants_from) Ensures.refused
            | inr (rel, f) ↦
                rw (e, f, merchants_from)
                  (merchants_from-Ensures fuel (drop (rel + 1) content) _
                    (omega (arith, lt, length-drop (rel + 1) content, length-drop (i + 1) s)))
          ]
    ]

pub read_known_merchants_at-Ensures :
    (json : Bytes) (start : ℕ) → Ensures Any (read_known_merchants_at json start)
unfolding read_known_merchants_at
read_known_merchants_at-Ensures json start =
    Ensures-if (not (get_or json start 0 == 91)) (λ e. Ensures.refused)
      (λ e. elim (Option-cases (position (λ b. b == 93) (drop start json))) [
        | inl f ↦ rw f Ensures.refused
        | inr (rel_end, f) ↦ rw f (
            merchants_from-Ensures (suc (length json)) (slice json (start + 1) (start + rel_end)) []
              (omega (
                arith,
                length-take (start + rel_end - (start + 1)) (drop (start + 1) json),
                length-drop (start + 1) json,
              )))
      ])

not-false : (b : Bool) → not b ≡ false → b ≡ true
not-false true h = refl
not-false false h = cc

module _ (json : Bytes) where
  after_comma-bounds :
      (i : ℕ) → i ≤ length json → (i ≤ after_comma json i) × (after_comma json i ≤ length json)
  after_comma-bounds i h =
      let (low, high) = skip_ws-bounds json i h in
      elim (Bool-cases (get_or json (skip_ws json i) 0 == 44)) [
        | inl e ↦
            rw e
              (omega (arith, low), omega (arith, byte-lt json (skip_ws json i) 44 e (omega arith)))
        | inr e ↦ rw e (low, high)
      ]

  module _ {S : Type 0} (P : S → Type 0) (field : Bytes → ℕ → S → Result S)
      (keeps : (k : Bytes) (v : ℕ) (s : S) → P s → Ensures P (field k v s)) where
    abbrev pub Kept : ℕ → S × ℕ → Type 0
    Kept i (s, j) = P s × Moved json i j

    -- from the colon on
    value-Kept :
        (i colon : ℕ) (k : Bytes) (s : S)
        → i < colon
        → (get_or json colon 0 == 58) ≡ true
        → P s
        → Ensures (Kept i) (
            and_then
              (field k (skip_ws json (colon + 1)) s)
              λ s'. and_then (skip_value json (skip_ws json (colon + 1))) λ i'. ok (s', i'))
    value-Kept i colon k s low e p =
        let lt = byte-lt json colon 58 e (omega arith) in
        let (l, h) = skip_ws-bounds json (colon + 1) (omega (arith, lt)) in
        Ensures-and_then (keeps k (skip_ws json (colon + 1)) s p) (λ s' p'.
          Ensures-and_then (skip_value-Moved json (skip_ws json (colon + 1)) h)
            (λ i' m. Ensures.holds (p', (omega (arith, m, l), m.1))))

    member-Kept : (i : ℕ) (s : S) → P s → Ensures (Kept i) (member json field i s)
    unfolding member
    member-Kept i s p =
        Ensures-if (not (get_or json i 0 == 34)) (λ e. Ensures.refused)
          (λ e. Ensures-and_then (skip_string-Moved json i) (λ k_end m.
            let (l, h) = skip_ws-bounds json k_end m.1 in
            Ensures-if (not (get_or json (skip_ws json k_end) 0 == 58)) (λ c. Ensures.refused)
              (λ c. value-Kept i (skip_ws json k_end) _ s (omega (arith, l, m)) (not-false _ c) p)))

    members-Kept :
        (fuel i : ℕ) (s : S)
        → i ≤ length json
        → length json < fuel + i
        → P s
        → Ensures (Kept i) (members json field fuel i s)
    unfolding members
    members-Kept zero i s h enough p = absurd (omega arith)
    members-Kept (suc fuel) i s h enough p =
        let j = skip_ws json i in
        let (low, high) = skip_ws-bounds json i h in
        elim (Bool-cases (get_or json j 0 == 125)) [
          | inl e ↦
              rw (e, members)
                (Ensures.holds
                  (p, (omega (arith, low), omega (arith, byte-lt json j 125 e (omega arith)))))
          | inr e ↦
              rw (e, members)
                (Ensures-and_then (member-Kept j s p) (λ (s', i') (p', m).
                  let (l, r) = after_comma-bounds i' m.1 in
                  Ensures-weaken
                    (members-Kept fuel (after_comma json i') s' r (omega (arith, m, low, l)) p')
                    (λ (t, n) (q, m'). (q, (omega (arith, m', m, low, l), m'.1)))))
        ]

    pub object-Kept : (i : ℕ) (s : S) → P s → Ensures (Kept i) (object json field i s)
    unfolding object
    object-Kept i s p =
        Ensures-if (get_or json i 0 == 123)
          (λ e.
            let lt = byte-lt json i 123 e (omega arith) in
            Ensures-weaken
              (members-Kept (suc (length json)) (i + 1) s (omega (arith, lt)) (omega arith) p)
              (λ (t, n) (q, m). (q, (omega (arith, m), m.1))))
          (λ e. Ensures.refused)

  module _ {S : Type 0} (P : S → Type 0) (value : Bytes → ℕ → S → Result (S × ℕ))
      (keeps : (k : Bytes) (v : ℕ) (s : S)
        → v ≤ length json
        → P s
        → Ensures (λ (r : S × ℕ). P r.0 × Moved json v r.1) (value k v s)) where
    outer_member-Kept :
        (i : ℕ) (s : S)
        → P s
        → Ensures (λ (r : S × ℕ). P r.0 × Moved json i r.1) (outer_member json value i s)
    unfolding outer_member
    outer_member-Kept i s p =
        Ensures-if (not (get_or json i 0 == 34)) (λ e. Ensures.refused)
          (λ e. Ensures-and_then (skip_string-Moved json i) (λ end m.
            let colon = skip_ws json end in
            let (l, h) = skip_ws-bounds json end m.1 in
            Ensures-if (not (get_or json colon 0 == 58)) (λ c. Ensures.refused)
              (λ c.
                let lt = byte-lt json colon 58 (not-false _ c) (omega arith) in
                let (l', h') = skip_ws-bounds json (colon + 1) (omega (arith, lt)) in
                Ensures-weaken (keeps _ (skip_ws json (colon + 1)) s h' p)
                  (λ r (q, m'). (q, (omega (arith, m', l', l, m), m'.1))))))

    pub outer_members-Ensures :
        (fuel i : ℕ) (s : S)
        → i ≤ length json
        → length json < fuel + i
        → P s
        → Ensures P (outer_members json value fuel i s)
    unfolding outer_members
    outer_members-Ensures zero i s h enough p = absurd (omega arith)
    outer_members-Ensures (suc fuel) i s h enough p =
        let j = skip_ws json i in
        let (low, high) = skip_ws-bounds json i h in
        elim (Bool-cases (get_or json j 0 == 125)) [
          | inl e ↦ rw (e, outer_members) (Ensures.holds p)
          | inr e ↦
              rw (e, outer_members)
                (Ensures-and_then (outer_member-Kept j s p) (λ (s', i') (p', m).
                  let (l, r) = after_comma-bounds i' m.1 in
                  outer_members-Ensures fuel (after_comma json i') s' r (omega (arith, m, low, l))
                    p'))
        ]

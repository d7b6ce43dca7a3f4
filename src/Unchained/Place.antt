-- ===== src/Unchained/Place.antt =====
-- The copying loop: each slot's part of the array ends up with the slot's tuples, in their order.
use mathlib.Core.List.{append-nil, append_assoc}
use mathlib.Core.Path.{ap₂}
use sigmod_runtime_engine.Base.{
  ℕ, zero, suc, ◌+◌, ◌^◌, ◌≤◌, ◌<◌, ◌≡◌, refl, sym, ap, ◌∙◌, ◌⊎◌, inl, inr, List, [], ◌∷◌, ◌++◌,
  arith, ltb, ◌==◌, if◌then◌else◌, ltb→lt, ltb→le, ==→eq, ==→ne, ==_refl, Bool-cases, length,
  get_or, set, length-set, get_or-set_self, get_or-set_ne, select_hit, select_miss, u32,
}
use sigmod_runtime_engine.Unchained.{HashEntry, no_entry, FlatTable}
use sigmod_runtime_engine.Unchained.Phases.{slot_of, place}
use sigmod_runtime_engine.Unchained.Tally.{in_slot}
use sigmod_runtime_engine.Unchained.Offsets.{below, below-lt}

-- `n` tuples of an array from index `base` on.
unfoldable pub slice : List HashEntry → ℕ → ℕ → List HashEntry
slice tuples base zero = []
slice tuples base (suc n) = get_or tuples base no_entry ∷ slice tuples (base + 1) n

-- A write outside the part changes nothing there.
slice-set_ne :
    (tuples : List HashEntry) (base n pos : ℕ) (e : HashEntry)
    → (pos < base) ⊎ (base + n ≤ pos)
    → slice (set tuples pos e) base n ≡ slice tuples base n
unfolding slice
slice-set_ne tuples base zero pos e h = refl
slice-set_ne tuples base (suc n) pos e h = rw (
  get_or-set_ne tuples pos base e no_entry (omega arith),
  slice-set_ne tuples (base + 1) n pos e (omega arith),
)

-- A write just behind the part makes it longer by one.
slice-set_end :
    (tuples : List HashEntry) (base n pos : ℕ) (e : HashEntry)
    → pos ≡ base + n
    → pos < length tuples
    → slice (set tuples pos e) base (n + 1) ≡ slice tuples base n ++ e ∷ []
unfolding slice
slice-set_end tuples base zero pos e at_end h =
    let here : base ≡ pos = omega arith in
    rw here (ap (λ x. x ∷ []) (get_or-set_self tuples pos e no_entry h))
slice-set_end tuples base (suc n) pos e at_end h =
    let more : suc n + 1 ≡ suc (n + 1) = omega arith in
    rw more (
      ap₂ ◌∷◌ (get_or-set_ne tuples pos base e no_entry (omega arith))
        (slice-set_end tuples (base + 1) n pos e (omega arith) h))

module _ (hash : ℕ → ℕ) (t : FlatTable) (g : ℕ → ℕ) (size : ℕ)
    (homed : (k : ℕ) → slot_of hash t k < size) (small : below g size < 2 ^ 32) where
  -- How many tuples each slot has, counting one more for the slot of `k`.
  abbrev one_more : ℕ → (ℕ → ℕ) → ℕ → ℕ
  one_more k used s = if slot_of hash t k == s then used s + 1 else used s

  -- Counting a tuple as placed, or as still to come.
  count_cons :
      (e : HashEntry) (es : List HashEntry) (used : ℕ → ℕ) (s : ℕ)
      → used s + length (in_slot hash t s (e ∷ es))
        ≡ one_more e.key used s + length (in_slot hash t s es)
  count_cons e es used s = elim (Bool-cases (slot_of hash t e.key == s)) [
    | inl here ↦
        let grown = ap length (select_hit (λ e. slot_of hash t e.key == s) e es here) in
        rw here (omega (arith, grown))
    | inr there ↦
        let kept = ap length (select_miss (λ e. slot_of hash t e.key == s) e es there) in
        rw there (omega (arith, kept))
  ]

  module _ (e : HashEntry) (es : List HashEntry) (ptrs : List ℕ) (tuples : List HashEntry)
      (used : ℕ → ℕ) (wide : length ptrs ≡ size) (long : length tuples ≡ below g size)
      (at_ptr : (s : ℕ) → s < size → get_or ptrs s 0 ≡ below g s + used s)
      (fits : (s : ℕ) → s < size → used s + length (in_slot hash t s (e ∷ es)) ≤ g s) where
    abbrev slot : ℕ
    slot = slot_of hash t e.key

    abbrev pos : ℕ
    pos = get_or ptrs slot 0

    -- The write position lies in the part of its slot, behind what is there.
    pos_in_slot : (pos ≡ below g slot + used slot) × (used slot < g slot)
    pos_in_slot =
        let counted = count_cons e es used slot in
        let own : one_more e.key used slot ≡ used slot + 1 = rw (==_refl slot) in
        (at_ptr slot (homed e.key), omega (arith, counted, own, fits slot (homed e.key)))

    pos-lt : (pos < length tuples) × (u32 (pos + 1) ≡ pos + 1)
    pos-lt =
        let end = below-lt g slot size (homed e.key) in
        (omega (arith, end, pos_in_slot), omega (arith, end, pos_in_slot))

    ptrs_next :
        (s : ℕ)
        → s < size
        → get_or (set ptrs slot (u32 (pos + 1))) s 0 ≡ below g s + one_more e.key used s
    ptrs_next s h = elim (Bool-cases (slot == s)) [
      | inl here ↦
          let is = ==→eq _ _ here in
          rw (here, pos-lt.1, ← is, get_or-set_self ptrs slot (pos + 1) 0 (rw wide (homed e.key)))
            (omega (arith, pos_in_slot))
      | inr there ↦
          rw (there, get_or-set_ne ptrs slot s (u32 (pos + 1)) 0 (==→ne _ _ there)) (at_ptr s h)
    ]

    slice_next :
        (s : ℕ)
        → s < size
        → slice (set tuples pos e) (below g s) (one_more e.key used s) ++ in_slot hash t s es
          ≡ slice tuples (below g s) (used s) ++ in_slot hash t s (e ∷ es)
    slice_next s h = elim (Bool-cases (slot == s)) [
      | inl here ↦
          let is = ==→eq _ _ here in
          let behind : pos ≡ below g s + used s = pos_in_slot.0 ∙ ap (λ r. below g r + used r) is in
          rw
            (
              here,
              select_hit (λ e. slot_of hash t e.key == s) e es here,
              slice-set_end tuples (below g s) (used s) pos e behind pos-lt.0,
            )
            (append_assoc (slice tuples (below g s) (used s)) (e ∷ []) _)
      | inr there ↦
          let kept = count_cons e es used s in
          let room = fits s h in
          let outside : (pos < below g s) ⊎ (below g s + used s ≤ pos) =
            elim (Bool-cases (ltb slot s)) [
              | inl before ↦ inl (omega (arith, below-lt g slot s (ltb→lt _ _ before), pos_in_slot))
              | inr after ↦ inr (
                  omega (
                    arith,
                    ==→ne _ _ there,
                    below-lt g s slot (omega (arith, ==→ne _ _ there, ltb→le _ _ after)),
                    pos_in_slot,
                  ))
            ] in
          rw (
            there,
            select_miss (λ e. slot_of hash t e.key == s) e es there,
            slice-set_ne tuples (below g s) (used s) pos e outside,
          )
    ]

  pub place-slice :
      (es : List HashEntry) (ptrs : List ℕ) (tuples : List HashEntry) (used : ℕ → ℕ)
      → length ptrs ≡ size
      → length tuples ≡ below g size
      → ((s : ℕ) → s < size → get_or ptrs s 0 ≡ below g s + used s)
      → ((s : ℕ) → s < size → used s + length (in_slot hash t s es) ≤ g s)
      → (s : ℕ) → s < size
      → slice (place hash t es ptrs tuples).1 (below g s) (used s + length (in_slot hash t s es))
        ≡ slice tuples (below g s) (used s) ++ in_slot hash t s es
  unfolding place
  place-slice [] ptrs tuples used wide long at_ptr fits s h =
      let e : used s + 0 ≡ used s = omega arith in rw e (sym (append-nil _))
  place-slice (e ∷ es) ptrs tuples used wide long at_ptr fits s h =
      let slot = slot_of hash t e.key in
      let pos = get_or ptrs slot 0 in
      let ih =
        place-slice es (set ptrs slot (u32 (pos + 1))) (set tuples pos e) (one_more e.key used)
          (length-set ptrs slot _ ∙ wide) (length-set tuples pos e ∙ long)
          (ptrs_next e es ptrs tuples used wide long at_ptr fits)
          (λ r p. omega (arith, count_cons e es used r, fits r p)) s h in
      ap (slice (place hash t es (set ptrs slot (u32 (pos + 1))) (set tuples pos e)).1 (below g s))
        (count_cons e es used s)
      ∙ ih
      ∙ slice_next e es ptrs tuples used wide long at_ptr fits s h

  pub length-place :
      (es : List HashEntry) (ptrs : List ℕ) (tuples : List HashEntry)
      → length (place hash t es ptrs tuples).1 ≡ length tuples
  unfolding place
  length-place [] ptrs tuples = refl
  length-place (e ∷ es) ptrs tuples = length-place es _ _ ∙ length-set tuples _ e

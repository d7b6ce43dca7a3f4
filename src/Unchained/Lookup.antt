-- ===== src/Unchained/Lookup.antt =====
-- Probing a table that was built from a vector of entries.
use sigmod_runtime_engine.Base.{
  ℕ, ◌+◌, ◌-◌, ◌^◌, ◌≤◌, ◌<◌, ◌≡◌, refl, sym, ap, ◌∙◌, ◌⊎◌, inl, inr, Bool, Option, none, some,
  List, [], ◌∷◌, arith, ◌==◌, if◌then◌else◌, ==→eq, ==→ne, ==_refl, Bool-cases, length, get_or,
  select, get_or-replicate_self, select-select, u32,
}
use sigmod_runtime_engine.Bloom.{make_tag_from_hash, maybe_contains}
use sigmod_runtime_engine.Unchained.{HashEntry, FlatTable}
use sigmod_runtime_engine.Unchained.Phases.{
  slot_of, emptied, filled, build_from_entries, Bucket, probe,
}
use sigmod_runtime_engine.Unchained.Sizing.{WellSized}
use sigmod_runtime_engine.Unchained.Tally.{in_slot}
use sigmod_runtime_engine.Unchained.Offsets.{below, below-suc, below-zero, below-lt}
use sigmod_runtime_engine.Unchained.Place.{slice}
use sigmod_runtime_engine.Unchained.Totals.{slot_of-lt, below-in_slot}
use sigmod_runtime_engine.Unchained.Built.{Built, filled-Built}

-- The tuples that a result of `probe` points at.
unfoldable pub tuples_of : FlatTable → Option Bucket → List HashEntry
tuples_of t none = []
tuples_of t (some b) = slice t.tuples b.base b.len

unfoldable pub bucket : (ℕ → ℕ) → FlatTable → ℕ → List HashEntry
bucket hash t key = tuples_of t (probe hash t key)

nothing_selected : {A : Type 0} (xs : List A) → length xs ≡ 0 → xs ≡ []
nothing_selected [] h = refl
nothing_selected (x ∷ xs) h = absurd (omega arith)

chosen :
    (passed : Bool) (base n : ℕ) {b : Bucket}
    → (if passed then (if n == 0 then none else some (record { base = base; len = n })) else none)
      ≡ some b
    → (b.base ≡ base) × (b.len ≡ n) × (0 < n)
chosen passed base n found = (ground arith, ground arith, ground arith)

module _ (hash : ℕ → ℕ) (t : FlatTable) (sized : WellSized t) where
  -- The range that `probe` computes, for a table with the directory of `t'`.
  probe_range :
      (t' : FlatTable) (es : List HashEntry) (key : ℕ)
      → length es < 2 ^ 32
      → Built hash t es t'
      → let s = slot_of hash t key in
        let g = λ (r : ℕ). length (in_slot hash t r es) in
        ((if s == 0 then 0 else get_or t'.directory_offsets (s - 1) 0) ≡ below g s)
        × (u32 (get_or t'.directory_offsets s 0 + 2 ^ 32 - below g s) ≡ g s)
        × (below g s + g s ≤ length es)
  probe_range t' es key few b =
      let s = slot_of hash t key in
      let g = λ (r : ℕ). length (in_slot hash t r es) in
      let home = slot_of-lt hash t key sized in
      let end = b.ends s home in
      let all = below-in_slot hash t t.dir_size (λ k. slot_of-lt hash t k sized) es in
      let within = below-lt g s t.dir_size home in
      (
        elim (Bool-cases (s == 0)) [
          | inl first ↦ let is = ==→eq _ _ first in rw (first, is) (sym (below-zero g))
          | inr later ↦
              let not_first = ==→ne _ _ later in
              let back : s - 1 + 1 ≡ s = omega arith in
              rw later (b.ends (s - 1) (omega arith) ∙ ap (below g) back)
        ],
        omega (arith, end, below-suc g s, all, within, few),
        omega (arith, all, within),
      )

  -- What `probe` returns: nothing if the filter says no or the slot is empty, else the slot's part.
  probe-Built :
      (t' : FlatTable) (es : List HashEntry) (key : ℕ)
      → length es < 2 ^ 32
      → Built hash t es t'
      → let s = slot_of hash t key in
        let g = λ (r : ℕ). length (in_slot hash t r es) in
        probe hash t' key ≡ (
          if maybe_contains (get_or t'.bloom_filters s 0) (make_tag_from_hash (hash key))
          then (if g s == 0 then none else some (record { base = below g s; len = g s }))
          else none)
  unfolding probe
  probe-Built t' es key few b =
      let r = probe_range t' es key few b in rw (b.same_slots key, r.0, r.1)

  -- `probe` gives the whole group of the key's slot, or nothing when there is no such key.
  bucket_cases :
      (t' : FlatTable) (es : List HashEntry) (key : ℕ)
      → length es < 2 ^ 32
      → Built hash t es t'
      → (bucket hash t' key ≡ in_slot hash t (slot_of hash t key) es)
        ⊎ ((bucket hash t' key ≡ []) × (select (λ e. e.key == key) es ≡ []))
  unfolding bucket tuples_of
  bucket_cases t' es key few b =
      let s = slot_of hash t key in
      let group = in_slot hash t s es in
      let is = probe-Built t' es key few b in
      elim (Bool-cases
        (maybe_contains (get_or t'.bloom_filters s 0) (make_tag_from_hash (hash key)))) [
          | inr rejected ↦ inr (rw (is, rejected), ground (arith, b.filters key))
          | inl passed ↦ elim (Bool-cases (length group == 0)) [
            | inl empty ↦
                inl (rw (is, passed, empty) (sym (nothing_selected group (==→eq _ _ empty))))
            | inr full ↦ inl (rw (is, passed, full) (b.groups s (slot_of-lt hash t key sized)))
          ]
        ]

  -- The tuples of a key are in the group of the key's slot.
  same_key :
      (es : List HashEntry) (key : ℕ)
      → select (λ e. e.key == key) (in_slot hash t (slot_of hash t key) es)
        ≡ select (λ e. e.key == key) es
  same_key es key =
      select-select (λ e. e.key == key) (λ e. slot_of hash t e.key == slot_of hash t key) es
        (λ e h. rw (==→eq _ _ h) (==_refl (slot_of hash t key)))

  bucket-filled :
      (es : List HashEntry) (key : ℕ)
      → length es < 2 ^ 32
      → select (λ e. e.key == key) (bucket hash (filled hash es t) key)
        ≡ select (λ e. e.key == key) es
  bucket-filled es key few =
      elim (bucket_cases (filled hash es t) es key few (filled-Built hash t sized es few)) [
        | inl group ↦ rw group (same_key es key)
        | inr (nothing, absent) ↦ rw nothing (sym absent)
      ]

  bucket-emptied : (key : ℕ) → bucket hash (emptied t) key ≡ []
  unfolding bucket tuples_of probe emptied
  bucket-emptied key =
      let s = slot_of hash (emptied t) key in
      let zero_at = λ (i : ℕ). get_or-replicate_self {A = ℕ} (length t.directory_offsets) i 0 in
      rw (zero_at s, zero_at (s - 1)) (ground arith)

  -- The tuples that `probe` points at hold, under the key that was asked for, the entries of the
  -- build that have this key: all of them, no other, in the order in which they were given. This
  -- is so for every hash function, whatever keys share a slot and whatever the filters let through.
  pub bucket-build_from_entries :
      (es : List HashEntry) (key : ℕ)
      → length es < 2 ^ 32
      → select (λ e. e.key == key) (bucket hash (build_from_entries hash es t) key)
        ≡ select (λ e. e.key == key) es
  unfolding build_from_entries
  bucket-build_from_entries [] key few = rw (bucket-emptied key)
  bucket-build_from_entries (e ∷ es) key few = bucket-filled (e ∷ es) key few

  -- The range that `probe` gives is not empty and lies inside the array of tuples, which has one
  -- tuple for each entry.
  pub probe_in_bounds :
      (e : HashEntry) (es : List HashEntry) (key : ℕ) {b : Bucket}
      → length (e ∷ es) < 2 ^ 32
      → probe hash (build_from_entries hash (e ∷ es) t) key ≡ some b
      → (0 < b.len)
        × (b.base + b.len ≤ length (build_from_entries hash (e ∷ es) t).tuples)
        × (length (build_from_entries hash (e ∷ es) t).tuples ≡ length (e ∷ es))
  unfolding build_from_entries
  probe_in_bounds e es key {b} few found =
      let t' = filled hash (e ∷ es) t in
      let made = filled-Built hash t sized (e ∷ es) few in
      let is = probe-Built t' (e ∷ es) key few made in
      let r = probe_range t' (e ∷ es) key few made in
      let s = slot_of hash t key in
      let passed = maybe_contains (get_or t'.bloom_filters s 0) (make_tag_from_hash (hash key)) in
      let c =
        chosen passed (below (λ r. length (in_slot hash t r (e ∷ es))) s)
          (length (in_slot hash t s (e ∷ es))) (sym is ∙ found) in
      (rw c.1 c.2, rw (made.all_tuples, c.0, c.1) r.2, made.all_tuples)

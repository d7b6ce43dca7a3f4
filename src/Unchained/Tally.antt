-- ===== src/Unchained/Tally.antt =====
-- The counting loop: counts of tuples for each directory slot, and filters that answer for all.
use sigmod_runtime_engine.Base.{
  ℕ, suc, ◌+◌, ◌^◌, ◌<◌, bit_or, ◌≡◌, refl, ap, ◌∙◌, ◌⊎◌, inl, inr, true, List, [], ◌∷◌, arith,
  ◌==◌, ==→eq, ==→ne, Bool-cases, length, get_or, set, select, length-set, get_or-set_self,
  get_or-set_ne, select_hit, select_miss, u32,
}
use sigmod_runtime_engine.Bloom.{make_tag_from_hash, maybe_contains}
use sigmod_runtime_engine.Bloom.Laws.{maybe_contains_added, maybe_contains_kept}
use sigmod_runtime_engine.Unchained.{HashEntry, FlatTable}
use sigmod_runtime_engine.Unchained.Phases.{slot_of, tally}

module _ (hash : ℕ → ℕ) (t : FlatTable) where
  -- The tuples of one slot, in their order.
  abbrev pub in_slot : ℕ → List HashEntry → List HashEntry
  in_slot s es = select (λ e. slot_of hash t e.key == s) es

  pub tally_counts :
      (es : List HashEntry) (counts blooms : List ℕ) (s : ℕ)
      → s < length counts
      → get_or counts s 0 + length (in_slot s es) < 2 ^ 32
      → get_or (tally hash t es counts blooms).0 s 0 ≡ get_or counts s 0 + length (in_slot s es)
  unfolding tally
  tally_counts [] counts blooms s h w = omega arith
  tally_counts (e ∷ es) counts blooms s h w =
      let slot = slot_of hash t e.key in
      let counts' = set counts slot (u32 (get_or counts slot 0 + 1)) in
      let blooms' =
        set blooms slot (bit_or (get_or blooms slot 0) (make_tag_from_hash (hash e.key))) in
      let long : s < length counts' =
        rw (length-set counts slot (u32 (get_or counts slot 0 + 1))) h in
      let ih = tally_counts es counts' blooms' s long in
      elim (Bool-cases (slot == s)) [
        | inl here ↦
            let grown : length (in_slot s (e ∷ es)) ≡ suc (length (in_slot s es)) =
              ap length (select_hit (λ e. slot_of hash t e.key == s) e es here) in
            let same = ==→eq _ _ here in
            let value : u32 (get_or counts slot 0 + 1) ≡ get_or counts s 0 + 1 =
              rw same (omega (arith, grown)) in
            let read : get_or counts' s 0 ≡ get_or counts s 0 + 1 =
              rw (value, same) (get_or-set_self counts s _ 0 h) in
            omega (arith, ih (omega (arith, grown, read)), read, grown)
        | inr there ↦
            let kept : length (in_slot s (e ∷ es)) ≡ length (in_slot s es) =
              ap length (select_miss (λ e. slot_of hash t e.key == s) e es there) in
            let read : get_or counts' s 0 ≡ get_or counts s 0 =
              get_or-set_ne counts slot s _ 0 (==→ne _ _ there) in
            omega (arith, ih (omega (arith, kept, read)), read, kept)
      ]

  tally_kept :
      (es : List HashEntry) (counts blooms : List ℕ) (s tag : ℕ)
      → s < length blooms
      → maybe_contains (get_or blooms s 0) tag ≡ true
      → maybe_contains (get_or (tally hash t es counts blooms).1 s 0) tag ≡ true
  unfolding tally
  tally_kept [] counts blooms s tag h had = had
  tally_kept (e ∷ es) counts blooms s tag h had =
      let slot = slot_of hash t e.key in
      let more = make_tag_from_hash (hash e.key) in
      let value = bit_or (get_or blooms slot 0) more in
      let long : s < length (set blooms slot value) = rw (length-set blooms slot value) h in
      tally_kept es (set counts slot (u32 (get_or counts slot 0 + 1))) (set blooms slot value) s tag
        long
        (elim (Bool-cases (slot == s)) [
          | inl here ↦
              let same = ==→eq _ _ here in
              rw (same, get_or-set_self blooms s (bit_or (get_or blooms s 0) more) 0 h)
                (maybe_contains_kept _ tag more had)
          | inr there ↦ rw (get_or-set_ne blooms slot s value 0 (==→ne _ _ there)) had
        ])

  -- A slot's filter answers yes to every key that was counted.
  pub tally_blooms :
      (es : List HashEntry) (counts blooms : List ℕ) (key : ℕ)
      → slot_of hash t key < length blooms
      → (select (λ e. e.key == key) es ≡ [])
        ⊎ (maybe_contains
              (get_or (tally hash t es counts blooms).1 (slot_of hash t key) 0)
              (make_tag_from_hash (hash key))
            ≡ true)
  unfolding tally
  tally_blooms [] counts blooms key h = inl refl
  tally_blooms (e ∷ es) counts blooms key h =
      let slot = slot_of hash t e.key in
      let tag = make_tag_from_hash (hash e.key) in
      let value = bit_or (get_or blooms slot 0) tag in
      let counts' = set counts slot (u32 (get_or counts slot 0 + 1)) in
      let long : slot_of hash t key < length (set blooms slot value) =
        rw (length-set blooms slot value) h in
      elim (Bool-cases (e.key == key)) [
        | inl same ↦
            let is = ==→eq _ _ same in
            let fits : slot < length blooms = rw is h in
            let reads = get_or-set_self blooms slot value 0 fits in
            let answers : maybe_contains (get_or (set blooms slot value) slot 0) tag ≡ true =
              rw reads (maybe_contains_added (get_or blooms slot 0) tag) in
            inr (
              rw (← is) (
                tally_kept es counts' (set blooms slot value) slot tag
                  (rw (length-set blooms slot value) fits) answers))
        | inr other ↦
            rw (select_miss (λ e. e.key == key) e es other)
              (tally_blooms es counts' (set blooms slot value) key long)
      ]

  pub length-tally_counts :
      (es : List HashEntry) (counts blooms : List ℕ)
      → length (tally hash t es counts blooms).0 ≡ length counts
  unfolding tally
  length-tally_counts [] counts blooms = refl
  length-tally_counts (e ∷ es) counts blooms =
      length-tally_counts es _ _ ∙ length-set counts (slot_of hash t e.key) _

  pub length-tally_blooms :
      (es : List HashEntry) (counts blooms : List ℕ)
      → length (tally hash t es counts blooms).1 ≡ length blooms
  unfolding tally
  length-tally_blooms [] counts blooms = refl
  length-tally_blooms (e ∷ es) counts blooms =
      length-tally_blooms es _ _ ∙ length-set blooms (slot_of hash t e.key) _

-- ===== src/Unchained/Built.antt =====
-- What a build from a vector of entries leaves in the table.
use sigmod_runtime_engine.Base.{
  ℕ, ◌+◌, ◌^◌, ◌<◌, ◌≡◌, refl, ◌∙◌, ◌⊎◌, inl, inr, true, List, [], arith, ◌==◌, ==→eq, Bool-cases,
  length, get_or, replicate, select, length-replicate, get_or-replicate,
}
use sigmod_runtime_engine.Bloom.{make_tag_from_hash, maybe_contains}
use sigmod_runtime_engine.Unchained.{HashEntry, no_entry, FlatTable}
use sigmod_runtime_engine.Unchained.Phases.{
  fill, cleared, end_pointers, write_starts, slot_of, tally, filled,
}
use sigmod_runtime_engine.Unchained.Sizing.{WellSized}
use sigmod_runtime_engine.Unchained.Tally.{in_slot, tally_counts, tally_blooms}
use sigmod_runtime_engine.Unchained.Offsets.{
  below, below-zero, below-lt, Summed, end_pointers-Summed, write_starts-below,
}
use sigmod_runtime_engine.Unchained.Place.{slice, place-slice, length-place}
use sigmod_runtime_engine.Unchained.Totals.{slot_of-lt, below-in_slot}

cleared_lem : (n : ℕ) (xs : List ℕ) → cleared n xs ≡ replicate n 0
unfolding cleared
cleared_lem n xs = elim (Bool-cases (length xs == n)) [
  | inl fits ↦ rw (fits, ==→eq _ _ fits)
  | inr other ↦ rw other
]

-- A finished table: what `probe` reads, for the entries `es`. `t` is the table before the build.
pub record Built (hash : ℕ → ℕ) (t : FlatTable) (es : List HashEntry) (t' : FlatTable)
    : Type 0 where
  pub same_slots : (key : ℕ) → slot_of hash t' key ≡ slot_of hash t key
  pub all_tuples : length t'.tuples ≡ length es
  pub ends :
      (s : ℕ)
      → s < t.dir_size
      → get_or t'.directory_offsets s 0 ≡ below (λ r. length (in_slot hash t r es)) (s + 1)
  pub filters :
      (key : ℕ)
      → (select (λ e. e.key == key) es ≡ [])
        ⊎ (maybe_contains
              (get_or t'.bloom_filters (slot_of hash t key) 0)
              (make_tag_from_hash (hash key))
            ≡ true)
  pub groups :
      (s : ℕ)
      → s < t.dir_size
      → slice t'.tuples (below (λ r. length (in_slot hash t r es)) s) (length (in_slot hash t s es))
        ≡ in_slot hash t s es

module _ (hash : ℕ → ℕ) (t : FlatTable) (sized : WellSized t) (es : List HashEntry)
    (few : length es < 2 ^ 32) where
  abbrev tallied : List ℕ × List ℕ
  tallied = tally hash t es (cleared t.dir_size t.counts) (fill t.bloom_filters)

  abbrev summed : List ℕ × ℕ
  summed = end_pointers t.dir_size 0 0 tallied.0 (fill t.directory_offsets)

  abbrev in_each : ℕ → ℕ
  in_each s = length (in_slot hash t s es)

  homed : (k : ℕ) → slot_of hash t k < t.dir_size
  homed k = slot_of-lt hash t k sized

  all_counted : below in_each t.dir_size ≡ length es
  all_counted = below-in_slot hash t t.dir_size homed es

  small : below in_each t.dir_size < 2 ^ 32
  small = rw all_counted few

  counted : (i : ℕ) → i < t.dir_size → get_or tallied.0 i 0 ≡ in_each i
  counted i h =
      let start = cleared_lem t.dir_size t.counts in
      let wide : i < length (cleared t.dir_size t.counts) = rw (start, length-replicate) h in
      let nothing : get_or (cleared t.dir_size t.counts) i 0 ≡ 0 =
        rw start (get_or-replicate t.dir_size i 0 0 h) in
      let bound = below-lt in_each i t.dir_size h in
      omega (
        arith,
        tally_counts hash t es (cleared t.dir_size t.counts) (fill t.bloom_filters) i wide
            (omega (arith, nothing, bound, small)),
        nothing,
      )

  offsets_summed : Summed in_each t.dir_size 0 (fill t.directory_offsets) summed
  offsets_summed = rw (below-zero in_each) at (
      end_pointers-Summed in_each tallied.0 t.dir_size counted small t.dir_size 0
        (fill t.directory_offsets) (omega arith) (length-replicate _ 0 ∙ sized.offsets_length))

  starts :
      (length (write_starts t summed.0) ≡ t.dir_size)
      × ((s : ℕ) → s < t.dir_size → get_or (write_starts t summed.0) s 0 ≡ below in_each s)
  starts =
      write_starts-below in_each tallied.0 t.dir_size counted small summed.0
        (λ s p. offsets_summed.later s (omega arith) p) t refl (omega (arith, homed 0))

  room : length (replicate summed.1 no_entry) ≡ below in_each t.dir_size
  room = length-replicate summed.1 no_entry ∙ offsets_summed.total

  pub filled-Built : Built hash t es (filled hash es t)
  unfolding filled
  filled-Built = record {
    same_slots = λ key. unfold slot_of in refl;
    all_tuples =
        length-place hash t in_each t.dir_size homed small es (write_starts t summed.0)
          (replicate summed.1 no_entry)
        ∙ room
        ∙ all_counted;
    ends = λ s p. offsets_summed.later s (omega arith) p;
    filters = λ key.
        tally_blooms hash t es (cleared t.dir_size t.counts) (fill t.bloom_filters) key
          (rw (length-replicate, sized.bloom_length) (homed key));
    groups = λ s p.
        let e : 0 + in_each s ≡ in_each s = omega arith in
        let placed =
          place-slice hash t in_each t.dir_size homed small es (write_starts t summed.0)
            (replicate summed.1 no_entry) (λ _. 0) starts.0 room
            (λ r q. omega (arith, starts.1 r q)) (λ r q. omega arith) s p in
        unfold slice in rw e at placed;
  }

-- ===== src/Tests/Tables.antt =====
-- The hash table, its filters and its sizes, at concrete inputs.
use sigmod_runtime_engine.Base.{
  ℕ, ◌+◌, ◌*◌, ◌≤◌, ◌<◌, ◌≡◌, refl, ◌⊎◌, true, false, ◌&&◌, some, List, [], ◌∷◌, arith, ◌==◌,
  length, select,
}
use sigmod_runtime_engine.Bloom.{make_tag_from_hash, maybe_contains, popcount}
use sigmod_runtime_engine.Bitmap.{has_bit}
use sigmod_runtime_engine.Bloom.Membership.{chosen, maybe_contains-make_tag_from_hash}
use sigmod_runtime_engine.Bloom.Popcount.{ones, popcount-ones}
use sigmod_runtime_engine.Hashing.{fibonacci32}
use sigmod_runtime_engine.Unchained.{HashEntry, FlatTable, new, reserve, min_dir_size, max_dir_size}
use sigmod_runtime_engine.Unchained.Phases.{
  build_from_entries, probe, filled, cleared, end_pointers, start_pointers, write_starts, slot_of,
  tally, place,
}
use sigmod_runtime_engine.Unchained.Sizing.{WellSized, new-WellSized, reserve-WellSized}
use sigmod_runtime_engine.Unchained.Lookup.{bucket, bucket-build_from_entries, probe_in_bounds}

abbrev entries : List HashEntry
entries =
    record { key = 5; row_id = 0 }
    ∷ record { key = 7; row_id = 1 }
    ∷ record { key = 5; row_id = 2 }
    ∷ []

-- All keys in one slot: the slot is the first, and every tag the same.
abbrev one_slot : ℕ → ℕ
one_slot _ = 0

abbrev two_slots : FlatTable
two_slots = new 1

two_slots-WellSized : WellSized two_slots
two_slots-WellSized = new-WellSized 1 (omega arith)

bucket-build_from_entries_example :
    select
      (λ e. e.key == 5)
      (bucket fibonacci32 (build_from_entries fibonacci32 entries two_slots) 5)
    ≡ select (λ e. e.key == 5) entries
bucket-build_from_entries_example =
    bucket-build_from_entries fibonacci32 two_slots two_slots-WellSized entries 5 (omega arith)

-- A key that is not there: the filter lets it through, and the slot is not empty.
probed :
    probe one_slot (build_from_entries one_slot entries two_slots) 9
    ≡ some (record { base = 0; len = 3 })
unfolding probe build_from_entries filled cleared end_pointers start_pointers write_starts slot_of
    tally place new make_tag_from_hash maybe_contains
probed = refl

probe_in_bounds_example :
    (0 < 3)
    × (0 + 3 ≤ length (build_from_entries one_slot entries two_slots).tuples)
    × (length (build_from_entries one_slot entries two_slots).tuples ≡ 3)
probe_in_bounds_example =
    probe_in_bounds one_slot two_slots two_slots-WellSized _ _ 9 {b = record { base = 0; len = 3 }}
      (omega arith) probed

reserve-WellSized_example :
    (t : FlatTable) × (reserve 100000 (new 10) ≡ some t)
    × WellSized t
    × (min_dir_size ≤ t.dir_size)
    × (t.dir_size ≤ max_dir_size)
    × ((100000 < 8 * t.dir_size + 8) ⊎ (t.dir_size ≡ max_dir_size))
reserve-WellSized_example =
    reserve-WellSized 100000 (new 10) (omega arith) (new-WellSized 10 (omega arith))

popcount-ones_example : popcount 0xf0f1 ≡ some (ones 16 0xf0f1)
popcount-ones_example = popcount-ones 0xf0f1 (omega arith)

maybe_contains-make_tag_from_hash_example :
    maybe_contains 0x8421 (make_tag_from_hash 0xf0a05000) ≡ (
      has_bit 0x8421 (chosen 0xf0a05000 4)
      && (has_bit 0x8421 (chosen 0xf0a05000 12)
          && (has_bit 0x8421 (chosen 0xf0a05000 20) && has_bit 0x8421 (chosen 0xf0a05000 28))))
maybe_contains-make_tag_from_hash_example = maybe_contains-make_tag_from_hash 0x8421 0xf0a05000

-- One of the four bits, that of 10, is not set.
tag_not_contained : maybe_contains 0x8021 (make_tag_from_hash 0xf0a05000) ≡ false
unfolding maybe_contains make_tag_from_hash
tag_not_contained = refl

tag_contained : maybe_contains 0x8421 (make_tag_from_hash 0xf0a05000) ≡ true
unfolding maybe_contains make_tag_from_hash
tag_contained = refl

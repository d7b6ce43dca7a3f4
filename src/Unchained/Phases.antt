-- ===== src/Unchained/Phases.antt =====
-- Building and probing. The loops over the tuples are folds, so that a build from a vector and one
-- from the pages of a column are made of the same phases.
use sigmod_runtime_engine.Base.{
  ℕ, zero, suc, ◌+◌, ◌-◌, ◌^◌, bit_and, bit_or, Option, none, some, List, [], ◌∷◌, ◌==◌,
  if◌then◌else◌, length, get_or, set, replicate, u32, shr,
}
use sigmod_runtime_engine.Bloom.{make_tag_from_hash, maybe_contains}
use sigmod_runtime_engine.Unchained.{HashEntry, no_entry, FlatTable}

-- `std::fill` over a whole vector.
abbrev pub fill : List ℕ → List ℕ
fill xs = replicate (length xs) 0

-- `if (xs.size() != dir_size_) xs.assign(dir_size_, 0); else std::fill(…)`.
unfoldable pub cleared : ℕ → List ℕ → List ℕ
cleared dir_size xs = if length xs == dir_size then fill xs else replicate dir_size 0

-- Prefix sums: the loop at directory slot `i`, with `rounds` slots left. `cumulative` is 32 bits.
unfoldable pub end_pointers : ℕ → ℕ → ℕ → List ℕ → List ℕ → List ℕ × ℕ
end_pointers zero i cumulative counts offsets = (offsets, cumulative)
end_pointers (suc rounds) i cumulative counts offsets =
    let sum = u32 (cumulative + get_or counts i 0) in
    end_pointers rounds (i + 1) sum counts (set offsets i sum)

-- `for (i = 1; i < dir_size_; ++i) write_ptrs_[i] = directory_offsets_[i - 1]`, likewise.
unfoldable pub start_pointers : ℕ → ℕ → List ℕ → List ℕ → List ℕ
start_pointers zero i offsets ptrs = ptrs
start_pointers (suc rounds) i offsets ptrs =
    start_pointers rounds (i + 1) offsets (set ptrs i (get_or offsets (i - 1) 0))

-- What `probe` returns when it is not the null pointer: the index of the first tuple, and `len`.
pub record Bucket : Type 0 where
  pub base : ℕ
  pub len : ℕ

-- `size`.
unfoldable pub size : FlatTable → ℕ
size t = length t.tuples

-- What a build does when there is nothing to build from.
unfoldable pub emptied : FlatTable → FlatTable
emptied t = record t {
  directory_offsets = fill t.directory_offsets;
  bloom_filters = fill t.bloom_filters;
  tuples = [];
}

-- `write_ptrs_` before the copying loop: the first slot starts at 0, each other where the one
-- before it ends.
unfoldable pub write_starts : FlatTable → List ℕ → List ℕ
write_starts t offsets =
    let ptrs = if length t.write_ptrs == t.dir_size then t.write_ptrs else replicate t.dir_size 0 in
    start_pointers (t.dir_size - 1) 1 offsets (set ptrs 0 0)

module _ (hash : ℕ → ℕ) where
  -- The directory slot of a key.
  unfoldable pub slot_of : FlatTable → ℕ → ℕ
  slot_of t key = bit_and (shr (hash key) t.shift) t.dir_mask

  -- The counting loop, over `counts_` and `bloom_filters_`.
  unfoldable pub tally : FlatTable → List HashEntry → List ℕ → List ℕ → List ℕ × List ℕ
  tally t [] counts blooms = (counts, blooms)
  tally t (e ∷ es) counts blooms =
      let h = hash e.key in
      let slot = slot_of t e.key in
      tally t es (set counts slot (u32 (get_or counts slot 0 + 1)))
        (set blooms slot (bit_or (get_or blooms slot 0) (make_tag_from_hash h)))

  -- The copying loop, over `write_ptrs_` and `tuples_`.
  unfoldable pub place :
      FlatTable → List HashEntry → List ℕ → List HashEntry → List ℕ × List HashEntry
  place t [] ptrs tuples = (ptrs, tuples)
  place t (e ∷ es) ptrs tuples =
      let slot = slot_of t e.key in
      let pos = get_or ptrs slot 0 in place t es (set ptrs slot (u32 (pos + 1))) (set tuples pos e)

  -- `build_from_entries` when there are entries: all phases.
  unfoldable pub filled : List HashEntry → FlatTable → FlatTable
  filled es t =
      let (counts, blooms) = tally t es (cleared t.dir_size t.counts) (fill t.bloom_filters) in
      let (offsets, cumulative) = end_pointers t.dir_size 0 0 counts (fill t.directory_offsets) in
      let (ptrs, tuples) = place t es (write_starts t offsets) (replicate cumulative no_entry) in
      record t {
        tuples = tuples;
        directory_offsets = offsets;
        bloom_filters = blooms;
        counts = counts;
        write_ptrs = ptrs;
      }

  -- `build_from_entries`.
  unfoldable pub build_from_entries : List HashEntry → FlatTable → FlatTable
  build_from_entries [] t = emptied t
  build_from_entries (e ∷ es) t = filled (e ∷ es) t

  -- `probe`; `none` is the null pointer, with `len` 0.
  unfoldable pub probe : FlatTable → ℕ → Option Bucket
  probe t key =
      let h = hash key in
      let slot = slot_of t key in
      if maybe_contains (get_or t.bloom_filters slot 0) (make_tag_from_hash h)
      then (let begin = if slot == 0 then 0 else get_or t.directory_offsets (slot - 1) 0 in
          let end = get_or t.directory_offsets slot 0 in
          let len = u32 (end + 2 ^ 32 - begin) in
          if len == 0 then none else some (record { base = begin; len = len }))
      else none

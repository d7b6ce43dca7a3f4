-- ===== src/Join/Matches.antt =====
-- One probe of a table that was built from the entries of a key column finds the rows of the key.

use sigmod_runtime_engine.Base.{
  ℕ, zero, suc, ◌+◌, ◌^◌, ◌<◌, ◌≡◌, refl, ap, ◌∙◌, inl, inr, Bool, Option, none, some, List, [],
  ◌∷◌, map, arith, ◌==◌, Bool-cases, length, get_or, select, select_hit, select_miss, u32,
}
use sigmod_runtime_engine.Unchained.{HashEntry, no_entry, FlatTable}
use sigmod_runtime_engine.Unchained.Phases.{Bucket, build_from_entries, probe}
use sigmod_runtime_engine.Unchained.Sizing.{WellSized}
use sigmod_runtime_engine.Unchained.Place.{slice}
use sigmod_runtime_engine.Unchained.Lookup.{tuples_of, bucket, bucket-build_from_entries}
use sigmod_runtime_engine.Join.{OutPair, out_pair, scan_bucket, bucket_pairs, probe_key}
use sigmod_runtime_engine.Join.Keys.{
  Keys, joined, row_join, key_entries, length-key_entries, row_ids-key_entries,
}

-- The pairs of the entries that have the key.
abbrev pairs : Bool → ℕ → ℕ → List HashEntry → List OutPair
pairs build_left key j es =
    map (λ e. out_pair build_left e.row_id j) (select (λ e. e.key == key) es)

scan_bucket_lem :
    (build_left : Bool) (tuples : List HashEntry) (base len key j : ℕ)
    → scan_bucket build_left tuples base len key j ≡ pairs build_left key j (slice tuples base len)
unfolding scan_bucket slice
scan_bucket_lem build_left tuples base zero key j = refl
scan_bucket_lem build_left tuples base (suc len) key j =
    let e = get_or tuples base no_entry in
    let p = λ (x : HashEntry). x.key == key in
    let rest = slice tuples (base + 1) len in
    let ih = scan_bucket_lem build_left tuples (base + 1) len key j in
    elim (Bool-cases (e.key == key)) [
      | inl same ↦
          rw (same, select_hit p e rest same) (ap (λ r. out_pair build_left e.row_id j ∷ r) ih)
      | inr other ↦ rw (other, select_miss p e rest other) ih
    ]

bucket_pairs_lem :
    (hash : ℕ → ℕ) (t : FlatTable) (build_left : Bool) (key j : ℕ) (found : Option Bucket)
    → bucket_pairs hash t build_left key j found ≡ pairs build_left key j (tuples_of t found)
unfolding bucket_pairs tuples_of
bucket_pairs_lem hash t build_left key j none = refl
bucket_pairs_lem hash t build_left key j (some b) =
    scan_bucket_lem build_left t.tuples b.base b.len key j

map_pairs :
    (build_left : Bool) (j : ℕ) (es : List HashEntry)
    → j < 2 ^ 32
    → map (λ e. out_pair build_left e.row_id j) es
      ≡ map (λ i. joined build_left i j) (map (λ e. e.row_id) es)
unfolding out_pair joined
map_pairs build_left j [] h = refl
map_pairs build_left j (e ∷ es) h =
    let fits : u32 j ≡ j = omega arith in rw (fits, map_pairs build_left j es h)

pub probe_key-row_join :
    (hash : ℕ → ℕ) (t : FlatTable) (build_left : Bool) (ks : Keys) (key j : ℕ)
    → WellSized t
    → length ks < 2 ^ 32
    → j < 2 ^ 32
    → probe_key hash (build_from_entries hash (key_entries 0 ks) t) build_left key j
      ≡ row_join build_left ks j (some key)
unfolding probe_key row_join bucket
probe_key-row_join hash t build_left ks key j sized few row =
    let es = key_entries 0 ks in
    let t' = build_from_entries hash es t in
    let fits : length es < 2 ^ 32 = omega (arith, length-key_entries 0 ks) in
    bucket_pairs_lem hash t' build_left key j (probe hash t' key)
    ∙ ap (map (λ e. out_pair build_left e.row_id j))
        (bucket-build_from_entries hash t sized es key fits)
    ∙ map_pairs build_left j (select (λ e. e.key == key) es) row
    ∙ ap (map (λ i. joined build_left i j)) (row_ids-key_entries 0 ks key (omega arith))

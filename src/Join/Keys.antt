-- ===== src/Join/Keys.antt =====
-- What a key column says, row by row, and the join that its rows stand for.

use sigmod_runtime_engine.Base.{
  ℕ, ◌+◌, ◌^◌, ◌≤◌, ◌<◌, ◌≡◌, refl, ap, inl, inr, Bool, Option, none, some, List, [], ◌∷◌, ◌++◌,
  map, arith, ◌==◌, if◌then◌else◌, Bool-cases, length, select, select_hit, select_miss, u32,
}
use sigmod_runtime_engine.Values.{is_null, as_i32}
use sigmod_runtime_engine.Unchained.{HashEntry}
use sigmod_runtime_engine.Join.{OutPair}

-- `none` is NULL.
abbrev pub Keys : Type 0
Keys = List (Option ℕ)

unfoldable pub key_of : ℕ → Option ℕ
key_of v = if is_null v then none else some (as_i32 v)

-- The rows from `row` on that have a key.
unfoldable pub matching_rows : ℕ → Keys → ℕ → List ℕ
matching_rows row [] key = []
matching_rows row (none ∷ ks) key = matching_rows (row + 1) ks key
matching_rows row (some k ∷ ks) key =
    let rest = matching_rows (row + 1) ks key in if k == key then row ∷ rest else rest

unfoldable pub joined : Bool → ℕ → ℕ → OutPair
joined build_left build_row probe_row =
    if build_left
    then record { lidx = build_row; ridx = probe_row }
    else record { lidx = probe_row; ridx = build_row }

-- The pairs of one probe row: with each build row of the same key. NULL equals nothing.
unfoldable pub row_join : Bool → Keys → ℕ → Option ℕ → List OutPair
row_join build_left build_keys j none = []
row_join build_left build_keys j (some key) =
    map (λ i. joined build_left i j) (matching_rows 0 build_keys key)

-- The nested-loop join, from probe row `j` on.
unfoldable pub nested_loop_join : Bool → Keys → ℕ → Keys → List OutPair
nested_loop_join build_left build_keys j [] = []
nested_loop_join build_left build_keys j (k ∷ ks) =
    row_join build_left build_keys j k ++ nested_loop_join build_left build_keys (j + 1) ks

-- The entries of the rows that have a key.
unfoldable pub key_entries : ℕ → Keys → List HashEntry
key_entries row [] = []
key_entries row (none ∷ ks) = key_entries (row + 1) ks
key_entries row (some k ∷ ks) = record { key = k; row_id = u32 row } ∷ key_entries (row + 1) ks

pub length-key_entries : (row : ℕ) (ks : Keys) → length (key_entries row ks) ≤ length ks
unfolding key_entries
length-key_entries row [] = omega arith
length-key_entries row (none ∷ ks) = omega (arith, length-key_entries (row + 1) ks)
length-key_entries row (some k ∷ ks) = omega (arith, length-key_entries (row + 1) ks)

-- Selecting the entries of a key is listing the matching rows.
pub row_ids-key_entries :
    (row : ℕ) (ks : Keys) (key : ℕ)
    → row + length ks < 2 ^ 32
    → map (λ e. e.row_id) (select (λ e. e.key == key) (key_entries row ks))
      ≡ matching_rows row ks key
unfolding key_entries matching_rows
row_ids-key_entries row [] key h = refl
row_ids-key_entries row (none ∷ ks) key h = row_ids-key_entries (row + 1) ks key (omega arith)
row_ids-key_entries row (some k ∷ ks) key h =
    let rest = row_ids-key_entries (row + 1) ks key (omega arith) in
    let fits : u32 row ≡ row = omega arith in
    let e : HashEntry = record { key = k; row_id = u32 row } in
    elim (Bool-cases (k == key)) [
      | inl same ↦
          rw (select_hit (λ e. e.key == key) e (key_entries (row + 1) ks) same, same, fits)
            (ap (λ r. row ∷ r) rest)
      | inr other ↦
          rw (select_miss (λ e. e.key == key) e (key_entries (row + 1) ks) other, other) rest
    ]

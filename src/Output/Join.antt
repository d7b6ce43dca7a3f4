-- ===== src/Output/Join.antt =====
-- The join from its inputs to its output columns.
use mathlib.Core.Option
use mathlib.Core.Bool.{Bool-set}
use mathlib.Core.Logic.Or
use mathlib.Core.List.{
  Perm, Mem, not-mem-nil, eq-or-mem_of_mem-cons, mem-cons_self, mem-cons_of_mem,
}
use mathlib.Core.List.Perm
use sigmod_runtime_engine.Base.{
  ℕ, ◌+◌, ◌^◌, ◌≤◌, ◌<◌, max, ◌≡◌, refl, sym, inl, inr, Bool, true, false, ◌&&◌, Option, none, some,
  List, [], ◌∷◌, ◌++◌, map, arith, ltb, ◌==◌, if◌then◌else◌, lt→ltb, Bool-cases, length, get_or,
  length-map,
}
use sigmod_runtime_engine.Pages.{DataType}
use sigmod_runtime_engine.Columnar.{ColumnT}
use sigmod_runtime_engine.WorkStealing.Fair.{turns}
use sigmod_runtime_engine.Join.{OutPair, matched_pairs}
use sigmod_runtime_engine.Join.Keys.{Keys, joined, matching_rows, row_join, nested_loop_join}
use sigmod_runtime_engine.Join.Columns.{keys_of, Readable}
use sigmod_runtime_engine.Join.Result.{matched_pairs-nested_loop_join, length-keys_of}
use sigmod_runtime_engine.Output.{
  ColumnBuffer, new, OutputMap, output_map, Inputs, no_column, materialize, run_int32,
}
use sigmod_runtime_engine.Output.Filling.{RowCells, AllCells}
use sigmod_runtime_engine.Output.Table.{Filled, materialize-Filled}

-- Whether all elements pass a test.
every : {A : Type 0} → (A → Bool) → List A → Bool
every p [] = true
every p (x ∷ xs) = p x && every p xs

every-append :
    {A : Type 0} (p : A → Bool) (xs ys : List A)
    → every p xs ≡ true
    → every p ys ≡ true
    → every p (xs ++ ys) ≡ true
unfolding every
every-append p [] ys h k = k
every-append p (x ∷ xs) ys h k = elim (Bool-cases (p x)) [
  | inl good ↦ rw good (every-append p xs ys (rw good at h) k)
  | inr bad ↦ let clash : false ≡ true = rw bad at h in absurd cc
]

every-Mem :
    {A : Type 0} (p : A → Bool) (xs : List A) (x : A) → every p xs ≡ true → Mem x xs → p x ≡ true
unfolding every
every-Mem p [] x h m = absurd (not-mem-nil m)
every-Mem p (y ∷ ys) x h m = elim (Bool-cases (p y)) [
  | inr bad ↦ let clash : false ≡ true = rw bad at h in absurd cc
  | inl good ↦
      Or.elim (Bool-set (p x) true) (eq-or-mem_of_mem-cons m) (λ e. rw e good)
        (λ n. every-Mem p ys x (rw good at h) n)
]

-- Both rows of a pair exist, with `nb` rows on the build side and `np` on the probe side.
in_range : Bool → ℕ → ℕ → OutPair → Bool
in_range build_left nb np op =
    if build_left then ltb op.lidx nb && ltb op.ridx np else ltb op.lidx np && ltb op.ridx nb

in_range_lem :
    (build_left : Bool) (nb np : ℕ) (op : OutPair)
    → in_range build_left nb np op ≡ true
    → (op.lidx < (if build_left then nb else np)) × (op.ridx < (if build_left then np else nb))
unfolding in_range
in_range_lem true nb np op h = (ground arith, ground arith)
in_range_lem false nb np op h = (ground arith, ground arith)

every-matching_rows :
    (ks : Keys) (row key n : ℕ)
    → row + length ks ≤ n
    → every (λ i. ltb i n) (matching_rows row ks key) ≡ true
unfolding every matching_rows
every-matching_rows [] row key n h = refl
every-matching_rows (none ∷ ks) row key n h = every-matching_rows ks (row + 1) key n (omega arith)
every-matching_rows (some k ∷ ks) row key n h =
    let rest = every-matching_rows ks (row + 1) key n (omega arith) in
    let inside = lt→ltb row n (omega arith) in
    elim (Bool-cases (k == key)) [ inl same ↦ rw (same, inside) rest | inr other ↦ rw other rest ]

every-joined :
    (build_left : Bool) (rows : List ℕ) (j nb np : ℕ)
    → j < np
    → every (λ i. ltb i nb) rows ≡ true
    → every (in_range build_left nb np) (map (λ i. joined build_left i j) rows) ≡ true
unfolding every in_range joined
every-joined build_left [] j nb np h all = refl
every-joined true (i ∷ rows) j nb np h all = elim (Bool-cases (ltb i nb)) [
  | inl inside ↦ rw (inside, lt→ltb j np h) (every-joined true rows j nb np h (rw inside at all))
  | inr outside ↦ let clash : false ≡ true = rw outside at all in absurd cc
]
every-joined false (i ∷ rows) j nb np h all = elim (Bool-cases (ltb i nb)) [
  | inl inside ↦ rw (inside, lt→ltb j np h) (every-joined false rows j nb np h (rw inside at all))
  | inr outside ↦ let clash : false ≡ true = rw outside at all in absurd cc
]

every-nested_loop_join :
    (build_left : Bool) (ks pk : Keys) (j nb np : ℕ)
    → length ks ≤ nb
    → j + length pk ≤ np
    → every (in_range build_left nb np) (nested_loop_join build_left ks j pk) ≡ true
unfolding nested_loop_join row_join
every-nested_loop_join build_left ks [] j nb np hb hp = unfold every in refl
every-nested_loop_join build_left ks (none ∷ pk) j nb np hb hp =
    every-nested_loop_join build_left ks pk (j + 1) nb np hb (omega arith)
every-nested_loop_join build_left ks (some key ∷ pk) j nb np hb hp =
    every-append (in_range build_left nb np)
      (map (λ i. joined build_left i j) (matching_rows 0 ks key))
      (nested_loop_join build_left ks (j + 1) pk)
      (every-joined build_left (matching_rows 0 ks key) j nb np (omega arith)
        (every-matching_rows ks 0 key nb (omega arith)))
      (every-nested_loop_join build_left ks pk (j + 1) nb np hb (omega arith))

AllCells-Mem :
    (s : Inputs) (ms : List OutputMap) (pairs : List OutPair)
    → ((op : OutPair) → Mem op pairs → RowCells s ms op)
    → AllCells s ms pairs
unfolding AllCells
AllCells-Mem s ms [] h = tt
AllCells-Mem s ms (op ∷ ops) h =
    (h op mem-cons_self, AllCells-Mem s ms ops (λ x m. h x (mem-cons_of_mem op m)))

-- A result whose rows are the pairs of a join, in some order.
abbrev pub Holds : Inputs → List OutputMap → List OutPair → Option ColumnBuffer → Type 0
Holds s ms expected result =
    (out : List OutPair) × (results : ColumnBuffer) × (result ≡ some results)
    × Perm out expected
    × (results.num_rows ≡ length out)
    × Filled s out ms results.columns

module _ (hash : ℕ → ℕ) (nthreads : ℕ) (threads : 0 < nthreads) (bounded : nthreads < 2 ^ 20)
    (schedule : List ℕ) (s : Inputs) (ms : List OutputMap) (types : List DataType) where
  joined-Holds :
      (build_left : Bool) (bc : ColumnT) (bn : ℕ) (pc : ColumnT) (pn : ℕ)
      → Readable bc bn
      → Readable pc pn
      → bn < 2 ^ 32
      → pn < 2 ^ 32
      → ((t : ℕ) → t < nthreads → pn < turns t schedule)
      → ((op : OutPair) → in_range build_left bn pn op ≡ true → RowCells s ms op)
      → Holds s ms (nested_loop_join build_left (keys_of bc bn) 0 (keys_of pc pn)) (
          Option.bind
            (matched_pairs hash build_left bc bn pc pn nthreads schedule)
            (λ pairs. materialize s ms pairs (record (new (length ms) 0) { types = types })))
  unfolding Option.bind
  joined-Holds build_left bc bn pc pn bok pok bfew pfew fair cells =
      let (out, found, same) =
        matched_pairs-nested_loop_join hash build_left bc bn pc pn nthreads bok pok bfew pfew
          threads bounded schedule fair in
      let expected = nested_loop_join build_left (keys_of bc bn) 0 (keys_of pc pn) in
      let ranged =
        every-nested_loop_join build_left (keys_of bc bn) (keys_of pc pn) 0 bn pn
          (omega (arith, length-keys_of bc bn bok)) (omega (arith, length-keys_of pc pn pok)) in
      let (results, made, rows, filled) = materialize-Filled s ms out types (
        AllCells-Mem s ms out (λ op m.
          cells op (
            every-Mem (in_range build_left bn pn) expected op ranged ((Perm.mem_iff same).0 m)))) in
      (out, results, rw found made, same, rows, filled)

-- The nested-loop join of the two key columns.
unfoldable pub key_join : Bool → ColumnT → ℕ → ColumnT → ℕ → List OutPair
key_join true left left_rows right right_rows =
    nested_loop_join true (keys_of left left_rows) 0 (keys_of right right_rows)
key_join false left left_rows right right_rows =
    nested_loop_join false (keys_of right right_rows) 0 (keys_of left left_rows)

-- The columns of the inputs, and where the output columns come from.
abbrev pub inputs_of : ColumnBuffer → ColumnBuffer → Inputs
inputs_of left right = record { left = left.columns; right = right.columns }

abbrev pub out_map : ColumnBuffer → List (ℕ × DataType) → List OutputMap
out_map left output_attrs = map (λ a. output_map (length left.columns) a.0) output_attrs

module _ (hash : ℕ → ℕ) (left right : ColumnBuffer) (left_col right_col : ℕ)
    (output_attrs : List (ℕ × DataType)) (types : List DataType) (nthreads : ℕ)
    (schedule : List ℕ) where
  -- Two inputs of fewer than 2^32 rows are joined by fewer than 2^20 threads, of which each has more
  -- turns than either side has rows. If the key columns are readable, and the columns that are put
  -- out have all rows of their input, then the join ends, and there is a list of pairs, which is
  -- the nested-loop join of the key columns up to order, such that the result has a row for each
  -- pair, in this order, with the words that the inputs have in the rows of the pair.
  pub run_int32-Holds :
      (build_left : Bool)
      → left.num_rows < 2 ^ 32
      → right.num_rows < 2 ^ 32
      → 0 < nthreads
      → nthreads < 2 ^ 20
      → Readable (get_or left.columns left_col no_column) left.num_rows
      → Readable (get_or right.columns right_col no_column) right.num_rows
      → ((t : ℕ) → t < nthreads → max left.num_rows right.num_rows < turns t schedule)
      → ((op : OutPair)
          → op.lidx < left.num_rows
          → op.ridx < right.num_rows
          → RowCells (inputs_of left right) (out_map left output_attrs) op)
      → Holds
          (inputs_of left right)
          (out_map left output_attrs)
          (key_join build_left
            (get_or left.columns left_col no_column)
            left.num_rows
            (get_or right.columns right_col no_column)
            right.num_rows)
          (run_int32 hash build_left left right left_col right_col output_attrs nthreads schedule
            (record (new (length output_attrs) 0) { types = types }))
  unfolding run_int32 key_join
  run_int32-Holds true lfew rfew threads bounded lok rok fair cells =
      rw (sym (length-map (λ a. output_map (length left.columns) a.0) output_attrs)) (
        joined-Holds hash nthreads threads bounded schedule (inputs_of left right)
          (out_map left output_attrs) types true (get_or left.columns left_col no_column)
          left.num_rows (get_or right.columns right_col no_column) right.num_rows lok rok lfew rfew
          (λ t less. omega (arith, fair t less))
          (λ op h. cells op (in_range_lem true _ _ op h).0 (in_range_lem true _ _ op h).1))
  run_int32-Holds false lfew rfew threads bounded lok rok fair cells =
      rw (sym (length-map (λ a. output_map (length left.columns) a.0) output_attrs)) (
        joined-Holds hash nthreads threads bounded schedule (inputs_of left right)
          (out_map left output_attrs) types false (get_or right.columns right_col no_column)
          right.num_rows (get_or left.columns left_col no_column) left.num_rows rok lok rfew lfew
          (λ t less. omega (arith, fair t less))
          (λ op h. cells op (in_range_lem false _ _ op h).0 (in_range_lem false _ _ op h).1))

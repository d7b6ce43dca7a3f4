-- ===== src/Join/Result.antt =====
-- The whole join: build, probe by several threads, and what they have found once they are joined.
use mathlib.Core.Option
use mathlib.Core.Path.{ap₂}
use mathlib.Core.List.{Perm}
use mathlib.Core.List.Perm
use native.Mathlib.Nat.{mul-le-mul, div-le_self}
use sigmod_runtime_engine.Base.{
  ℕ, suc, ◌+◌, ◌*◌, ◌/◌, ◌^◌, ◌≤◌, ◌<◌, max, ◌≡◌, refl, sym, ap, ◌∙◌, inl, inr, Bool, false, Option,
  none, some, List, [], ◌∷◌, ◌++◌, arith, ◌==◌, ne→==, Bool-cases, length, get_or, u64,
}
use sigmod_runtime_engine.Pages.{Column}
use sigmod_runtime_engine.Unchained.{FlatTable}
use sigmod_runtime_engine.Columnar.{ColumnT}
use sigmod_runtime_engine.Columnar.Source.{all_values}
use sigmod_runtime_engine.WorkStealing.{
  WorkStealingConfig, get_block_size, WorkStealingCoordinator, start, run, joined_output,
}
use sigmod_runtime_engine.WorkStealing
use sigmod_runtime_engine.WorkStealing.Rows.{for_rows}
use sigmod_runtime_engine.WorkStealing.Fair.{turns}
use sigmod_runtime_engine.WorkStealing.Joining.{joined_output-rows}
use sigmod_runtime_engine.Join.{
  OutPair, paged_source, probe_block, probe_phase, joined_pairs, matched_pairs,
}
use sigmod_runtime_engine.Join.Keys.{Keys, row_join, nested_loop_join}
use sigmod_runtime_engine.Join.Columns.{
  keys_from, keys_of, ReadableFrom, Readable, length-copied_keys, length-present, length-all_values,
}
use sigmod_runtime_engine.Join.Build.{Serves, build-Builds}
use sigmod_runtime_engine.Join.Blocks.{row_pairs, works}

-- The settings of the probe phase.
abbrev probe_config : ℕ → ℕ → WorkStealingConfig
probe_config probe_n nthreads = record {
  total_work = probe_n;
  num_threads = nthreads;
  min_block_size = 256;
  blocks_per_thread = 16;
}

-- With fewer than 2 ^ 20 threads and 2 ^ 32 rows, the counter is far from its end.
coordinator_room :
    (probe_n nthreads : ℕ)
    → probe_n < 2 ^ 32
    → 0 < nthreads
    → nthreads < 2 ^ 20
    → (c : WorkStealingCoordinator) × (WorkStealing.new (probe_config probe_n nthreads) ≡ some c)
      × (probe_n + (nthreads + 2) * c.block_size < 2 ^ 64)
unfolding WorkStealing.new get_block_size
coordinator_room probe_n nthreads few threads bounded = elim (Bool-cases (probe_n == 0)) [
  | inl empty ↦
      (record { total_work = probe_n; block_size = 0; work_counter = 0 }, rw empty, omega arith)
  | inr rows ↦
      let some_threads : (nthreads == 0) ≡ false = ne→== _ _ (λ e. omega (arith, e)) in
      let divisor : u64 (nthreads * 16) ≡ nthreads * 16 = omega arith in
      let positive : (nthreads * 16 == 0) ≡ false = ne→== _ _ (λ e. omega (arith, e)) in
      let block : ℕ = max 256 (probe_n / (nthreads * 16)) in
      let small : block ≤ 2 ^ 33 = omega (arith, div-le_self probe_n (nthreads * 16)) in
      let wide : nthreads + 2 ≤ 2 ^ 20 + 2 = omega arith in
      let product : (nthreads + 2) * block ≤ (2 ^ 20 + 2) * 2 ^ 33 = mul-le-mul wide small in
      (
        record { total_work = probe_n; block_size = block; work_counter = 0 },
        rw (rows, some_threads, divisor, positive),
        omega (arith, product),
      )
]

nested_loop_rows :
    (f : ℕ → List OutPair) (build_left : Bool) (ks pk : Keys) (j : ℕ)
    → ((k : ℕ) → k < length pk → f (j + k) ≡ row_join build_left ks (j + k) (get_or pk k none))
    → for_rows f j (length pk) ≡ nested_loop_join build_left ks j pk
unfolding for_rows nested_loop_join
nested_loop_rows f build_left ks [] j h = refl
nested_loop_rows f build_left ks (k ∷ pk) j h =
    let e : j + 0 ≡ j = omega arith in
    let head : f j ≡ row_join build_left ks j k = rw e at (h 0 (omega arith)) in
    ap₂ ◌++◌ head (
      nested_loop_rows f build_left ks pk (j + 1)
        (λ i less. let s : j + 1 + i ≡ j + suc i = omega arith in rw s (h (suc i) (omega arith))))

nothing_joined :
    (build_left : Bool) (ks pk : Keys) (j : ℕ)
    → ((i : ℕ) (k : Option ℕ) → row_join build_left ks i k ≡ [])
    → nested_loop_join build_left ks j pk ≡ []
unfolding nested_loop_join
nothing_joined build_left ks [] j h = refl
nothing_joined build_left ks (k ∷ pk) j h = rw (h j k) (nothing_joined build_left ks pk (j + 1) h)

length-keys_from :
    (c : ColumnT) (n : ℕ) (o : Option Column) → ReadableFrom c n o → length (keys_from c n o) ≡ n
unfolding ReadableFrom keys_from
length-keys_from c n none h = length-copied_keys c 0 n
length-keys_from c n (some column) h =
    length-present (all_values column.pages c.page_offsets)
    ∙ length-all_values column.pages c.page_offsets h.0
    ∙ sym h.1

pub length-keys_of : (c : ColumnT) (n : ℕ) → Readable c n → length (keys_of c n) ≡ n
unfolding Readable keys_of
length-keys_of c n h = length-keys_from c n (paged_source c) h

module _ (hash : ℕ → ℕ) (build_left : Bool) (build_col : ColumnT) (build_n : ℕ)
    (probe_col : ColumnT) (probe_n nthreads : ℕ) (build_ok : Readable build_col build_n)
    (probe_ok : Readable probe_col probe_n) (build_few : build_n < 2 ^ 32)
    (probe_few : probe_n < 2 ^ 32) (threads : 0 < nthreads) (bounded : nthreads < 2 ^ 20) where
  -- The join of the keys of both sides.
  abbrev expected : List OutPair
  expected = nested_loop_join build_left (keys_of build_col build_n) 0 (keys_of probe_col probe_n)

  rows_expected :
      for_rows
        (row_pairs build_left (keys_of build_col build_n) (keys_of probe_col probe_n))
        0
        probe_n
      ≡ expected
  unfolding row_pairs
  rows_expected =
      let many = length-keys_of probe_col probe_n probe_ok in
      let pairs = row_pairs build_left (keys_of build_col build_n) (keys_of probe_col probe_n) in
      ap (for_rows pairs 0) (sym many)
      ∙ nested_loop_rows pairs build_left (keys_of build_col build_n) (keys_of probe_col probe_n) 0
          (λ k less. let e : 0 + k ≡ k = omega arith in rw e refl)

  -- Every thread has more turns than there are probe rows.
  abbrev Fair : List ℕ → Type 0
  Fair schedule = (t : ℕ) → t < nthreads → probe_n < turns t schedule

  probed :
      (schedule : List ℕ) (t : FlatTable)
      → Fair schedule
      → Serves hash build_left (keys_of build_col build_n) t
      → (out : List OutPair) × (joined_pairs hash build_left probe_col probe_n nthreads schedule
            (some t)
          ≡ some out)
        × Perm out expected
  unfolding joined_pairs probe_phase Option.bind
  probed schedule t fair serves =
      let ks = keys_of build_col build_n in
      let (c, made, room) = coordinator_room probe_n nthreads probe_few threads bounded in
      let (out, is, same) =
        joined_output-rows (row_pairs build_left ks (keys_of probe_col probe_n))
          (λ begin end. Option.get_or (probe_block hash t build_left probe_col begin end) [])
          (probe_config probe_n nthreads) c made
          (λ b e order inside.
            works hash build_left ks t serves probe_col probe_n probe_few b e probe_ok order inside)
          room threads (omega arith) schedule fair in
      (out, rw made is, rw (sym rows_expected) same)

  -- Two key columns of fewer than 2^32 rows, each materialised or zero-copy with offsets that count
  -- its rows, are joined by fewer than 2^20 threads: when each thread has had enough turns, in any
  -- order, the join has ended, and the pairs it has found are those of the nested-loop join of the
  -- keys, each as often as there, in some order.
  pub matched_pairs-nested_loop_join :
      (schedule : List ℕ)
      → ((t : ℕ) → t < nthreads → probe_n < turns t schedule)
      → (out : List OutPair) × (matched_pairs hash build_left build_col build_n probe_col probe_n
            nthreads schedule
          ≡ some out)
        × Perm out
            (nested_loop_join build_left (keys_of build_col build_n) 0 (keys_of probe_col probe_n))
  unfolding matched_pairs Option.bind
  matched_pairs-nested_loop_join schedule fair =
      elim (build-Builds hash build_left build_col build_n build_few build_ok) [
        | inl (nothing, empty) ↦ (
          [],
          rw nothing (unfold joined_pairs in refl),
          rw
              (nothing_joined build_left (keys_of build_col build_n) (keys_of probe_col probe_n) 0
                empty)
              (Perm.refl []),
        )
        | inr (t, built, serves) ↦
            let (out, is, same) = probed schedule t fair serves in (out, rw built is, same)
      ]

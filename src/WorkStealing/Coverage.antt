-- ===== src/WorkStealing/Coverage.antt =====
-- Whole runs of the probe threads: every row is probed exactly once, in a bounded number of rounds.
use mathlib.Core.List.{flatten, Perm, append-nil}
use mathlib.Core.List.Perm
use sigmod_runtime_engine.Base.{
  ℕ, ◌+◌, ◌-◌, ◌*◌, ◌^◌, ◌≤◌, ◌<◌, ◌≡◌, refl, inl, inr, true, false, some, List, [], ◌∷◌, arith,
  ltb, ltb→lt, ltb→le, Bool-cases, length, get_or, set, length-set, length-replicate,
}
use sigmod_runtime_engine.WorkStealing.{
  WorkStealingConfig, new, get_block_size, WorkStealingCoordinator, Workers, start, step, run,
  finish_round,
}
use sigmod_runtime_engine.WorkStealing.Rows.{for_rows, flatten-replicate}
use sigmod_runtime_engine.WorkStealing.Step.{
  Sound, step-Sound, no_wrap, stopped, stopped-le, stopped-set, stopped-replicate, steal_block-some,
  steal_block-none,
}

module _ {ℓ} {A : Type ℓ} where
  -- Every round of the schedule is one of a thread whose loop still runs.
  unfoldable pub Busy : (ℕ → ℕ → List A) → List ℕ → Workers A → Type 0
  Busy work [] s = Unit {0}
  Busy work (t ∷ schedule) s =
      (get_or s.running t false ≡ true) × Busy work schedule (step work t s)

  -- Some thread has left its loop.
  abbrev pub Ended : Workers A → Type 0
  Ended s = 0 < stopped s.running

module _ {ℓ} {A : Type ℓ} (f : ℕ → List A) (work : ℕ → ℕ → List A) where
  start-Sound :
      (c : WorkStealingCoordinator) (total nthreads : ℕ)
      → c.total_work ≡ total
      → c.work_counter ≡ 0
      → Sound f total c.block_size nthreads (start nthreads c)
  unfolding start
  start-Sound c total nthreads whole_range zeroed = record {
    has_total = whole_range;
    has_block = refl;
    all_threads = length-replicate nthreads true;
    all_lists = length-replicate nthreads [];
    ahead = omega arith;
    ended = λ h. absurd (omega (arith, stopped-replicate nthreads));
    covered =
        let whole : total - 0 ≡ total = omega arith in
        rw (flatten-replicate nthreads, zeroed, whole) (Perm.refl _);
  }

  module _ (total block nthreads : ℕ)
      (works : (b e : ℕ) → b ≤ e → e ≤ total → work b e ≡ for_rows f b (e - b))
      (room : total + (nthreads + 2) * block < 2 ^ 64) where
    pub run-Sound :
        (schedule : List ℕ) (s : Workers A)
        → Sound f total block nthreads s
        → Sound f total block nthreads (run work schedule s)
    unfolding run
    run-Sound [] s k = k
    run-Sound (t ∷ schedule) s k =
        run-Sound schedule (step work t s) (step-Sound f total block nthreads work works room s t k)

    pub Sound-complete :
        (s : Workers A)
        → Sound f total block nthreads s
        → Ended s
        → Perm (flatten s.out_by_thread) (for_rows f 0 total)
    unfolding for_rows
    Sound-complete s k ended =
        let used : total - s.coordinator.work_counter ≡ 0 = omega (arith, k.ended ended) in
        let whole = rw used at k.covered in rw append-nil at whole

    -- What is left to do: rows not handed out, and threads still in their loops.
    abbrev remaining : Workers A → ℕ
    remaining s = (total - s.coordinator.work_counter) + (nthreads - stopped s.running)

    step_progress :
        (s : Workers A) (t : ℕ)
        → (0 < total → 0 < block)
        → Sound f total block nthreads s
        → get_or s.running t false ≡ true
        → remaining (step work t s) < remaining s
    unfolding step finish_round
    step_progress s t pos k runs =
        elim (Bool-cases (ltb s.coordinator.work_counter s.coordinator.total_work)) [
          | inl more ↦
              let below = ltb→lt _ _ more in
              let fits = no_wrap f total block nthreads work works room s k in
              rw (runs, steal_block-some s.coordinator below fits)
                (omega (arith, k.has_total, k.has_block, pos (omega (arith, k.has_total))))
          | inr past ↦
              let over = ltb→le _ _ past in
              let fits = no_wrap f total block nthreads work works room s k in
              let left = stopped-set s.running t runs in
              let few = stopped-le (set s.running t false) in
              let same = length-set s.running t false in
              rw (runs, steal_block-none s.coordinator over fits)
                (omega (arith, k.has_total, k.all_threads, left.0, few, same))
        ]

    pub Busy-length :
        (schedule : List ℕ) (s : Workers A)
        → (0 < total → 0 < block)
        → Sound f total block nthreads s
        → Busy work schedule s
        → length schedule ≤ remaining s
    unfolding Busy
    Busy-length [] s pos k h = omega arith
    Busy-length (t ∷ schedule) s pos k h =
        let next = step-Sound f total block nthreads work works room s t k in
        omega
          (arith, step_progress s t pos k h.0, Busy-length schedule (step work t s) pos next h.1)

pub new_lem :
    (config : WorkStealingConfig) (c : WorkStealingCoordinator)
    → new config ≡ some c
    → (c.total_work ≡ config.total_work)
      × (c.work_counter ≡ 0)
      × (0 < config.total_work → 0 < config.num_threads → config.min_block_size ≤ c.block_size)
unfolding new get_block_size
new_lem config c made = (ground arith, ground arith, λ p q. ground arith)

module _ {ℓ} {A : Type ℓ} (f : ℕ → List A) (work : ℕ → ℕ → List A) (config : WorkStealingConfig)
    (c : WorkStealingCoordinator) (made : new config ≡ some c)
    (works : (b e : ℕ) → b ≤ e → e ≤ config.total_work → work b e ≡ for_rows f b (e - b))
    (room : config.total_work + (config.num_threads + 2) * c.block_size < 2 ^ 64) where
  pub first : Sound f config.total_work c.block_size config.num_threads (start config.num_threads c)
  first =
      let facts = new_lem config c made in
      start-Sound f work c config.total_work config.num_threads facts.0 facts.1

  -- Whatever order the threads take turns in: as soon as one of them has found the range used up,
  -- the lists of all threads hold together what the rows from 0 to `total_work` put out, each row
  -- once, in some order.
  pub run-covers-rows :
      (schedule : List ℕ)
      → Ended (run work schedule (start config.num_threads c))
      → Perm
          (flatten (run work schedule (start config.num_threads c)).out_by_thread)
          (for_rows f 0 config.total_work)
  run-covers-rows schedule ended =
      Sound-complete f work config.total_work c.block_size config.num_threads works room _
        (run-Sound f work config.total_work c.block_size config.num_threads works room schedule _
          first)
        ended

  -- The loops of the threads end: no order of turns has more than `total_work + num_threads`
  -- rounds of threads that are still running.
  pub run_rounds :
      (schedule : List ℕ)
      → 0 < config.num_threads
      → 0 < config.min_block_size
      → Busy work schedule (start config.num_threads c)
      → length schedule ≤ config.total_work + config.num_threads
  unfolding start
  run_rounds schedule threads least busy =
      let facts = new_lem config c made in
      omega (
        arith,
        Busy-length f work config.total_work c.block_size config.num_threads works room schedule _
            (λ p. omega (arith, facts.2 p threads)) first busy,
        stopped-replicate config.num_threads,
        facts.1,
      )

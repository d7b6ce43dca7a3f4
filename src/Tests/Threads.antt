-- ===== src/Tests/Threads.antt =====
-- Two threads that share ten rows, at concrete schedules.
use mathlib.Core.List.{flatten, Perm}
use sigmod_runtime_engine.Base.{ℕ, ◌-◌, ◌≤◌, ◌≡◌, refl, some, List, [], ◌∷◌, arith}
use sigmod_runtime_engine.WorkStealing.{
  WorkStealingConfig, get_block_size, WorkStealingCoordinator, new, steal_block, start,
  finish_round, step, run,
}
use sigmod_runtime_engine.WorkStealing.Rows.{for_rows}
use sigmod_runtime_engine.WorkStealing.Step.{stopped}
use sigmod_runtime_engine.WorkStealing.Coverage.{Busy, Ended, run-covers-rows, run_rounds}

abbrev pub config : WorkStealingConfig
config = record { total_work = 10; num_threads = 2; min_block_size = 4; blocks_per_thread = 1 }

abbrev pub coordinator : WorkStealingCoordinator
coordinator = record { total_work = 10; block_size = 5; work_counter = 0 }

pub made : new config ≡ some coordinator
unfolding new get_block_size
made = refl

abbrev pub itself : ℕ → List ℕ
itself j = j ∷ []

abbrev pub rows : ℕ → ℕ → List ℕ
rows begin end = for_rows itself begin (end - begin)

abbrev schedule : List ℕ
schedule = 1 ∷ 0 ∷ 1 ∷ []

ended : Ended (run rows schedule (start 2 coordinator))
unfolding run step steal_block finish_round start stopped for_rows
ended = omega arith

busy : Busy rows schedule (start 2 coordinator)
unfolding Busy step steal_block finish_round start for_rows
busy = (refl, (refl, (refl, tt)))

run-covers-rows_example :
    Perm (flatten (run rows schedule (start 2 coordinator)).out_by_thread) (for_rows itself 0 10)
run-covers-rows_example =
    run-covers-rows itself rows config coordinator made (λ b e _ _. refl) (omega arith) schedule
      ended

run_rounds_example : 3 ≤ 12
run_rounds_example =
    run_rounds itself rows config coordinator made (λ b e _ _. refl) (omega arith) schedule
      (omega arith) (omega arith) busy

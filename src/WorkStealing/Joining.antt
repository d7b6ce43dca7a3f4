-- ===== src/WorkStealing/Joining.antt =====
-- The result of the threads, once they are joined.
use mathlib.Core.List.{flatten, Perm}
use sigmod_runtime_engine.Base.{ℕ, ◌+◌, ◌-◌, ◌*◌, ◌^◌, ◌≤◌, ◌<◌, ◌≡◌, inr, true, some, List, arith}
use sigmod_runtime_engine.WorkStealing.{
  WorkStealingConfig, new, WorkStealingCoordinator, start, run, all_stopped, joined_output,
}
use sigmod_runtime_engine.WorkStealing.Rows.{for_rows}
use sigmod_runtime_engine.WorkStealing.Coverage.{run-Sound, new_lem, first, run-covers-rows}
use sigmod_runtime_engine.WorkStealing.Fair.{turns, all_stopped_lem, stopped-pos, run_stops}

module _ {ℓ} {A : Type ℓ} (f : ℕ → List A) (work : ℕ → ℕ → List A) (config : WorkStealingConfig)
    (c : WorkStealingCoordinator) (made : new config ≡ some c)
    (works : (b e : ℕ) → b ≤ e → e ≤ config.total_work → work b e ≡ for_rows f b (e - b))
    (room : config.total_work + (config.num_threads + 2) * c.block_size < 2 ^ 64)
    (threads : 0 < config.num_threads) (least : 0 < config.min_block_size) where
  -- If every thread has more turns than there are rows, all threads can be joined, and their lists
  -- together are, in some order, what the rows from 0 to `total_work` put out, each row once.
  pub joined_output-rows :
      (schedule : List ℕ)
      → ((t : ℕ) → t < config.num_threads → config.total_work < turns t schedule)
      → (out : List A) × (joined_output (run work schedule (start config.num_threads c)) ≡ some out)
        × Perm out (for_rows f 0 config.total_work)
  unfolding joined_output
  joined_output-rows schedule fair =
      let s = start config.num_threads c in
      let end = run work schedule s in
      let facts = new_lem config c made in
      let begun = first f work config c made works room in
      let sound =
        run-Sound f work config.total_work c.block_size config.num_threads works room schedule s
          begun in
      let all : all_stopped end.running ≡ true = all_stopped_lem end.running (λ t less.
        run_stops f config.total_work c.block_size config.num_threads work works room
          (λ p. omega (arith, facts.2 p threads)) schedule s t begun
          (inr (omega (arith, fair t (omega (arith, sound.all_threads)))))) in
      (
        flatten end.out_by_thread,
        rw all,
        run-covers-rows f work config c made works room schedule
            (stopped-pos end.running (omega (arith, sound.all_threads)) all),
      )

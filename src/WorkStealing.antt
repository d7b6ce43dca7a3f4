-- ===== src/WorkStealing.antt =====
-- include/work_stealing.h and src/work_stealing.cpp: blocks of a range of rows are handed out by
-- an atomic counter. Around it, the threads of the probe phase in src/execute_default.cpp.
--
-- `size_t` wraps at 2 ^ 64. A division by zero in the block size is `none`.
pub mod Rows
pub mod Step
pub mod Coverage
pub mod Fair
pub mod Joining
use sigmod_runtime_engine.Base.{
  ℕ, zero, suc, ◌+◌, ◌*◌, ◌/◌, min, max, Bool, true, false, not, ◌&&◌, ◌||◌, ◌==◌, leb, ltb,
  if◌then◌else◌, Option, none, some, List, [], ◌∷◌, ◌++◌, get_or, set, replicate, u64,
}
use mathlib.Core.Option
use mathlib.Core.List.{flatten}

pub record WorkStealingConfig : Type 0 where
  pub total_work : ℕ
  pub num_threads : ℕ
  pub min_block_size : ℕ
  pub blocks_per_thread : ℕ

-- `WorkStealingConfig::get_block_size`.
unfoldable pub get_block_size : WorkStealingConfig → Option ℕ
get_block_size c =
    if c.total_work == 0 || c.num_threads == 0
    then some 0
    else let divisor = u64 (c.num_threads * c.blocks_per_thread) in
      if divisor == 0 then none else some (max c.min_block_size (c.total_work / divisor))

pub record WorkStealingCoordinator : Type 0 where
  pub total_work : ℕ
  pub block_size : ℕ
  pub work_counter : ℕ

-- The constructor.
unfoldable pub new : WorkStealingConfig → Option WorkStealingCoordinator
new c =
    Option.map (λ size. record { total_work = c.total_work; block_size = size; work_counter = 0 })
      (get_block_size c)

-- `steal_block`: the `fetch_add` is atomic, so a call is one step. The block is `[begin, end)`.
unfoldable pub steal_block : WorkStealingCoordinator → Option (ℕ × ℕ) × WorkStealingCoordinator
steal_block c =
    let begin = c.work_counter in
    let c' = record c { work_counter = u64 (begin + c.block_size) } in
    if leb c.total_work begin
    then (none, c')
    else (some (begin, min c.total_work (u64 (begin + c.block_size))), c')

-- The threads that share a coordinator: what each has put out, and whether its loop still runs.
pub record Workers {ℓ} (A : Type ℓ) : Type ℓ where
  pub coordinator : WorkStealingCoordinator
  pub out_by_thread : List (List A)
  pub running : List Bool

unfoldable pub all_stopped : List Bool → Bool
all_stopped [] = true
all_stopped (r ∷ running) = not r && all_stopped running

module _ {ℓ} {A : Type ℓ} where
  unfoldable pub start : ℕ → WorkStealingCoordinator → Workers A
  start nthreads c = record {
    coordinator = c;
    out_by_thread = replicate nthreads [];
    running = replicate nthreads true;
  }

  unfoldable pub finish_round :
      (ℕ → ℕ → List A) → ℕ → Workers A → Option (ℕ × ℕ) → WorkStealingCoordinator → Workers A
  finish_round work tid s none c = record s { coordinator = c; running = set s.running tid false }
  finish_round work tid s (some (begin, end)) c = record s {
    coordinator = c;
    out_by_thread = set s.out_by_thread tid (get_or s.out_by_thread tid [] ++ work begin end);
  }

  -- One round of `while (steal_block(begin, end)) …` in thread `tid`. Only the steal touches what
  -- the threads share, so the work on the block is done in the same step.
  unfoldable pub step : (ℕ → ℕ → List A) → ℕ → Workers A → Workers A
  step work tid s =
      let (block, c) = steal_block s.coordinator in
      if get_or s.running tid false then finish_round work tid s block c else s

  -- The threads take turns in the order of a schedule.
  unfoldable pub run : (ℕ → ℕ → List A) → List ℕ → Workers A → Workers A
  run work [] s = s
  run work (tid ∷ schedule) s = run work schedule (step work tid s)

  -- `th.join()` for every thread, and then the lists of all threads one after the other; `none` means
  -- that some thread is still in its loop.
  unfoldable pub joined_output : Workers A → Option (List A)
  joined_output s = if all_stopped s.running then some (flatten s.out_by_thread) else none

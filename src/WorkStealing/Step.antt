-- ===== src/WorkStealing/Step.antt =====
-- One round of one thread: what it keeps, and that it makes progress.
use mathlib.Core.List.{flatten, Perm, append_assoc, append-nil}
use mathlib.Core.List.Perm
use sigmod_runtime_engine.Base.{
  ℕ, zero, suc, ◌+◌, ◌-◌, ◌*◌, ◌^◌, ◌<◌, ◌≤◌, min, ◌≡◌, refl, sym, ◌∙◌, ap, arith, Bool, true,
  false, List, [], ◌∷◌, ◌++◌, length, get_or, set, replicate, length-set, none, some, inl, inr,
  Bool-cases, ltb, leb, ltb→lt, ltb→le,
}
use sigmod_runtime_engine.WorkStealing.{
  WorkStealingCoordinator, Workers, steal_block, step, finish_round,
}
use native.Mathlib.Nat.{mul-le-mul_right}
use sigmod_runtime_engine.WorkStealing.Rows.{for_rows, for_rows-append, flatten-set-perm}

-- How many threads have left their loop.
unfoldable pub stopped : List Bool → ℕ
stopped [] = 0
stopped (true ∷ r) = stopped r
stopped (false ∷ r) = suc (stopped r)

pub stopped-le : (r : List Bool) → stopped r ≤ length r
unfolding stopped
stopped-le [] = omega arith
stopped-le (true ∷ r) = omega (arith, stopped-le r)
stopped-le (false ∷ r) = omega (arith, stopped-le r)

pub stopped-set :
    (r : List Bool) (t : ℕ)
    → get_or r t false ≡ true
    → (stopped (set r t false) ≡ suc (stopped r)) × (t < length r)
unfolding stopped
stopped-set [] t h = cc
stopped-set (true ∷ r) zero h = (refl, omega arith)
stopped-set (false ∷ r) zero h = cc
stopped-set (true ∷ r) (suc t) h = let ih = stopped-set r t h in (ih.0, omega (arith, ih.1))
stopped-set (false ∷ r) (suc t) h = let ih = stopped-set r t h in (ap suc ih.0, omega (arith, ih.1))

pub stopped-replicate : (n : ℕ) → stopped (replicate n true) ≡ 0
unfolding stopped
stopped-replicate zero = refl
stopped-replicate (suc n) = stopped-replicate n

-- The two outcomes of a steal, while the counter does not wrap.
pub steal_block-none :
    (c : WorkStealingCoordinator)
    → c.total_work ≤ c.work_counter
    → c.work_counter + c.block_size < 2 ^ 64
    → steal_block c ≡ (none, record c { work_counter = c.work_counter + c.block_size })
unfolding steal_block
steal_block-none c h w = ground arith

pub steal_block-some :
    (c : WorkStealingCoordinator)
    → c.work_counter < c.total_work
    → c.work_counter + c.block_size < 2 ^ 64
    → steal_block c ≡ (
      some (c.work_counter, min c.total_work (c.work_counter + c.block_size)),
      record c { work_counter = c.work_counter + c.block_size },
    )
unfolding steal_block
steal_block-some c h w = ground arith

module _ {ℓ} {A : Type ℓ} (f : ℕ → List A) (total block nthreads : ℕ) where
  -- What holds of the threads at any time: the counter is ahead of the end of the range by at most
  -- one block for each thread that has seen it there, and what has been put out, with the rows
  -- that are still to be handed out, is the whole range.
  pub record Sound (s : Workers A) : Type ℓ where
    pub has_total : s.coordinator.total_work ≡ total
    pub has_block : s.coordinator.block_size ≡ block
    pub all_threads : length s.running ≡ nthreads
    pub all_lists : length s.out_by_thread ≡ nthreads
    pub ahead : s.coordinator.work_counter ≤ total + (1 + stopped s.running) * block
    pub ended : 0 < stopped s.running → total ≤ s.coordinator.work_counter
    pub covered :
        Perm
          (flatten s.out_by_thread
            ++ for_rows f s.coordinator.work_counter (total - s.coordinator.work_counter))
          (for_rows f 0 total)

  -- The rows from the counter on are the stolen block and the rows after it.
  rows_split :
      (c : ℕ)
      → c < total
      → for_rows f c (total - c)
        ≡ for_rows f c (min total (c + block) - c) ++ for_rows f (c + block) (total - (c + block))
  rows_split c h = elim (Bool-cases (leb (c + block) total)) [
    | inl inside ↦
        let fits : c + block ≤ total = ground arith in
        let a : total - c ≡ block + (total - (c + block)) = omega arith in
        let b : min total (c + block) - c ≡ block = omega arith in
        rw (a, b) (for_rows-append f c block (total - (c + block)))
    | inr past ↦
        let over : total ≤ c + block = ground arith in
        let a : min total (c + block) - c ≡ total - c = omega arith in
        let b : total - (c + block) ≡ 0 = omega arith in
        rw (a, b) (unfold for_rows in sym (append-nil _))
  ]

  module _ (work : ℕ → ℕ → List A)
      (works : (b e : ℕ) → b ≤ e → e ≤ total → work b e ≡ for_rows f b (e - b))
      (room : total + (nthreads + 2) * block < 2 ^ 64) where
    -- The counter never wraps.
    pub no_wrap :
        (s : Workers A) → Sound s → s.coordinator.work_counter + s.coordinator.block_size < 2 ^ 64
    no_wrap s k =
        let few : stopped s.running * block ≤ nthreads * block =
          mul-le-mul_right block (rw k.all_threads at (stopped-le s.running)) in
        omega (arith, k.ahead, k.has_block, few)

    -- A thread that is given a block.
    stolen-Sound :
        (s : Workers A) (t : ℕ)
        → Sound s
        → t < length s.running
        → s.coordinator.work_counter < s.coordinator.total_work
        → Sound (
            finish_round work t s
              (some (
                s.coordinator.work_counter,
                min s.coordinator.total_work
                    (s.coordinator.work_counter + s.coordinator.block_size),
              ))
              (record (s.coordinator) {
                work_counter = s.coordinator.work_counter + s.coordinator.block_size;
              }))
    unfolding finish_round
    stolen-Sound s t k there more =
        let c = s.coordinator.work_counter in
        let e = min total (c + block) in
        let below : c < total = rw k.has_total at more in
        let did = works c e (omega arith) (omega arith) in
        let pushed =
          flatten-set-perm s.out_by_thread t (for_rows f c (e - c))
            (omega (arith, k.all_lists, k.all_threads)) in
        record {
          has_total = k.has_total;
          has_block = k.has_block;
          all_threads = k.all_threads;
          all_lists = length-set s.out_by_thread t _ ∙ k.all_lists;
          ahead = omega (arith, k.has_block);
          ended = λ some_ended. absurd (omega (arith, k.ended some_ended));
          covered =
              rw (k.has_total, k.has_block, did)
                (Perm.trans (Perm.append_right _ pushed)
                  (rw (append_assoc, ← rows_split c below) k.covered));
        }

    -- A thread that finds the range used up.
    ended-Sound :
        (s : Workers A) (t : ℕ)
        → Sound s
        → get_or s.running t false ≡ true
        → s.coordinator.total_work ≤ s.coordinator.work_counter
        → Sound (
            finish_round work t s none (record (s.coordinator) {
              work_counter = s.coordinator.work_counter + s.coordinator.block_size;
            }))
    unfolding finish_round
    ended-Sound s t k runs past =
        let c = s.coordinator.work_counter in
        let left = (stopped-set s.running t runs).0 in
        let over : total ≤ c = rw k.has_total at past in
        let here : total - c ≡ 0 = omega arith in
        let next : total - (c + s.coordinator.block_size) ≡ 0 = omega arith in
        record {
          has_total = k.has_total;
          has_block = k.has_block;
          all_threads = length-set s.running t false ∙ k.all_threads;
          all_lists = k.all_lists;
          ahead = rw left (omega (arith, k.has_block, k.ahead));
          ended = λ _. omega arith;
          covered = rw next (unfold for_rows in rw here at k.covered);
        }

    -- Every round of every thread keeps what holds.
    pub step-Sound : (s : Workers A) (t : ℕ) → Sound s → Sound (step work t s)
    unfolding step
    step-Sound s t k = elim (Bool-cases (get_or s.running t false)) [
      | inr idle ↦ rw idle k
      | inl runs ↦ elim (Bool-cases (ltb s.coordinator.work_counter s.coordinator.total_work)) [
        | inl more ↦
            let below = ltb→lt _ _ more in
            rw (runs, steal_block-some s.coordinator below (no_wrap s k))
              (stolen-Sound s t k (stopped-set s.running t runs).1 below)
        | inr past ↦
            let over = ltb→le _ _ past in
            rw (runs, steal_block-none s.coordinator over (no_wrap s k))
              (ended-Sound s t k runs over)
      ]
    ]

-- ===== src/WorkStealing/Fair.antt =====
-- A thread that gets enough turns leaves its loop.
use sigmod_runtime_engine.Base.{
  ℕ, zero, suc, ◌+◌, ◌-◌, ◌*◌, ◌^◌, ◌≤◌, ◌<◌, ◌≡◌, refl, ◌⊎◌, inl, inr, Bool, true, false, List, [],
  ◌∷◌, arith, ltb, ◌==◌, if◌then◌else◌, ltb→lt, ltb→le, ==→eq, Bool-cases, length, get_or, set,
}
use sigmod_runtime_engine.WorkStealing.{Workers, step, run, finish_round, all_stopped}
use sigmod_runtime_engine.WorkStealing.Rows.{for_rows}
use sigmod_runtime_engine.WorkStealing.Step.{
  Sound, step-Sound, no_wrap, stopped, steal_block-some, steal_block-none,
}

-- How many turns a thread has in a schedule.
unfoldable pub turns : ℕ → List ℕ → ℕ
turns t [] = 0
turns t (x ∷ schedule) = if x == t then suc (turns t schedule) else turns t schedule

still_stopped :
    (r : List Bool) (i t : ℕ) → get_or r t false ≡ false → get_or (set r i false) t false ≡ false
still_stopped [] i t h = refl
still_stopped (x ∷ r) zero zero h = refl
still_stopped (x ∷ r) zero (suc t) h = h
still_stopped (x ∷ r) (suc i) zero h = h
still_stopped (x ∷ r) (suc i) (suc t) h = still_stopped r i t h

now_stopped : (r : List Bool) (t : ℕ) → get_or (set r t false) t false ≡ false
now_stopped [] t = refl
now_stopped (x ∷ r) zero = refl
now_stopped (x ∷ r) (suc t) = now_stopped r t

pub all_stopped_lem :
    (r : List Bool) → ((t : ℕ) → t < length r → get_or r t false ≡ false) → all_stopped r ≡ true
unfolding all_stopped
all_stopped_lem [] h = refl
all_stopped_lem (x ∷ r) h =
    let head = h 0 (omega arith) in rw (head, all_stopped_lem r (λ t less. h (suc t) (omega arith)))

pub stopped-pos : (r : List Bool) → 0 < length r → all_stopped r ≡ true → 0 < stopped r
unfolding all_stopped stopped
stopped-pos [] some_thread h = absurd (omega arith)
stopped-pos (true ∷ r) some_thread h = absurd cc
stopped-pos (false ∷ r) some_thread h = omega arith

module _ {ℓ} {A : Type ℓ} (f : ℕ → List A) (total block nthreads : ℕ) (work : ℕ → ℕ → List A)
    (works : (b e : ℕ) → b ≤ e → e ≤ total → work b e ≡ for_rows f b (e - b))
    (room : total + (nthreads + 2) * block < 2 ^ 64) (pos : 0 < total → 0 < block) where
  -- Rows that have not been handed out.
  abbrev left_over : Workers A → ℕ
  left_over s = total - s.coordinator.work_counter

  -- What a turn of thread `i` does to thread `t`.
  step_cases :
      (s : Workers A) (i t : ℕ)
      → Sound f total block nthreads s
      → (get_or s.running t false ≡ false → get_or (step work i s).running t false ≡ false)
        × (left_over (step work i s) ≤ left_over s)
        × ((i ≡ t)
            → (get_or (step work i s).running t false ≡ false)
              ⊎ (left_over (step work i s) < left_over s))
  unfolding step finish_round
  step_cases s i t k = elim (Bool-cases (get_or s.running i false)) [
    | inr idle ↦ (rw idle (λ h. h), rw idle (omega arith), λ same. inl (rw idle (rw same at idle)))
    | inl runs ↦
        let fits = no_wrap f total block nthreads work works room s k in
        elim (Bool-cases (ltb s.coordinator.work_counter s.coordinator.total_work)) [
          | inl more ↦
              let below = ltb→lt _ _ more in
              rw (runs, steal_block-some s.coordinator below fits)
                (
                  λ h. h,
                  omega arith,
                  λ same.
                      inr
                        (omega (arith, k.has_total, k.has_block, pos (omega (arith, k.has_total)))),
                )
          | inr past ↦
              let over = ltb→le _ _ past in
              rw (runs, steal_block-none s.coordinator over fits)
                (
                  λ h. still_stopped s.running i t h,
                  omega arith,
                  λ same. inl (rw same (now_stopped s.running t)),
                )
        ]
  ]

  -- One turn for each row, and one more to find that there are no more rows.
  pub run_stops :
      (schedule : List ℕ) (s : Workers A) (t : ℕ)
      → Sound f total block nthreads s
      → (get_or s.running t false ≡ false) ⊎ (left_over s < turns t schedule)
      → get_or (run work schedule s).running t false ≡ false
  unfolding run turns
  run_stops [] s t k (inl h) = h
  run_stops [] s t k (inr h) = absurd (omega arith)
  run_stops (i ∷ schedule) s t k (inl h) =
      run_stops schedule (step work i s) t (step-Sound f total block nthreads work works room s i k)
        (inl ((step_cases s i t k).0 h))
  run_stops (i ∷ schedule) s t k (inr h) =
      let next = step-Sound f total block nthreads work works room s i k in
      let (_, less, mine) = step_cases s i t k in
      elim (Bool-cases (i == t)) [
        | inr other ↦ run_stops schedule (step work i s) t next (inr (ground arith))
        | inl same ↦ elim (mine (==→eq _ _ same)) [
          | inl done ↦ run_stops schedule (step work i s) t next (inl done)
          | inr fewer ↦ run_stops schedule (step work i s) t next (inr (ground arith))
        ]
      ]

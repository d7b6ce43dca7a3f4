-- ===== src/FilterThreadPool/Turns.antt =====
-- FilterThreadPool: what a run of all shards does to one byte, in whatever order they come.
use sigmod_runtime_engine.Base.{
  ℕ, suc, ◌+◌, ◌≤◌, ◌<◌, ◌≡◌, refl, sym, ap, ◌∙◌, ◌≢◌, ◌⊎◌, inl, inr, true, false, List, [], ◌∷◌,
  arith, ltb, ◌==◌, ltb→lt, ltb→le, lt→ltb, le→ltb, ==→eq, ==→ne, ne→==, Bool-cases,
}
use sigmod_runtime_engine.FilterThreadPool.{
  FilterThreadPool, begin_idx, shard, run_shards, run, count_of, Schedule,
}
use sigmod_runtime_engine.FilterThreadPool.Shards.{
  Owner, begin_idx_last, begin_idx-le_of, begin_idx_end, Owner-below,
}

count_of_self : (t : ℕ) (turns : List ℕ) → count_of t (t ∷ turns) ≡ suc (count_of t turns)
count_of_self t turns = ground arith

count_of_other : (t u : ℕ) (turns : List ℕ) → t ≢ u → count_of t (u ∷ turns) ≡ count_of t turns
count_of_other t u turns h = ground arith

-- No thread beyond the pool's.
InRange : ℕ → List ℕ → Type 0
InRange n turns = (u : ℕ) → n ≤ u → count_of u turns ≡ 0

InRange-head : (n u : ℕ) (turns : List ℕ) → InRange n (u ∷ turns) → u < n
unfolding InRange
InRange-head n u turns h = elim (Bool-cases (ltb u n)) [
  | inl inside ↦ ltb→lt u n inside
  | inr outside ↦ absurd (omega (arith, h u (ltb→le u n outside), count_of_self u turns))
]

InRange-tail : (n u : ℕ) (turns : List ℕ) → InRange n (u ∷ turns) → InRange n turns
unfolding InRange
InRange-tail n u turns h = λ v above. omega (arith, h v above)

-- A function that keeps an invariant of the shared state.
module _ {A : Type 0} (pool : FilterThreadPool) (function : ℕ → ℕ → A → A) (tasks : ℕ)
    (Inv : A → Type 0) (keeps : (b e : ℕ) (a : A) → Inv a → Inv (function b e a)) where
  shard-keeps : (t : ℕ) (a : A) → Inv a → Inv (shard pool function tasks t a)
  unfolding shard
  shard-keeps t a inv =
      elim (Bool-cases (ltb (begin_idx pool t tasks) (begin_idx pool (t + 1) tasks))) [
        | inl some_bytes ↦ rw some_bytes (keeps _ _ a inv)
        | inr no_bytes ↦ rw no_bytes inv
      ]

  run_shards-keeps : (turns : List ℕ) (a : A) → Inv a → Inv (run_shards pool function tasks turns a)
  unfolding run_shards
  run_shards-keeps [] a inv = inv
  run_shards-keeps (t ∷ turns) a inv = run_shards-keeps turns _ (shard-keeps t a inv)

  -- What every shard keeps, the run keeps.
  pub run-keeps : (turns : List ℕ) (a : A) → Inv a → Inv (run pool turns function tasks a)
  unfolding run
  run-keeps turns a inv = elim (Bool-cases (tasks == 0)) [
    | inl idle ↦ rw idle inv
    | inr busy ↦ rw busy (run_shards-keeps turns a inv)
  ]

  -- A byte `i` of the shared state: `hit` says what a shard with it in does to what `obs` sees, `miss`
  -- that another shard does nothing to it.
  module _ {B : Type 0} (i : ℕ) (obs : A → B) (upd : B → B)
      (hit : (b e : ℕ) (a : A)
        → Inv a
        → b ≤ i
        → i < e
        → e ≤ tasks
        → obs (function b e a) ≡ upd (obs a))
      (miss : (b e : ℕ) (a : A)
        → Inv a
        → (i < b) ⊎ (e ≤ i)
        → e ≤ tasks
        → obs (function b e a) ≡ obs a) where
    shard-hit :
        (t : ℕ) (a : A)
        → Inv a
        → Owner pool tasks i t
        → begin_idx pool (t + 1) tasks ≤ tasks
        → obs (shard pool function tasks t a) ≡ upd (obs a)
    unfolding shard
    shard-hit t a inv (low, high) fits =
        let some_bytes : ltb (begin_idx pool t tasks) (begin_idx pool (t + 1) tasks) ≡ true =
          lt→ltb _ _ (omega arith) in
        rw some_bytes (hit _ _ a inv low high fits)

    shard-miss :
        (t u : ℕ) (a : A)
        → Inv a
        → Owner pool tasks i t
        → t ≢ u
        → u < pool.num_threads
        → obs (shard pool function tasks u a) ≡ obs a
    unfolding shard
    shard-miss t u a inv (low, high) other member =
        let outside : (i < begin_idx pool u tasks) ⊎ (begin_idx pool (u + 1) tasks ≤ i) =
          elim (Bool-cases (ltb t u)) [
            | inl later ↦ inl (
                omega
                  (arith, begin_idx-le_of pool (t + 1) u tasks (omega (arith, ltb→lt _ _ later))))
            | inr earlier ↦ inr (
                omega
                  (arith, begin_idx-le_of pool (u + 1) t tasks (omega (arith, ltb→le _ _ earlier))))
          ] in
        elim (Bool-cases (ltb (begin_idx pool u tasks) (begin_idx pool (u + 1) tasks))) [
          | inl some_bytes ↦
              rw some_bytes (miss _ _ a inv outside (begin_idx_end pool u tasks member))
          | inr no_bytes ↦ rw no_bytes refl
        ]

    run_shards-miss :
        (t : ℕ) (turns : List ℕ) (a : A)
        → InRange pool.num_threads turns
        → Inv a
        → Owner pool tasks i t
        → count_of t turns ≡ 0
        → obs (run_shards pool function tasks turns a) ≡ obs a
    unfolding run_shards
    run_shards-miss t [] a valid inv own h = refl
    run_shards-miss t (u ∷ turns) a valid inv own h = elim (Bool-cases (t == u)) [
      | inl same ↦ absurd (omega (arith, rw (sym (==→eq t u same)) at h, count_of_self t turns))
      | inr other ↦
          let ne = ==→ne t u other in
          run_shards-miss t turns _ (InRange-tail pool.num_threads u turns valid)
            (shard-keeps u a inv) own (omega (arith, count_of_other t u turns ne))
          ∙ shard-miss t u a inv own ne (InRange-head pool.num_threads u turns valid)
    ]

    run_shards-hit :
        (t : ℕ) (turns : List ℕ) (a : A)
        → InRange pool.num_threads turns
        → Inv a
        → Owner pool tasks i t
        → begin_idx pool (t + 1) tasks ≤ tasks
        → count_of t turns ≡ 1
        → obs (run_shards pool function tasks turns a) ≡ upd (obs a)
    unfolding run_shards
    run_shards-hit t [] a valid inv own fits h = absurd (omega arith)
    run_shards-hit t (u ∷ turns) a valid inv own fits h = elim (Bool-cases (t == u)) [
      | inl same ↦
          let e = ==→eq t u same in
          let once : count_of t turns ≡ 0 = omega (arith, rw (sym e) at h, count_of_self t turns) in
          run_shards-miss t turns _ (InRange-tail pool.num_threads u turns valid)
            (shard-keeps u a inv) own once
          ∙ rw (sym e) (shard-hit t a inv own fits)
      | inr other ↦
          let ne = ==→ne t u other in
          run_shards-hit t turns _ (InRange-tail pool.num_threads u turns valid)
            (shard-keeps u a inv) own fits (omega (arith, count_of_other t u turns ne))
          ∙ ap upd (shard-miss t u a inv own ne (InRange-head pool.num_threads u turns valid))
    ]

    -- Every byte is handled exactly once, whatever the order of the threads.
    pub run-once :
        (turns : List ℕ) (a : A)
        → 0 < pool.num_threads
        → Schedule pool turns
        → i < tasks
        → Inv a
        → obs (run pool turns function tasks a) ≡ upd (obs a)
    unfolding run Schedule InRange
    run-once turns a pos schedule inside inv =
        let all = begin_idx_last pool tasks pos in
        let (t, member, own) = Owner-below pool tasks i pool.num_threads (omega arith) in
        let once : count_of t turns ≡ 1 = rw (lt→ltb _ _ member) at (schedule t) in
        let busy : (tasks == 0) ≡ false = ne→== _ _ (λ e. omega arith) in
        let valid : InRange pool.num_threads turns =
          λ u above. rw (le→ltb u pool.num_threads above) at (schedule u) in
        let fits = begin_idx-le_of pool (t + 1) pool.num_threads tasks (omega arith) in
        rw busy (run_shards-hit t turns a valid inv own (omega arith) once)

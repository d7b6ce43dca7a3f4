-- ===== src/FilterThreadPool/Shards.antt =====
-- FilterThreadPool: the shards are disjoint and make up the whole, so a byte is handled once.
use native.Mathlib.Nat.{div-add-mod, mod-lt}
use sigmod_runtime_engine.Base.{
  ℕ, zero, suc, ◌+◌, ◌-◌, ◌≤◌, ◌<◌, ◌≡◌, inl, inr, arith, ltb, ltb→lt, ltb→le, Bool-cases,
}
use sigmod_runtime_engine.FilterThreadPool.{FilterThreadPool, begin_idx}

pub begin_idx_last :
    (pool : FilterThreadPool) (tasks : ℕ)
    → 0 < pool.num_threads
    → begin_idx pool pool.num_threads tasks ≡ tasks
unfolding begin_idx
begin_idx_last pool tasks pos = omega (arith, div-add-mod tasks pool.num_threads, mod-lt tasks pos)

begin_idx_first : (pool : FilterThreadPool) (tasks : ℕ) → begin_idx pool 0 tasks ≡ 0
unfolding begin_idx
begin_idx_first pool tasks = omega arith

begin_idx_step :
    (pool : FilterThreadPool) (t tasks : ℕ) → begin_idx pool t tasks ≤ begin_idx pool (t + 1) tasks
unfolding begin_idx
begin_idx_step pool t tasks = ground arith

begin_idx_monotone :
    (pool : FilterThreadPool) (t k tasks : ℕ)
    → begin_idx pool t tasks ≤ begin_idx pool (t + k) tasks
begin_idx_monotone pool t zero tasks = let same : t + 0 ≡ t = omega arith in rw same (omega arith)
begin_idx_monotone pool t (suc k) tasks =
    let next : t + suc k ≡ t + k + 1 = omega arith in
    rw next (omega (arith, begin_idx_monotone pool t k tasks, begin_idx_step pool (t + k) tasks))

pub begin_idx-le_of :
    (pool : FilterThreadPool) (s t tasks : ℕ)
    → s ≤ t
    → begin_idx pool s tasks ≤ begin_idx pool t tasks
begin_idx-le_of pool s t tasks h =
    let sum : s + (t - s) ≡ t = omega arith in rw sum at (begin_idx_monotone pool s (t - s) tasks)

-- The shard that a byte lies in.
abbrev pub Owner : FilterThreadPool → ℕ → ℕ → ℕ → Type 0
Owner pool tasks i t = (begin_idx pool t tasks ≤ i) × (i < begin_idx pool (t + 1) tasks)

pub Owner-below :
    (pool : FilterThreadPool) (tasks i n : ℕ)
    → i < begin_idx pool n tasks
    → (t : ℕ) × (t < n) × Owner pool tasks i t
Owner-below pool tasks i zero h = absurd (omega (arith, begin_idx_first pool tasks))
Owner-below pool tasks i (suc n) h = elim (Bool-cases (ltb i (begin_idx pool n tasks))) [
  | inl below ↦
      let (t, l, own) = Owner-below pool tasks i n (ltb→lt _ _ below) in (t, omega arith, own)
  | inr above ↦
      let next : n + 1 ≡ suc n = omega arith in (n, omega arith, (ltb→le _ _ above, rw next h))
]

-- One thread has the byte in its shard, and no other.
unfoldable pub OwnedOnce : FilterThreadPool → ℕ → ℕ → Type 0
OwnedOnce pool tasks i =
    (t : ℕ) × (t < pool.num_threads)
    × Owner pool tasks i t
    × ((u : ℕ) → Owner pool tasks i u → u ≡ t)

Owner-unique :
    (pool : FilterThreadPool) (tasks i t u : ℕ)
    → Owner pool tasks i t
    → Owner pool tasks i u
    → u ≤ t
Owner-unique pool tasks i t u own other = elim (Bool-cases (ltb t u)) [
  | inl later ↦
      absurd (omega (arith, begin_idx-le_of pool (t + 1) u tasks (omega (arith, ltb→lt t u later))))
  | inr is ↦ ltb→le t u is
]

-- For a pool with threads, every byte of the tasks lies in the shard of one thread of the pool, and
-- in no other shard.
pub begin_idx-OwnedOnce :
    (pool : FilterThreadPool) (tasks i : ℕ)
    → 0 < pool.num_threads
    → i < tasks
    → OwnedOnce pool tasks i
unfolding OwnedOnce
begin_idx-OwnedOnce pool tasks i pos inside =
    let all = begin_idx_last pool tasks pos in
    let (t, member, own) = Owner-below pool tasks i pool.num_threads (omega arith) in
    (
      t,
      member,
      own,
      λ u other.
          omega (
            arith,
            Owner-unique pool tasks i t u own other,
            Owner-unique pool tasks i u t other own,
          ),
    )

pub begin_idx_end :
    (pool : FilterThreadPool) (t tasks : ℕ)
    → t < pool.num_threads
    → begin_idx pool (t + 1) tasks ≤ tasks
begin_idx_end pool t tasks h = omega (
  arith,
  begin_idx_last pool tasks (omega arith),
  begin_idx-le_of pool (t + 1) pool.num_threads tasks (omega arith),
)

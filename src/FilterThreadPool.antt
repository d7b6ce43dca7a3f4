-- ===== src/FilterThreadPool.antt =====
-- FilterThreadPool (include/inner_column.h): how the bytes of a bitmap are shared out to threads.
pub mod Shards
pub mod Turns
use sigmod_runtime_engine.Base.{
  ℕ, zero, suc, ◌+◌, ◌-◌, ◌*◌, ◌/◌, ◌%◌, ◌^◌, ◌≤◌, ◌<◌, min, max, bit_and, bit_or, ◌≡◌, refl, sym,
  ap, ◌∙◌, ◌≢◌, ◌↔◌, ◌⊎◌, inl, inr, Bool, true, false, not, ◌&&◌, ◌||◌, Option, none, some, List,
  [], ◌∷◌, ◌++◌, map, arith, ltb, leb, ◌==◌, if◌then◌else◌, ltb→lt, ltb→le, lt→ltb, le→ltb, ==→eq,
  ==→ne, ==_refl, ne→==, Bool-cases, Option-cases, length, get_or, get_elem?, set, replicate,
  select, length-append, length-set, length-replicate, get_or-replicate, get_or-replicate_self,
  get_or-set_self, get_or-set_ne, get_or-append_left, get_or-append_right, select-append,
  select-select, select_hit, select_miss, u8, u16, u32, u64, shl, shr,
}

pub record FilterThreadPool : Type 0 where
  pub num_threads : ℕ

-- The constructor.
unfoldable pub make_pool : ℕ → FilterThreadPool
make_pool num_threads = record { num_threads = if num_threads == 0 then 1 else num_threads }

-- `filter_tp`.
abbrev pub filter_tp : FilterThreadPool
filter_tp = make_pool 12

unfoldable pub begin_idx : FilterThreadPool → ℕ → ℕ → ℕ
begin_idx pool thread_id tasks =
    let base = tasks / pool.num_threads in
    let rem = tasks % pool.num_threads in thread_id * base + min thread_id rem

module _ {A : Type 0} where
  -- What thread `t` does, the calling thread being the last one.
  unfoldable pub shard : FilterThreadPool → (ℕ → ℕ → A → A) → ℕ → ℕ → A → A
  shard pool function tasks t shared =
      let first = begin_idx pool t tasks in
      let last = begin_idx pool (t + 1) tasks in
      if ltb first last then function first last shared else shared

  -- The shards take effect in the order `turns`.
  unfoldable pub run_shards : FilterThreadPool → (ℕ → ℕ → A → A) → ℕ → List ℕ → A → A
  run_shards pool function tasks [] shared = shared
  run_shards pool function tasks (t ∷ turns) shared =
      run_shards pool function tasks turns (shard pool function tasks t shared)

  unfoldable pub run : FilterThreadPool → List ℕ → (ℕ → ℕ → A → A) → ℕ → A → A
  run pool turns function tasks shared =
      if tasks == 0 then shared else run_shards pool function tasks turns shared

abbrev pub count_of : ℕ → List ℕ → ℕ
count_of t [] = 0
count_of t (u ∷ turns) = (if t == u then 1 else 0) + count_of t turns

-- Every thread of the pool, each once, in some order.
unfoldable pub Schedule : FilterThreadPool → List ℕ → Type 0
Schedule pool turns = (t : ℕ) → count_of t turns ≡ (if ltb t pool.num_threads then 1 else 0)

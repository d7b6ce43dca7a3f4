-- ===== src/Unchained/Sizing.antt =====
-- The directory: its size is a power of two, and mask, shift and vectors fit it.
use native.Mathlib.Nat.{pow-suc, one-le-pow, pow-le-pow_right}
use mathlib.Core.Option
use sigmod_runtime_engine.Base.{
  ℕ, zero, suc, ◌+◌, ◌-◌, ◌*◌, ◌/◌, ◌^◌, ◌≤◌, ◌<◌, min, max, ◌≡◌, refl, ap, ◌⊎◌, inl, inr, true,
  some, arith, ltb, leb, ◌==◌, ltb→lt, ltb→le, lt→ltb, le→ltb, ==→eq, Bool-cases, length,
  length-replicate, u64, shl, shr,
}
use sigmod_runtime_engine.Unchained.{
  rebuilt, reserve_power, FlatTable, new, next_pow2, bit_length, resize, reserve, min_dir_size,
  max_dir_size, max_size,
}

pub record WellSized (t : FlatTable) : Type 0 where
  pub power : ℕ
  pub size_is : t.dir_size ≡ 2 ^ power
  pub mask_is : t.dir_mask ≡ 2 ^ power - 1
  pub shift_is : t.shift ≡ 64 - power
  pub offsets_length : length t.directory_offsets ≡ t.dir_size
  pub bloom_length : length t.bloom_filters ≡ t.dir_size

pub two-pow-pos : (k : ℕ) → 0 < 2 ^ k
two-pow-pos k = one-le-pow k 2 (omega arith)

-- A table with `2 ^ directory_power` slots is well-sized.
pub new-WellSized : (directory_power : ℕ) → directory_power < 64 → WellSized (new directory_power)
unfolding new
new-WellSized k h =
    let small = pow-le-pow_right {n = 2} (omega arith) {i = k} {j = 63} (omega arith) in
    let whole : u64 (shl 1 k) ≡ 2 ^ k = omega arith in
    record {
      power = k;
      size_is = whole;
      mask_is = rw whole;
      shift_is = refl;
      offsets_length = length-replicate _ 0;
      bloom_length = length-replicate _ 0;
    }

below_next : (k n v : ℕ) → k ≤ n → 2 ^ k < v → v ≤ 2 ^ n → k < n
below_next k n v kn short h = elim (Bool-cases (ltb k n)) [
  | inl lt ↦ ltb→lt _ _ lt
  | inr ge ↦
      let same : k ≡ n = omega (arith, ltb→le _ _ ge) in
      absurd (omega (arith, ap (λ (i : ℕ). 2 ^ i) same))
]

doubled : (k : ℕ) → k ≤ 62 → u64 (shl (2 ^ k) 1) ≡ 2 ^ (k + 1)
doubled k top =
    let small = pow-le-pow_right {n = 2} (omega arith) {i = k} {j = 62} top in
    let e : k + 1 ≡ suc k = omega arith in rw e (omega (arith, pow-suc 2 k))

-- The loop finds a power of two that is large enough.
next_pow2_lem :
    (m n k v : ℕ)
    → k ≤ n
    → n ≤ k + m
    → n ≤ 62
    → v ≤ 2 ^ n
    → (j : ℕ) × (next_pow2 (suc m) v (2 ^ k) ≡ some (2 ^ j)) × (v ≤ 2 ^ j) × (k ≤ j) × (j ≤ 62)
unfolding next_pow2
next_pow2_lem zero n k v kn nm top h =
    let same : n ≡ k = omega arith in
    let fits : v ≤ 2 ^ k = rw same at h in (k, rw (le→ltb _ _ fits), fits, omega arith, omega arith)
next_pow2_lem (suc m) n k v kn nm top h = elim (Bool-cases (ltb (2 ^ k) v)) [
  | inr enough ↦ (k, rw enough, ltb→le _ _ enough, omega arith, omega arith)
  | inl short ↦
      let room = below_next k n v kn (ltb→lt _ _ short) h in
      let (j, found, large, above, small) =
        next_pow2_lem m n (k + 1) v (omega (arith, room)) (omega arith) top h in
      (j, rw (short, doubled k (omega arith)) found, large, omega arith, small)
]

bit_length_lem : (fuel j bits : ℕ) → j ≤ fuel → bit_length (suc fuel) (2 ^ j) bits ≡ some (bits + j)
unfolding bit_length
bit_length_lem fuel zero bits h = ground arith
bit_length_lem zero (suc j) bits h = absurd (omega arith)
bit_length_lem (suc fuel) (suc j) bits h =
    let two = pow-suc 2 j in
    let pos = two-pow-pos j in
    let half : shr (2 ^ suc j) 1 ≡ 2 ^ j = omega arith in
    let more : ltb 1 (2 ^ suc j) ≡ true = lt→ltb _ _ (omega arith) in
    let rest = bit_length_lem fuel j (bits + 1) (omega arith) in
    let sum : bits + 1 + j ≡ bits + suc j = omega arith in rw (more, half, rest, sum)

resize-WellSized :
    (t : FlatTable) (j : ℕ)
    → j ≤ 62
    → (t' : FlatTable) × (resize t (2 ^ j) ≡ some t') × WellSized t' × (t'.dir_size ≡ 2 ^ j)
unfolding resize rebuilt
resize-WellSized t j h = (
  rebuilt t (2 ^ j) j,
  let same : 0 + j ≡ j = omega arith in rw (bit_length_lem 63 j 0 (omega arith), same),
  record {
    power = j;
    size_is = refl;
    mask_is = refl;
    shift_is = omega arith;
    offsets_length = length-replicate _ 0;
    bloom_length = length-replicate _ 0;
  },
  refl,
)

-- The bound of the directory size is a power of two as well.
capped : (j : ℕ) → 10 ≤ j → (i : ℕ) × (min (2 ^ j) max_dir_size ≡ 2 ^ i) × (10 ≤ i) × (i ≤ 18)
capped j h = elim (Bool-cases (leb j 18)) [
  | inl small ↦
      let fits : j ≤ 18 = ground arith in
      let le = pow-le-pow_right {n = 2} (omega arith) {i = j} {j = 18} fits in
      (j, omega arith, h, fits)
  | inr large ↦
      let over : 18 ≤ j = ground arith in
      let le = pow-le-pow_right {n = 2} (omega arith) {i = 18} {j = j} over in
      (18, omega arith, omega arith, omega arith)
]

ten_le : (j v : ℕ) → v ≤ 2 ^ j → min_dir_size ≤ v → 10 ≤ j
ten_le j v h least = elim (Bool-cases (ltb j 10)) [
  | inr ge ↦ ltb→le _ _ ge
  | inl lt ↦
      let small : j ≤ 9 = omega (arith, ltb→lt _ _ lt) in
      absurd (omega (arith, pow-le-pow_right {n = 2} (omega arith) {i = j} {j = 9} small))
]

-- For every capacity that a vector of entries can reserve, `reserve` ends without an exception, and
-- leaves a well-sized table whose directory has between 2 ^ 10 and 2 ^ 18 slots; unless it has 2 ^ 18
-- slots, the capacity is below 8 times the number of slots plus 8. Memory that runs out is not modelled.
pub reserve-WellSized :
    (capacity : ℕ) (t : FlatTable)
    → capacity ≤ max_size
    → WellSized t
    → (t' : FlatTable) × (reserve capacity t ≡ some t')
      × WellSized t'
      × (min_dir_size ≤ t'.dir_size)
      × (t'.dir_size ≤ max_dir_size)
      × ((capacity < 8 * t'.dir_size + 8) ⊎ (t'.dir_size ≡ max_dir_size))
unfolding reserve reserve_power Option.bind
reserve-WellSized capacity t h sized =
    let v = max (capacity / 8) min_dir_size in
    let allowed = le→ltb _ _ h in
    let (j, found, large, _, small) =
      next_pow2_lem 64 62 0 v (omega arith) (omega arith) (omega arith) (omega arith) in
    let (i, is, lo, hi) = capped j (ten_le j v large (omega arith)) in
    let least = pow-le-pow_right {n = 2} (omega arith) {i = 10} {j = i} lo in
    let most = pow-le-pow_right {n = 2} (omega arith) {i = i} {j = 18} hi in
    elim (Bool-cases (2 ^ i == t.dir_size)) [
      | inl same ↦
          let size = ==→eq _ _ same in
          (t, rw (allowed, found, is, same), sized, omega arith, omega arith, ground arith)
      | inr other ↦
          let (t', made, sized', size) = resize-WellSized t i (omega arith) in
          (t', rw (allowed, found, is, other) made, sized', omega arith, omega arith, ground arith)
    ]

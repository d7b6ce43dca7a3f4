-- ===== src/Unchained/Offsets.antt =====
-- Prefix sums: where each directory slot starts and ends.
use mathlib.Core.Path.{subst}
use sigmod_runtime_engine.Base.{
  ℕ, zero, suc, ◌+◌, ◌-◌, ◌^◌, ◌≤◌, ◌<◌, ◌≡◌, refl, sym, ap, ◌∙◌, inl, inr, List, arith, ◌==◌,
  ==→eq, ==→ne, Bool-cases, length, get_or, set, replicate, length-set, length-replicate,
  get_or-set_self, get_or-set_ne, u32,
}
use sigmod_runtime_engine.Unchained.{FlatTable}
use sigmod_runtime_engine.Unchained.Phases.{end_pointers, start_pointers, write_starts}

-- The sum of `g i` over the slots below `n`.
unfoldable pub below : (ℕ → ℕ) → ℕ → ℕ
below g zero = 0
below g (suc n) = below g n + g n

pub below-suc : (g : ℕ → ℕ) (n : ℕ) → below g (n + 1) ≡ below g n + g n
unfolding below
below-suc g n = let e : n + 1 ≡ suc n = omega arith in rw e

pub below_mono : (g : ℕ → ℕ) (m k : ℕ) → below g m ≤ below g (m + k)
below_mono g m zero = let e : m + zero ≡ m = omega arith in rw e (omega arith)
below_mono g m (suc k) =
    let e : m + suc k ≡ m + k + 1 = omega arith in
    rw e (omega (arith, below-suc g (m + k), below_mono g m k))

-- A slot ends before any later slot starts.
pub below-lt : (g : ℕ → ℕ) (s s' : ℕ) → s < s' → below g s + g s ≤ below g s'
below-lt g s s' h =
    let e : s + 1 + (s' - (s + 1)) ≡ s' = omega arith in
    omega (arith, below-suc g s, rw e at (below_mono g (s + 1) (s' - (s + 1))))

pub below-le : (g : ℕ → ℕ) (m n : ℕ) → m ≤ n → below g m ≤ below g n
below-le g m n h = let e : m + (n - m) ≡ n = omega arith in rw e at (below_mono g m (n - m))

pub below-zero : (g : ℕ → ℕ) → below g 0 ≡ 0
unfolding below
below-zero g = refl

-- What the loop has made of `offsets` when it starts at slot `i`: the end of each slot from there
-- on, and the sum of all counts.
pub record Summed (g : ℕ → ℕ) (size i : ℕ) (offsets : List ℕ) (r : List ℕ × ℕ) : Type 0 where
  pub total : r.1 ≡ below g size
  pub width : length r.0 ≡ size
  pub later : (s : ℕ) → i ≤ s → s < size → get_or r.0 s 0 ≡ below g (s + 1)
  pub earlier : (s : ℕ) → s < i → get_or r.0 s 0 ≡ get_or offsets s 0

module _ (g : ℕ → ℕ) (counts : List ℕ) (size : ℕ)
    (counted : (i : ℕ) → i < size → get_or counts i 0 ≡ g i) (small : below g size < 2 ^ 32) where
  pub end_pointers-Summed :
      (rounds i : ℕ) (offsets : List ℕ)
      → i + rounds ≡ size
      → length offsets ≡ size
      → Summed g size i offsets (end_pointers rounds i (below g i) counts offsets)
  unfolding end_pointers
  end_pointers-Summed zero i offsets e long =
      let all : i ≡ size = omega arith in
      record {
        total = ap (below g) all;
        width = long;
        later = λ s p q. absurd (omega arith);
        earlier = λ s p. refl;
      }
  end_pointers-Summed (suc rounds) i offsets e long =
      let within : below g (i + 1) ≤ below g size = below-le g (i + 1) size (omega arith) in
      let sum : u32 (below g i + get_or counts i 0) ≡ below g (i + 1) =
        rw (counted i (omega arith)) (omega (arith, below-suc g i)) in
      let rest =
        end_pointers-Summed rounds (i + 1) (set offsets i (below g (i + 1))) (omega arith)
          (length-set offsets i (below g (i + 1)) ∙ long) in
      subst (λ v. Summed g size i offsets (end_pointers rounds (i + 1) v counts (set offsets i v)))
        (sym sum)
        (record {
          total = rest.total;
          width = rest.width;
          later = λ s p q. elim (Bool-cases (s == i)) [
            | inl same ↦
                let is = ==→eq _ _ same in
                rw (is, rest.earlier i (omega arith)) (get_or-set_self offsets i _ 0 (omega arith))
            | inr other ↦ rest.later s (omega (arith, ==→ne _ _ other)) q
          ];
          earlier =
              λ s p. rest.earlier s (omega arith) ∙ get_or-set_ne offsets i s _ 0 (omega arith);
        })

  module _ (offsets : List ℕ)
      (ends : (s : ℕ) → s < size → get_or offsets s 0 ≡ below g (s + 1)) where
    start_pointers_loop :
        (rounds i : ℕ) (ptrs : List ℕ)
        → 1 ≤ i
        → i + rounds ≡ size
        → length ptrs ≡ size
        → ((s : ℕ) → s < i → get_or ptrs s 0 ≡ below g s)
        → (length (start_pointers rounds i offsets ptrs) ≡ size)
          × ((s : ℕ) → s < size → get_or (start_pointers rounds i offsets ptrs) s 0 ≡ below g s)
    unfolding start_pointers
    start_pointers_loop zero i ptrs one e long done = (long, λ s p. done s (omega arith))
    start_pointers_loop (suc rounds) i ptrs one e long done =
        let value = get_or offsets (i - 1) 0 in
        let back : i - 1 + 1 ≡ i = omega arith in
        let is : value ≡ below g i = rw back at (ends (i - 1) (omega arith)) in
        start_pointers_loop rounds (i + 1) (set ptrs i value) (omega arith) (omega arith)
          (length-set ptrs i value ∙ long)
          (λ s p. elim (Bool-cases (s == i)) [
            | inl same ↦
                let here = ==→eq _ _ same in
                rw (here, ← is) (get_or-set_self ptrs i value 0 (omega arith))
            | inr other ↦
                let not_here = ==→ne _ _ other in
                get_or-set_ne ptrs i s value 0 (omega arith) ∙ done s (omega arith)
          ])

    -- Every slot's write pointer starts where the slot does.
    pub write_starts-below :
        (t : FlatTable)
        → t.dir_size ≡ size
        → 0 < size
        → (length (write_starts t offsets) ≡ size)
          × ((s : ℕ) → s < size → get_or (write_starts t offsets) s 0 ≡ below g s)
    unfolding write_starts
    write_starts-below t e pos = elim (Bool-cases (length t.write_ptrs == t.dir_size)) [
      | inl fits ↦ rw (fits, e) (from t.write_ptrs (==→eq _ _ fits ∙ e))
      | inr other ↦ rw (other, e) (from (replicate size 0) (length-replicate size 0))
    ]
      where
        from :
            (ptrs : List ℕ)
            → length ptrs ≡ size
            → (length (start_pointers (size - 1) 1 offsets (set ptrs 0 0)) ≡ size)
              × ((s : ℕ)
                  → s < size
                  → get_or (start_pointers (size - 1) 1 offsets (set ptrs 0 0)) s 0 ≡ below g s)
        from ptrs long =
            start_pointers_loop (size - 1) 1 (set ptrs 0 0) (omega arith) (omega arith)
              (length-set ptrs 0 0 ∙ long)
              (λ s p.
                let first : s ≡ 0 = omega arith in
                rw (first, below-zero g) (get_or-set_self ptrs 0 0 0 (omega arith)))

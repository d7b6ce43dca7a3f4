-- ===== src/Unchained/Totals.antt =====
-- Every tuple is counted in exactly one slot of the directory.
use sigmod_runtime_engine.Base.{
  ℕ, zero, suc, ◌<◌, ◌≡◌, refl, List, [], ◌∷◌, arith, ltb, ◌==◌, if◌then◌else◌, length, shr,
}
use sigmod_runtime_engine.Bits.{bit_and_mask}
use native.Mathlib.Nat.{mod-lt}
use sigmod_runtime_engine.Unchained.{HashEntry, FlatTable}
use sigmod_runtime_engine.Unchained.Phases.{slot_of}
use sigmod_runtime_engine.Unchained.Sizing.{WellSized, two-pow-pos}
use sigmod_runtime_engine.Unchained.Tally.{in_slot}
use sigmod_runtime_engine.Unchained.Offsets.{below}

-- The slot of any key lies in the directory.
pub slot_of-lt :
    (hash : ℕ → ℕ) (t : FlatTable) (key : ℕ) → WellSized t → slot_of hash t key < t.dir_size
unfolding slot_of
slot_of-lt hash t key w =
    rw (w.mask_is, w.size_is, bit_and_mask w.power (shr (hash key) t.shift))
      (mod-lt _ (two-pow-pos w.power))

-- One more in one slot is one more in the sum.
below_bump :
    (g g' : ℕ → ℕ) (t n : ℕ)
    → ((s : ℕ) → g' s ≡ (if t == s then suc (g s) else g s))
    → below g' n ≡ (if ltb t n then suc (below g n) else below g n)
unfolding below
below_bump g g' t zero h = ground arith
below_bump g g' t (suc n) h = ground (arith, below_bump g g' t n h, h n)

below_nothing : (n : ℕ) → below (λ _. 0) n ≡ 0
unfolding below
below_nothing zero = refl
below_nothing (suc n) = omega (arith, below_nothing n)

pub below-in_slot :
    (hash : ℕ → ℕ) (t : FlatTable) (size : ℕ)
    → ((k : ℕ) → slot_of hash t k < size)
    → (es : List HashEntry) → below (λ s. length (in_slot hash t s es)) size ≡ length es
below-in_slot hash t size homed [] = below_nothing size
below-in_slot hash t size homed (e ∷ es) =
    let slot = slot_of hash t e.key in
    let bump =
      below_bump (λ s. length (in_slot hash t s es)) (λ s. length (in_slot hash t s (e ∷ es))) slot
        size (λ s. cons s) in
    ground (arith, bump, homed e.key, below-in_slot hash t size homed es)
  where
    cons :
        (s : ℕ)
        → length (in_slot hash t s (e ∷ es)) ≡ (
            if slot_of hash t e.key == s
            then suc (length (in_slot hash t s es))
            else length (in_slot hash t s es))
    cons s = ground arith

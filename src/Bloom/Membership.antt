-- ===== src/Bloom/Membership.antt =====
-- The membership test on filters: what `maybe_contains` looks at, for the tag of a hash.
use native.Mathlib.Nat.{pow-le-pow_right}
use sigmod_runtime_engine.Base.{
  ℕ, ◌/◌, ◌%◌, ◌^◌, ◌≤◌, ◌<◌, max, bit_and, bit_or, ◌≡◌, refl, sym, ap, ◌∙◌, inl, inr, true, ◌&&◌,
  arith, ◌==◌, if◌then◌else◌, ==→eq, ==→ne, ==_refl, Bool-cases, u16, u32, shl, shr,
}
use sigmod_runtime_engine.Bits.{bit_and_mask}
use sigmod_runtime_engine.Bitmap.{has_bit}
use sigmod_runtime_engine.Bitmap.Digits.{
  digit, bit_and_same, digit-le, digit-bit_and, digit-bit_or, digit_pow, digit-mod, has_bit-digit,
}
use sigmod_runtime_engine.Bloom.{make_tag_from_hash, maybe_contains}

digit_inside : (x a k : ℕ) → bit_and x a ≡ a → digit a k ≤ digit x k
digit_inside x a k h = omega (arith, digit-bit_and x a k, ap (λ r. digit r k) h)

-- The bit of the filter that four bits of the hash choose, from bit `n` on.
unfoldable pub chosen : ℕ → ℕ → ℕ
chosen h n = h / 2 ^ n % 16

-- The tag of four places, as `make_tag_from_hash` builds it.
tag_of : ℕ → ℕ → ℕ → ℕ → ℕ
tag_of b1 b2 b3 b4 =
    u16
      (bit_or (bit_or (bit_or (u32 (shl 1 b1)) (u32 (shl 1 b2))) (u32 (shl 1 b3))) (u32 (shl 1 b4)))

shifted : (b : ℕ) → b < 16 → u32 (shl 1 b) ≡ 2 ^ b
shifted b h =
    let small = pow-le-pow_right {n = 2} (omega arith) {i = b} {j = 15} (omega arith) in omega arith

place : ℕ → ℕ → ℕ
place b k = if b == k then 1 else 0

place_self : (b : ℕ) → place b b ≡ 1
unfolding place
place_self b = rw (==_refl b) refl

-- Its digits: 1 in the four places, and 0 elsewhere.
digit-tag_of :
    (b1 b2 b3 b4 k : ℕ)
    → b1 < 16
    → b2 < 16
    → b3 < 16
    → b4 < 16
    → k < 16
    → digit (tag_of b1 b2 b3 b4) k
      ≡ max (max (max (place b1 k) (place b2 k)) (place b3 k)) (place b4 k)
unfolding tag_of place
digit-tag_of b1 b2 b3 b4 k h1 h2 h3 h4 hk =
    let one = bit_or (2 ^ b1) (2 ^ b2) in
    let two = bit_or one (2 ^ b3) in
    rw (shifted b1 h1, shifted b2 h2, shifted b3 h3, shifted b4 h4)
      (digit-mod 16 (bit_or two (2 ^ b4)) k hk
        ∙ rw
            (
              digit-bit_or two (2 ^ b4) k,
              digit-bit_or one (2 ^ b3) k,
              digit-bit_or (2 ^ b1) (2 ^ b2) k,
              digit_pow b1 k,
              digit_pow b2 k,
              digit_pow b3 k,
              digit_pow b4 k,
            )
            refl)

module _ (bloom : ℕ) where
  place-le : (b k : ℕ) → has_bit bloom b ≡ true → place b k ≤ digit bloom k
  unfolding place
  place-le b k h = elim (Bool-cases (b == k)) [
    | inl same ↦
        let e = has_bit-digit bloom b in
        let one : digit bloom b ≡ 1 = ==→eq _ _ (sym e ∙ h) in
        rw same (omega (arith, one, ap (digit bloom) (==→eq b k same)))
    | inr other ↦ rw other (omega arith)
  ]

  module _ (b1 b2 b3 b4 : ℕ) (h1 : b1 < 16) (h2 : b2 < 16) (h3 : b3 < 16) (h4 : b4 < 16) where
    has_bit_of :
        (k : ℕ)
        → bit_and bloom (tag_of b1 b2 b3 b4) ≡ tag_of b1 b2 b3 b4
        → k < 16
        → 1 ≤ max (max (max (place b1 k) (place b2 k)) (place b3 k)) (place b4 k)
        → has_bit bloom k ≡ true
    has_bit_of k same hk there =
        let one : digit bloom k ≡ 1 = omega (
          arith,
          digit-tag_of b1 b2 b3 b4 k h1 h2 h3 h4 hk,
          digit_inside bloom (tag_of b1 b2 b3 b4) k same,
          digit-le bloom k,
        ) in
        has_bit-digit bloom k ∙ rw one refl

    all_inside :
        has_bit bloom b1 ≡ true
        → has_bit bloom b2 ≡ true
        → has_bit bloom b3 ≡ true
        → has_bit bloom b4 ≡ true
        → bit_and bloom (tag_of b1 b2 b3 b4) ≡ tag_of b1 b2 b3 b4
    all_inside s1 s2 s3 s4 =
        bit_and_same 16 bloom (tag_of b1 b2 b3 b4) (unfold tag_of in omega arith) (λ k hk. omega (
          arith,
          digit-tag_of b1 b2 b3 b4 k h1 h2 h3 h4 hk,
          place-le b1 k s1,
          place-le b2 k s2,
          place-le b3 k s3,
          place-le b4 k s4,
        ))

    maybe_contains-tag_of :
        maybe_contains bloom (tag_of b1 b2 b3 b4)
        ≡ (has_bit bloom b1 && (has_bit bloom b2 && (has_bit bloom b3 && has_bit bloom b4)))
    unfolding maybe_contains
    maybe_contains-tag_of =
        let tag = tag_of b1 b2 b3 b4 in
        elim (Bool-cases (bit_and bloom tag == tag)) [
          | inl within ↦
              let same = ==→eq _ _ within in
              rw
                (
                  within,
                  has_bit_of b1 same h1 (omega (arith, place_self b1)),
                  has_bit_of b2 same h2 (omega (arith, place_self b2)),
                  has_bit_of b3 same h3 (omega (arith, place_self b3)),
                  has_bit_of b4 same h4 (omega (arith, place_self b4)),
                )
                refl
          | inr without ↦ ground (arith, all_inside, ==→ne _ _ without)
        ]

-- For every filter and hash, `maybe_contains` of the hash's tag answers yes exactly if the filter has
-- all four bits set whose numbers are the four bits of the hash from bit 4, 12, 20 and 28 on.
pub maybe_contains-make_tag_from_hash :
    (bloom h : ℕ)
    → maybe_contains bloom (make_tag_from_hash h) ≡ (
        has_bit bloom (chosen h 4)
        && (has_bit bloom (chosen h 12)
            && (has_bit bloom (chosen h 20) && has_bit bloom (chosen h 28))))
unfolding make_tag_from_hash chosen
maybe_contains-make_tag_from_hash bloom h =
    let cut : (n : ℕ) → u16 (bit_and (shr h n) 0xf) ≡ h / 2 ^ n % 16 =
      λ n. omega (arith, bit_and_mask 4 (shr h n)) in
    rw (cut 4, cut 12, cut 20, cut 28)
      (unfold tag_of in
        maybe_contains-tag_of bloom (h / 2 ^ 4 % 16) (h / 2 ^ 12 % 16) (h / 2 ^ 20 % 16)
          (h / 2 ^ 28 % 16) (omega arith) (omega arith) (omega arith) (omega arith))

-- ===== src/Scan/Nulls.antt =====
-- `column_has_nulls` and the bits of the rows.
use native.Mathlib.Nat.{one-le-pow, pow-le-pow_right}
use sigmod_runtime_engine.Base.{
  ℕ, zero, suc, ◌+◌, ◌-◌, ◌*◌, ◌/◌, ◌%◌, ◌^◌, ◌≤◌, ◌<◌, bit_and, ◌≡◌, refl, sym, ◌∙◌, ◌↔◌, inl, inr,
  true, false, not, ◌&&◌, List, [], ◌∷◌, arith, ltb, ◌==◌, ltb→lt, ltb→le, ==→eq, ==_refl,
  Bool-cases, u8, shl,
}
use sigmod_runtime_engine.Pages.{Page, page_size, DataType}
use sigmod_runtime_engine.Bitmap.{has_bit}
use sigmod_runtime_engine.Bitmap.Digits.{digit, digit-le, digit_beyond, bit_and_same, has_bit-digit}
use sigmod_runtime_engine.Scan.{
  num_rows, bitmap_bytes, get_bitmap, expected_bits, bytes_have_nulls, pages_have_nulls,
  column_has_nulls,
}
use sigmod_runtime_engine.Scan.Whole.{get_bitmap_set}

-- Every row of every page has its bit set.
pub AllPresent : List Page → Type 0
AllPresent [] = Unit
AllPresent (page ∷ pages) =
    ((i : ℕ) → i < num_rows page → get_bitmap page (num_rows page) i ≡ true) × AllPresent pages

expected_bits-lt : (rows j : ℕ) → expected_bits rows j < 2 ^ 8
unfolding expected_bits
expected_bits-lt rows j = ground arith

-- Bits that are expected belong to rows.
expected_row :
    (rows j k : ℕ)
    → j < bitmap_bytes rows
    → k < 8
    → 1 ≤ digit (expected_bits rows j) k
    → 8 * j + k < rows
unfolding expected_bits bitmap_bytes
expected_row rows j k hj hk some_bit =
    elim (Bool-cases (j == (rows + 7) / 8 - 1 && not (rows % 8 == 0))) [
      | inr full ↦ ground arith
      | inl partial ↦ elim (Bool-cases (ltb k (rows % 8))) [
        | inl inside ↦ ground arith
        | inr beyond ↦
            let most =
              pow-le-pow_right {n = 2} (omega arith) {i = rows % 8} {j = k} (ltb→le _ _ beyond) in
            let small =
              pow-le-pow_right {n = 2} (omega arith) {i = rows % 8} {j = 7} (omega arith) in
            let pos = one-le-pow (rows % 8) 2 (omega arith) in
            let none_of = digit_beyond k (u8 (shl 1 (rows % 8) - 1)) (omega arith) in
            absurd (omega (arith, none_of, rw partial at some_bit))
      ]
    ]

module _ (page : Page)
    (present : (i : ℕ) → i < num_rows page → get_bitmap page (num_rows page) i ≡ true) where
  byte_covers :
      (j : ℕ)
      → j < bitmap_bytes (num_rows page)
      → bit_and
          (page (page_size - bitmap_bytes (num_rows page) + j))
          (expected_bits (num_rows page) j)
        ≡ expected_bits (num_rows page) j
  byte_covers j hj =
      let rows = num_rows page in
      let byte = page (page_size - bitmap_bytes rows + j) in
      bit_and_same 8 byte (expected_bits rows j) (expected_bits-lt rows j) (λ k hk.
        elim (Bool-cases (ltb (digit (expected_bits rows j) k) 1)) [
          | inl clear ↦ omega (arith, ltb→lt _ _ clear)
          | inr set_bit ↦
              let row = expected_row rows j k hj hk (ltb→le _ _ set_bit) in
              let q : (8 * j + k) / 8 ≡ j = omega arith in
              let r : (8 * j + k) % 8 ≡ k = omega arith in
              let at_row : has_bit (page (page_size - bitmap_bytes rows + (8 * j + k) / 8))
                    ((8 * j + k) % 8)
                  ≡ true =
                unfold get_bitmap has_bit in present (8 * j + k) row in
              let there : has_bit byte k ≡ true = rw (q, r) at at_row in
              let one : digit byte k ≡ 1 = ==→eq _ _ (sym (has_bit-digit byte k) ∙ there) in
              omega (arith, one, digit-le (expected_bits rows j) k)
        ])

  no_nulls :
      (n j : ℕ)
      → j + n ≤ bitmap_bytes (num_rows page)
      → bytes_have_nulls page (num_rows page) j n ≡ false
  unfolding bytes_have_nulls
  no_nulls zero j h = refl
  no_nulls (suc n) j h =
      rw (byte_covers j (omega arith), ==_refl (expected_bits (num_rows page) j))
        (no_nulls n (j + 1) (omega arith))

present-AllPresent : (pages : List Page) → pages_have_nulls pages ≡ false → AllPresent pages
unfolding AllPresent pages_have_nulls
present-AllPresent [] h = tt
present-AllPresent (page ∷ pages) h =
    (get_bitmap_set page (ground arith), present-AllPresent pages (ground arith))

pages_have_nulls-AllPresent :
    (pages : List Page) → AllPresent pages → pages_have_nulls pages ≡ false
unfolding AllPresent pages_have_nulls
pages_have_nulls-AllPresent [] present = refl
pages_have_nulls-AllPresent (page ∷ pages) present =
    rw
      (
        no_nulls page present.0 (bitmap_bytes (num_rows page)) 0 (omega arith),
        pages_have_nulls-AllPresent pages present.1,
      )
      refl

-- For a column of 32-bit integers, `column_has_nulls` answers no exactly if the bitmap of every page
-- has the bit of each row of the page set, whatever the bits behind the last row are.
pub column_has_nulls-AllPresent :
    (pages : List Page)
    → (column_has_nulls (record { type = DataType.int32; pages = pages }) ≡ false)
      ↔ AllPresent pages
unfolding column_has_nulls
column_has_nulls-AllPresent pages = (present-AllPresent pages, pages_have_nulls-AllPresent pages)

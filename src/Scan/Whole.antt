-- ===== src/Scan/Whole.antt =====
-- A column in whose bitmaps `column_has_nulls` finds no NULL: its words are its 32-bit integers in
-- order, which are the values that a zero-copy column has.
use native.Mathlib.Nat.{one-le-pow, pow-le-pow_right}
use mathlib.Core.Path.{ap₂}
use mathlib.Core.List.{map-append}
use sigmod_runtime_engine.Base.{
  ℕ, zero, suc, ◌+◌, ◌-◌, ◌/◌, ◌%◌, ◌^◌, ◌≤◌, ◌<◌, bit_and, ◌≡◌, refl, sym, ap, ◌∙◌, inl, inr, true,
  false, not, ◌&&◌, List, [], ◌∷◌, ◌++◌, map, arith, ◌==◌, ==→eq, ==→ne, Bool-cases, length, u8,
  u64, shl,
}
use sigmod_runtime_engine.Pages.{Page, page_size, DataType, int32_at, int32s}
use sigmod_runtime_engine.Values.{make_i32}
use sigmod_runtime_engine.Bitmap.{has_bit}
use sigmod_runtime_engine.Bitmap.Digits.{
  digit, digit-le, digit-bit_and, digit_flip, digit_zero, has_bit-digit,
}
use sigmod_runtime_engine.Unchained.ZeroCopy.{page_rows}
use sigmod_runtime_engine.Columnar.Source.{column_values}
use sigmod_runtime_engine.Scan.{
  num_rows, bitmap_bytes, get_bitmap, expected_bits, bytes_have_nulls, pages_have_nulls,
  offsets_from,
}
use sigmod_runtime_engine.Scan.Offsets.{total_rows}
use sigmod_runtime_engine.Scan.Words.{rank, row_word, row_words, page_words, pages_words}

-- The bits below `r` of `r` ones.
digit_ones : (r k : ℕ) → k < r → digit (2 ^ r - 1) k ≡ 1
digit_ones r k h =
    let all : 2 ^ r - 1 - 0 ≡ 2 ^ r - 1 = omega arith in
    sym (ap (λ x. digit x k) all)
    ∙ (omega (arith, digit_flip r 0 k (one-le-pow r 2 (omega arith)) h, digit_zero k))

-- The bit of every row is among those that a bitmap without NULLs has.
digit-expected_bits : (rows i : ℕ) → i < rows → digit (expected_bits rows (i / 8)) (i % 8) ≡ 1
unfolding expected_bits bitmap_bytes
digit-expected_bits rows i h =
    elim (Bool-cases (i / 8 == (rows + 7) / 8 - 1 && not (rows % 8 == 0))) [
      | inr full ↦ rw full (digit_ones 8 (i % 8) (omega arith))
      | inl partial ↦
          let r : ℕ = rows % 8 in
          let inside : i % 8 < rows % 8 = ground arith in
          let small = pow-le-pow_right {n = 2} (omega arith) {i = rows % 8} {j = 7} (omega arith) in
          let ones : u8 (shl 1 (rows % 8) - 1) ≡ 2 ^ (rows % 8) - 1 = omega arith in
          rw (partial, ones) (digit_ones (rows % 8) (i % 8) inside)
    ]

module _ (page : Page) where
  byte-expected :
      (n i j : ℕ)
      → bytes_have_nulls page (num_rows page) i n ≡ false
      → i ≤ j
      → j < i + n
      → bit_and
          (page (page_size - bitmap_bytes (num_rows page) + j))
          (expected_bits (num_rows page) j)
        ≡ expected_bits (num_rows page) j
  unfolding bytes_have_nulls
  byte-expected zero i j h from until = absurd (omega arith)
  byte-expected (suc n) i j h from until = elim (Bool-cases (i == j)) [
    | inl same ↦
        let expected = expected_bits (num_rows page) i in
        let byte = page (page_size - bitmap_bytes (num_rows page) + i) in
        let kept : (bit_and byte expected == expected) ≡ true = ground arith in
        rw (==→eq i j same) at (==→eq _ _ kept)
    | inr other ↦
        let ne = ==→ne _ _ other in
        byte-expected n (i + 1) j (ground arith) (omega arith) (omega arith)
  ]

  module _
      (whole : bytes_have_nulls page (num_rows page) 0 (bitmap_bytes (num_rows page)) ≡ false) where
    pub get_bitmap_set : (i : ℕ) → i < num_rows page → get_bitmap page (num_rows page) i ≡ true
    unfolding get_bitmap has_bit
    get_bitmap_set i h =
        let rows = num_rows page in
        let byte = page (page_size - bitmap_bytes rows + i / 8) in
        let last : i / 8 < 0 + bitmap_bytes rows = unfold bitmap_bytes in omega arith in
        let same = byte-expected (bitmap_bytes rows) 0 (i / 8) whole (omega arith) last in
        let one : digit byte (i % 8) ≡ 1 = omega (
          arith,
          digit-expected_bits rows i h,
          digit-bit_and byte (expected_bits rows (i / 8)) (i % 8),
          ap (λ x. digit x (i % 8)) same,
          digit-le byte (i % 8),
        ) in
        has_bit-digit byte (i % 8) ∙ rw one refl

    rank_whole : (i : ℕ) → i ≤ num_rows page → rank page i ≡ i
    unfolding rank
    rank_whole zero h = refl
    rank_whole (suc i) h =
        rw (get_bitmap_set i (omega arith)) (omega (arith, rank_whole i (omega arith)))

    row_words_whole :
        (n i : ℕ)
        → i + n ≤ num_rows page
        → row_words page (λ slot. make_i32 (int32_at page slot)) i n
          ≡ map make_i32 (int32s page i n)
    unfolding row_words row_word int32s
    row_words_whole zero i h = refl
    row_words_whole (suc n) i h =
        let there = get_bitmap_set i (omega arith) in
        let place = rank_whole i (omega arith) in
        rw (there, place, row_words_whole n (i + 1) (omega arith)) refl

-- The integers on the pages.
unfoldable pub pages_int32s : List Page → List ℕ
pages_int32s [] = []
pages_int32s (page ∷ pages) = int32s page 0 (num_rows page) ++ pages_int32s pages

pub pages_words_whole :
    (pages : List Page) (table_id in_col_idx page_idx : ℕ)
    → pages_have_nulls pages ≡ false
    → pages_words DataType.int32 table_id in_col_idx page_idx pages
      ≡ map make_i32 (pages_int32s pages)
unfolding pages_words page_words pages_int32s pages_have_nulls
pages_words_whole [] table_id in_col_idx page_idx h = refl
pages_words_whole (page ∷ pages) table_id in_col_idx page_idx h =
    rw
      (
        row_words_whole page (ground arith) (num_rows page) 0 (omega arith),
        pages_words_whole pages table_id in_col_idx (page_idx + 1) (ground arith),
      )
      (sym (map-append make_i32 (int32s page 0 (num_rows page)) (pages_int32s pages)))

-- A first page that is not read does not matter.
column_values-cons :
    (page : Page) (pages : List Page) (o : ℕ) (os : List ℕ) (n i : ℕ)
    → column_values (page ∷ pages) (o ∷ os) (suc i) n ≡ column_values pages os i n
unfolding column_values
column_values-cons page pages o os zero i = refl
column_values-cons page pages o os (suc n) i =
    let e : suc i + 1 ≡ suc (i + 1) = omega arith in
    let same : page_rows (o ∷ os) (suc i) ≡ page_rows os i = unfold page_rows in rw e refl in
    rw (e, same, column_values-cons page pages o os n (i + 1)) refl

pub column_values-pages_int32s :
    (pages : List Page) (cum : ℕ)
    → cum + total_rows pages < 2 ^ 64
    → column_values pages (cum ∷ offsets_from cum pages) 0 (length pages) ≡ pages_int32s pages
unfolding column_values pages_int32s total_rows offsets_from
column_values-pages_int32s [] cum few = refl
column_values-pages_int32s (page ∷ pages) cum few =
    let next : ℕ = cum + num_rows page in
    let os : List ℕ = next ∷ offsets_from next pages in
    let sum : u64 (cum + num_rows page) ≡ next = omega arith in
    let rows : page_rows (cum ∷ os) 0 ≡ num_rows page = unfold page_rows in omega arith in
    let rest : column_values (page ∷ pages) (cum ∷ os) 1 (length pages) ≡ pages_int32s pages =
      column_values-cons page pages cum os (length pages) 0
      ∙ column_values-pages_int32s pages next (omega arith) in
    ap (λ k. column_values (page ∷ pages) (cum ∷ k ∷ offsets_from k pages) 0 (suc (length pages)))
      sum
    ∙ ap₂ (λ n vs. int32s page 0 n ++ vs) rows rest

-- ===== src/InnerColumn/StringRows.antt =====
-- String columns that grow: what `push_back` and `push_back_null` make of the rows.
use sigmod_runtime_engine.Base.{
  ℕ, zero, suc, ◌+◌, ◌-◌, ◌/◌, ◌≤◌, ◌<◌, ◌≡◌, refl, sym, ap, ◌∙◌, inl, inr, Bool, true, false,
  Option, none, some, List, [], ◌∷◌, ◌++◌, arith, leb, ◌==◌, if◌then◌else◌, ==→eq, ==→ne,
  Bool-cases, length, get_or, length-append, get_or-append_left, get_or-append_right,
}
use sigmod_runtime_engine.Bitmap.{bit_of}
use sigmod_runtime_engine.Bitmap.Rows.{IsBitmap}
use sigmod_runtime_engine.Bitmap.Push.{pushed, pushed-IsBitmap, bit_of-pushed}
use sigmod_runtime_engine.InnerColumn.Strings.{
  StringColumn, substring, bitmap_push_back, push_back, push_back_null, is_not_null, get,
}

substring-append_left :
    (xs ys : List ℕ) (begin count : ℕ)
    → (0 < count → begin + count ≤ length xs)
    → substring (xs ++ ys) begin count ≡ substring xs begin count
substring-append_left xs ys begin zero h = refl
substring-append_left xs ys begin (suc count) h =
    rw
      (
        get_or-append_left xs ys begin 0 (omega (arith, h (omega arith))),
        substring-append_left xs ys (suc begin) count (λ more. omega (arith, h (omega arith))),
      )
      refl

substring-suc :
    (x : ℕ) (xs : List ℕ) (begin count : ℕ)
    → substring (x ∷ xs) (suc begin) count ≡ substring xs begin count
substring-suc x xs begin zero = refl
substring-suc x xs begin (suc count) = rw (substring-suc x xs (suc begin) count) refl

substring_all : (ys : List ℕ) → substring ys 0 (length ys) ≡ ys
substring_all [] = refl
substring_all (y ∷ ys) = rw (substring-suc y ys 0 (length ys), substring_all ys) refl

substring-append_right : (xs ys : List ℕ) → substring (xs ++ ys) (length xs) (length ys) ≡ ys
substring-append_right [] ys = substring_all ys
substring-append_right (x ∷ xs) ys =
    substring-suc x (xs ++ ys) (length xs) (length ys) ∙ substring-append_right xs ys

-- Where a row's characters begin.
unfoldable pub begin_of : List ℕ → ℕ → ℕ
begin_of offsets i = if i == 0 then 0 else get_or offsets (i - 1) 0

-- A column of `row` strings, one after the other.
unfoldable pub IsStrings : StringColumn → Type 0
IsStrings c =
    IsBitmap ((c.row + 7) / 8) c.bitmap
    × (length c.offsets ≡ c.row)
    × (begin_of c.offsets c.row ≡ length c.chars)
    × ((i : ℕ) → begin_of c.offsets i ≤ length c.chars)

unfoldable pub value_of : StringColumn → ℕ → Option (List ℕ)
value_of c row = if is_not_null c row then some (get c row) else none

begin_of-append :
    (offsets : List ℕ) (n i : ℕ)
    → i ≤ length offsets
    → begin_of (offsets ++ (n ∷ [])) i ≡ begin_of offsets i
unfolding begin_of
begin_of-append offsets n zero h = refl
begin_of-append offsets n (suc i) h =
    let before : suc i - 1 ≡ i = omega arith in
    rw before (
      ap (λ b. if suc i == 0 then 0 else b) (get_or-append_left offsets (n ∷ []) i 0 (omega arith)))

begin_of_last : (offsets : List ℕ) (n : ℕ) → begin_of (offsets ++ (n ∷ [])) (length offsets + 1) ≡ n
unfolding begin_of
begin_of_last offsets n =
    let some_row : (length offsets + 1 == 0) ≡ false = ground arith in
    let last : length offsets + 1 - 1 ≡ length offsets + 0 = omega arith in
    let zero_default : ℕ = 0 in
    rw (some_row, last) (get_or-append_right offsets (n ∷ []) 0 zero_default)

get_or_outside : (xs : List ℕ) (i : ℕ) → length xs ≤ i → get_or xs i 0 ≡ 0
get_or_outside [] i h = refl
get_or_outside (x ∷ xs) zero h = absurd (omega arith)
get_or_outside (x ∷ xs) (suc i) h = get_or_outside xs i (omega arith)

begin_of_beyond :
    (offsets : List ℕ) (n i : ℕ) → length offsets + 1 < i → begin_of (offsets ++ (n ∷ [])) i ≡ 0
unfolding begin_of
begin_of_beyond offsets n i h =
    let some_row : (i == 0) ≡ false = ground arith in
    rw some_row
      (get_or_outside (offsets ++ (n ∷ [])) (i - 1) (omega (arith, length-append offsets (n ∷ []))))

append_nothing : (xs : List ℕ) → xs ++ [] ≡ xs
append_nothing [] = refl
append_nothing (x ∷ xs) = ap (λ rest. x ∷ rest) (append_nothing xs)

suc_begin : (offsets : List ℕ) (row : ℕ) → begin_of offsets (suc row) ≡ get_or offsets row 0
unfolding begin_of
suc_begin offsets row =
    let before : suc row - 1 ≡ row = omega arith in
    let some_row : (suc row == 0) ≡ false = ground arith in rw (some_row, before) refl

-- A string is put behind the others.
module _ (c : StringColumn) (v chars : List ℕ) (is : chars ≡ c.chars ++ v) (wf : IsStrings c) where
  extended : Bool → StringColumn
  extended not_null = record {
    chars = chars;
    offsets = c.offsets ++ (length chars ∷ []);
    bitmap = pushed c.bitmap c.row not_null;
    row = c.row + 1;
  }

  longer : length chars ≡ length c.chars + length v
  longer = ap length is ∙ length-append c.chars v

  begins : (i : ℕ) → begin_of (c.offsets ++ (length chars ∷ [])) i ≤ length chars
  unfolding IsStrings
  begins i = elim (Bool-cases (leb i (length c.offsets))) [
    | inl old ↦
        rw (begin_of-append c.offsets (length chars) i (ground arith))
          (omega (arith, longer, wf.3 i))
    | inr new ↦ elim (Bool-cases (i == length c.offsets + 1)) [
      | inl last ↦
          rw (==→eq i (length c.offsets + 1) last, begin_of_last c.offsets (length chars))
            (omega arith)
      | inr beyond ↦ rw (begin_of_beyond c.offsets (length chars) i (ground arith)) (omega arith)
    ]
  ]

  extended-IsStrings : (not_null : Bool) → IsStrings (extended not_null)
  unfolding IsStrings extended
  extended-IsStrings not_null =
      let size : (c.row + 1 + 7) / 8 ≡ (c.row + 8) / 8 = omega arith in
      let last : c.row + 1 ≡ length c.offsets + 1 = omega (arith, wf.1) in
      (
        rw size (pushed-IsBitmap c.row c.bitmap wf.0 not_null),
        omega (arith, wf.1, length-append c.offsets (length chars ∷ [])),
        ap (begin_of (c.offsets ++ (length chars ∷ []))) last
            ∙ begin_of_last c.offsets (length chars),
        begins,
      )

  -- The strings before it are as they were,
  old_string : (row : ℕ) (not_null : Bool) → row < c.row → get (extended not_null) row ≡ get c row
  unfolding IsStrings extended get begin_of
  old_string row not_null h =
      let start = begin_of-append c.offsets (length chars) row (omega (arith, wf.1)) in
      let stop = get_or-append_left c.offsets (length chars ∷ []) row 0 (omega (arith, wf.1)) in
      let begin : ℕ = begin_of c.offsets row in
      let end : ℕ = get_or c.offsets row 0 in
      let bound : end ≤ length c.chars = rw (suc_begin c.offsets row) at (wf.3 (suc row)) in
      rw (start, stop, is)
        (substring-append_left c.chars v begin (end - begin) (λ more. omega arith))

  -- and it is the last one.
  new_string : (not_null : Bool) → get (extended not_null) c.row ≡ v
  unfolding IsStrings extended get begin_of
  new_string not_null =
      let start = begin_of-append c.offsets (length chars) c.row (omega (arith, wf.1)) in
      let at_end : c.row ≡ length c.offsets + 0 = omega (arith, wf.1) in
      let stop : get_or (c.offsets ++ (length chars ∷ [])) c.row 0 ≡ length chars =
        ap (λ i. get_or (c.offsets ++ (length chars ∷ [])) i 0) at_end
        ∙ get_or-append_right c.offsets (length chars ∷ []) 0 0 in
      let count : length chars - length c.chars ≡ length v = omega (arith, longer) in
      rw (start, stop, wf.2, count, is) (substring-append_right c.chars v)

  extended_bit :
      (not_null : Bool) (row : ℕ)
      → row ≤ c.row
      → is_not_null (extended not_null) row ≡ (if row == c.row then not_null else is_not_null c row)
  unfolding IsStrings extended is_not_null bit_of
  extended_bit not_null row h = bit_of-pushed c.row c.bitmap wf.0 not_null row h

  value_of-extended :
      (not_null : Bool) (row : ℕ)
      → row ≤ c.row
      → value_of (extended not_null) row
        ≡ (if row == c.row then (if not_null then some v else none) else value_of c row)
  unfolding value_of
  value_of-extended not_null row h =
      let bit : is_not_null (extended not_null) row
          ≡ (if row == c.row then not_null else is_not_null c row) =
        extended_bit not_null row h in
      elim (Bool-cases (row == c.row)) [
        | inl same ↦
            let e = ==→eq row c.row same in
            let string : get (extended not_null) row ≡ v =
              ap (get (extended not_null)) e ∙ new_string not_null in
            rw (bit, same, string) refl
        | inr other ↦
            let string : get (extended not_null) row ≡ get c row =
              old_string row not_null (omega (arith, ==→ne row c.row other)) in
            rw (bit, other, string) refl
      ]

-- `after` is `before` with one more row, which holds `last`.
unfoldable pub ExtendsStrings : StringColumn → Option (List ℕ) → StringColumn → Type 0
ExtendsStrings before last after =
    IsStrings after
    × (after.row ≡ before.row + 1)
    × ((row : ℕ)
        → row ≤ before.row
        → value_of after row ≡ (if row == before.row then last else value_of before row))

-- On a well-formed column of strings, `push_back` adds a row that holds the string; the rows before it
-- hold what they held, and the column is well formed.
pub push_back-ExtendsStrings :
    (c : StringColumn) (v : List ℕ) → IsStrings c → ExtendsStrings c (some v) (push_back c v)
unfolding ExtendsStrings push_back bitmap_push_back extended
push_back-ExtendsStrings c v wf = (
  extended-IsStrings c v (c.chars ++ v) refl wf true,
  refl,
  value_of-extended c v (c.chars ++ v) refl wf true,
)

-- On a well-formed column of strings, `push_back_null` adds a row that holds nothing; the rows before
-- it hold what they held, and the column is well formed.
pub push_back_null-ExtendsStrings :
    (c : StringColumn) → IsStrings c → ExtendsStrings c none (push_back_null c)
unfolding ExtendsStrings push_back_null bitmap_push_back extended
push_back_null-ExtendsStrings c wf =
    let same = sym (append_nothing c.chars) in
    (
      extended-IsStrings c [] c.chars same wf false,
      refl,
      value_of-extended c [] c.chars same wf false,
    )

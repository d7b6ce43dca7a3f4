-- ===== src/Resolver/Texts.antt =====
-- StringRefResolver: which strings packed references resolve to.
use sigmod_runtime_engine.Base.{
  ℕ, zero, suc, ◌+◌, ◌-◌, ◌*◌, ◌^◌, ◌<◌, ◌≡◌, refl, sym, ap, ◌∙◌, ◌↔◌, inl, inr, Bool, true, false,
  some, List, [], ◌∷◌, ◌++◌, arith, ltb, leb, ◌==◌, if◌then◌else◌, ==→eq, ==_refl, Bool-cases,
  length, get_or, get_elem?,
}
use sigmod_runtime_engine.Pages.{Page, Column, read_u16}
use sigmod_runtime_engine.Values.{pack, unpack-pack}
use sigmod_runtime_engine.Resolver.{
  pages_from, bytes, is_long, chunk, append_chunks, text, resolve_slot, resolve_pages,
  resolve_column, resolve_table, resolve, same_bytes, same_texts, string_ref_eq,
}

-- Pages that all hold parts of long strings, and pages of which the first holds none.
abbrev pub AllLong : List Page → Type 0
AllLong [] = Unit
AllLong (page ∷ pages) = (is_long page ≡ true) × AllLong pages

abbrev pub Stops : List Page → Type 0
Stops [] = Unit
Stops (page ∷ pages) = is_long page ≡ false

abbrev pub chunks : List Page → List ℕ
chunks [] = []
chunks (page ∷ pages) = chunk page ++ chunks pages

append_chunks-stop : (rest : List Page) → Stops rest → append_chunks rest ≡ []
unfolding append_chunks
append_chunks-stop [] stops = refl
append_chunks-stop (page ∷ rest) stops = rw stops refl

append_chunks-AllLong :
    (run rest : List Page) → AllLong run → Stops rest → append_chunks (run ++ rest) ≡ chunks run
unfolding append_chunks
append_chunks-AllLong [] rest long stops = append_chunks-stop rest stops
append_chunks-AllLong (page ∷ run) rest long stops =
    rw long.0 (ap (λ others. chunk page ++ others) (append_chunks-AllLong run rest long.1 stops))

-- A reference to a slot of a page, and what it refers to.
pub record Place (inputs : List (List Column)) (t c p s : ℕ) : Type 0 where
  pub columns : List Column
  pub column : Column
  pub table_at : get_elem? inputs t ≡ some columns
  pub column_at : get_elem? columns c ≡ some column
  pub fits : (t < 2 ^ 8) × (c < 2 ^ 8) × (p < 2 ^ 32) × (s < 2 ^ 16)

module _ (inputs : List (List Column)) (t c p s : ℕ) (place : Place inputs t c p s) where
  resolve-pack : resolve inputs (pack t c p s) ≡ resolve_pages (pages_from place.column.pages p) s
  unfolding resolve resolve_table resolve_column
  resolve-pack =
      rw
        (
          unpack-pack t c p s place.fits.0 place.fits.1 place.fits.2 place.fits.3,
          place.table_at,
          place.column_at,
        )
        refl

  -- A reference to a page that holds a part of a long string resolves to what the pages from there on
  -- hold, up to the first page that holds none, if the page is in a table and a column of the inputs
  -- and the parts fit their fields.
  pub resolve-chunks :
      (first : Page) (run rest : List Page)
      → pages_from place.column.pages p ≡ first ∷ run ++ rest
      → AllLong (first ∷ run)
      → Stops rest
      → resolve inputs (pack t c p s) ≡ text (chunks (first ∷ run))
  unfolding resolve_pages
  resolve-chunks first run rest is long stops =
      resolve-pack ∙ rw (is, long.0) (ap text (append_chunks-AllLong (first ∷ run) rest long stops))

-- Strings one after the other, from `start` on; `slot` is the first one's slot.
abbrev pub StoredFrom : Page → ℕ → ℕ → ℕ → List (List ℕ) → Type 0
StoredFrom page offsets_end slot start [] = Unit
StoredFrom page offsets_end slot start (s ∷ strings) =
    (read_u16 page (4 + 2 * slot) ≡ start + length s)
    × (bytes page (offsets_end + start) (length s) ≡ s)
    × StoredFrom page offsets_end (suc slot) (start + length s) strings

-- A page that holds whole strings.
unfoldable pub Stored : Page → List (List ℕ) → Type 0
Stored page strings =
    (is_long page ≡ false)
    × (read_u16 page 2 ≡ length strings)
    × StoredFrom page (4 + length strings * 2) 0 0 strings

-- Where the string in the slot `i` slots further begins.
begin_at : Page → ℕ → ℕ → ℕ → ℕ
begin_at page slot start i = if i == 0 then start else read_u16 page (4 + 2 * (slot + i - 1))

begin_at_zero : (page : Page) (slot start : ℕ) → begin_at page slot start 0 ≡ start
unfolding begin_at
begin_at_zero page slot start = refl

begin_at_first :
    (page : Page) (slot : ℕ)
    → begin_at page 0 0 slot ≡ (if slot == 0 then 0 else read_u16 page (4 + 2 * (slot - 1)))
unfolding begin_at
begin_at_first page slot = let here : 0 + slot ≡ slot = omega arith in rw here refl

begin_at-suc :
    (page : Page) (slot start next i : ℕ)
    → read_u16 page (4 + 2 * slot) ≡ next
    → begin_at page slot start (suc i) ≡ begin_at page (suc slot) next i
unfolding begin_at
begin_at-suc page slot start next i h = elim (Bool-cases (i == 0)) [
  | inl zero_more ↦
      let e : slot + suc i - 1 ≡ slot = omega (arith, ==→eq i 0 zero_more) in
      let some_more : (suc i == 0) ≡ false = ground arith in rw (some_more, zero_more, e) h
  | inr more ↦
      let e : slot + suc i - 1 ≡ suc slot + i - 1 = omega arith in
      let some_more : (suc i == 0) ≡ false = ground arith in rw (some_more, more, e) refl
]

module _ (page : Page) (offsets_end : ℕ) where
  stored_end :
      (strings : List (List ℕ)) (slot start i : ℕ)
      → StoredFrom page offsets_end slot start strings
      → i < length strings
      → read_u16 page (4 + 2 * (slot + i))
        ≡ begin_at page slot start i + length (get_or strings i [])
  stored_end [] slot start i stored h = absurd (omega arith)
  stored_end (s ∷ strings) slot start zero stored h =
      let e : slot + 0 ≡ slot = omega arith in rw (e, begin_at_zero page slot start) stored.0
  stored_end (s ∷ strings) slot start (suc i) stored h =
      let e : slot + suc i ≡ suc slot + i = omega arith in
      rw (e, begin_at-suc page slot start (start + length s) i stored.0)
        (stored_end strings (suc slot) (start + length s) i stored.2 (omega arith))

  stored_bytes :
      (strings : List (List ℕ)) (slot start i : ℕ)
      → StoredFrom page offsets_end slot start strings
      → i < length strings
      → bytes page (offsets_end + begin_at page slot start i) (length (get_or strings i []))
        ≡ get_or strings i []
  stored_bytes [] slot start i stored h = absurd (omega arith)
  stored_bytes (s ∷ strings) slot start zero stored h = rw (begin_at_zero page slot start) stored.1
  stored_bytes (s ∷ strings) slot start (suc i) stored h =
      rw (begin_at-suc page slot start (start + length s) i stored.0)
        (stored_bytes strings (suc slot) (start + length s) i stored.2 (omega arith))

Stored-is_long :
    (page : Page) (strings : List (List ℕ)) → Stored page strings → is_long page ≡ false
unfolding Stored
Stored-is_long page strings stored = stored.0

resolve_slot-Stored :
    (page : Page) (strings : List (List ℕ)) (slot : ℕ)
    → Stored page strings
    → slot < length strings
    → resolve_slot page slot ≡ text (get_or strings slot [])
unfolding Stored resolve_slot
resolve_slot-Stored page strings slot (short, count, stored) h =
    let first : ℕ = if slot == 0 then 0 else read_u16 page (4 + 2 * (slot - 1)) in
    let size : ℕ = length (get_or strings slot []) in
    let begin : begin_at page 0 0 slot ≡ first = begin_at_first page slot in
    let here : 0 + slot ≡ slot = omega arith in
    let last = stored_end page (4 + length strings * 2) strings 0 0 slot stored h in
    let stop : read_u16 page (4 + 2 * slot) ≡ first + size = rw (here, begin) at last in
    let string =
      rw begin at (stored_bytes page (4 + length strings * 2) strings 0 0 slot stored h) in
    let inside : leb (length strings) slot ≡ false = ground arith in
    let ordered : ltb (first + size) first ≡ false = ground arith in
    let rest : first + size - first ≡ size = omega arith in
    rw (count, inside, stop, ordered, rest) (ap text string)

-- A reference to a page of whole strings resolves to the string of its slot, if the page is in a table
-- and a column of the inputs, the parts fit their fields and the slot is one of the page's.
pub resolve-Stored :
    (inputs : List (List Column)) (t c p s : ℕ) (place : Place inputs t c p s) (page : Page)
    (pages : List Page) (strings : List (List ℕ))
    → pages_from place.column.pages p ≡ page ∷ pages
    → Stored page strings
    → s < length strings
    → resolve inputs (pack t c p s) ≡ text (get_or strings s [])
unfolding resolve_pages
resolve-Stored inputs t c p s place page pages strings is stored h =
    let short = Stored-is_long page strings stored in
    resolve-pack inputs t c p s place ∙ rw (is, short) (resolve_slot-Stored page strings s stored h)

same_bytes_self : (xs : List ℕ) → same_bytes xs xs ≡ true
same_bytes_self [] = refl
same_bytes_self (x ∷ xs) = rw (==_refl x) (same_bytes_self xs)

same_bytes→eq : (xs ys : List ℕ) → same_bytes xs ys ≡ true → xs ≡ ys
same_bytes→eq [] [] h = refl
same_bytes→eq [] (y ∷ ys) h = absurd (ground arith)
same_bytes→eq (x ∷ xs) [] h = absurd (ground arith)
same_bytes→eq (x ∷ xs) (y ∷ ys) h =
    let first : (x == y) ≡ true = ground arith in
    let rest : same_bytes xs ys ≡ true = ground arith in
    rw (==→eq x y first, same_bytes→eq xs ys rest) refl

text_injective : (x y : List ℕ) → text x ≡ text y → x ≡ y
text_injective x y h = cc

some_injective : (x y : Bool) → some x ≡ some y → x ≡ y
some_injective x y h = cc

-- Two references that resolve to strings are equal for StringRefEq exactly if the strings are equal.
pub string_ref_eq_lem :
    (inputs : List (List Column)) (a b : ℕ) (x y : List ℕ)
    → resolve inputs a ≡ text x
    → resolve inputs b ≡ text y
    → (string_ref_eq (some inputs) a b ≡ some true) ↔ (x ≡ y)
unfolding string_ref_eq same_texts
string_ref_eq_lem inputs a b x y is_a is_b = elim (Bool-cases (a == b)) [
  | inl same ↦
      let e : x ≡ y = text_injective x y (sym is_a ∙ ap (resolve inputs) (==→eq a b same) ∙ is_b) in
      rw same ((λ h. e), (λ h. refl))
  | inr other ↦
      rw (other, is_a, is_b)
        (
          (λ h. same_bytes→eq x y (some_injective (same_bytes x y) true h)),
          (λ e. ap some (ap (same_bytes x) (sym e) ∙ same_bytes_self x)),
        )
]

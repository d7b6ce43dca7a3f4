-- ===== src/Resolver.antt =====
-- StringRefResolver and StringRefEq (src/late_materialization.cpp): the strings that packed references
-- stand for.
pub mod Texts
use sigmod_runtime_engine.Base.{
  ℕ, zero, suc, ◌+◌, ◌-◌, ◌*◌, ◌/◌, ◌%◌, ◌^◌, ◌≤◌, ◌<◌, min, max, bit_and, bit_or, ◌≡◌, refl, sym,
  ap, ◌∙◌, ◌≢◌, ◌↔◌, ◌⊎◌, inl, inr, Bool, true, false, not, ◌&&◌, ◌||◌, Option, none, some, List,
  [], ◌∷◌, ◌++◌, map, arith, ltb, leb, ◌==◌, if◌then◌else◌, ltb→lt, ltb→le, lt→ltb, le→ltb, ==→eq,
  ==→ne, ==_refl, ne→==, Bool-cases, Option-cases, length, get_or, get_elem?, set, replicate,
  select, length-append, length-set, length-replicate, get_or-replicate, get_or-replicate_self,
  get_or-set_self, get_or-set_ne, get_or-append_left, get_or-append_right, select-append,
  select-select, select_hit, select_miss, u8, u16, u32, u64, shl, shr,
}
use sigmod_runtime_engine.Pages.{Page, Column, read_u16}
use sigmod_runtime_engine.Values.{unpack}

-- The pages of a column from a page on; there are none from the end on.
abbrev pub pages_from : List Page → ℕ → List Page
pages_from [] i = []
pages_from (page ∷ pages) zero = page ∷ pages
pages_from (page ∷ pages) (suc i) = pages_from pages i

-- `count` bytes of a page.
abbrev pub bytes : Page → ℕ → ℕ → List ℕ
bytes page begin zero = []
bytes page begin (suc count) = page begin ∷ bytes page (suc begin) count

-- The page holds a part of a long string: 0xffff is the first part, 0xfffe a further one.
unfoldable pub is_long : Page → Bool
is_long page = read_u16 page 0 == 65535 || read_u16 page 0 == 65534

unfoldable pub chunk : Page → List ℕ
chunk page = bytes page 4 (read_u16 page 2)

-- The loop over the pages.
unfoldable pub append_chunks : List Page → List ℕ
append_chunks [] = []
append_chunks (page ∷ pages) =
    let rest = append_chunks pages in if is_long page then chunk page ++ rest else []

-- No string, a string, or an exception of `assign` with a length below 0.
pub data Resolved : Type 0 where
  nothing : Resolved
  text : List ℕ → Resolved
  length_error : Resolved

unfoldable pub resolve_slot : Page → ℕ → Resolved
resolve_slot page slot =
    let num_offsets = read_u16 page 2 in
    let start = if slot == 0 then 0 else read_u16 page (4 + 2 * (slot - 1)) in
    let end = read_u16 page (4 + 2 * slot) in
    if leb num_offsets slot
    then nothing
    else if ltb end start
    then length_error
    else text (bytes page (4 + num_offsets * 2 + start) (end - start))

unfoldable pub resolve_pages : List Page → ℕ → Resolved
resolve_pages [] slot = nothing
resolve_pages (page ∷ pages) slot =
    if is_long page then text (append_chunks (page ∷ pages)) else resolve_slot page slot

unfoldable pub resolve_column : Option Column → ℕ → ℕ → Resolved
resolve_column none page slot = nothing
resolve_column (some column) page slot = resolve_pages (pages_from column.pages page) slot

unfoldable pub resolve_table : Option (List Column) → ℕ → ℕ → ℕ → Resolved
resolve_table none col page slot = nothing
resolve_table (some columns) col page slot = resolve_column (get_elem? columns col) page slot

-- The tables are the inputs of the plan.
unfoldable pub resolve : List (List Column) → ℕ → Resolved
resolve inputs raw_ref =
    let ref = unpack raw_ref in
    resolve_table (get_elem? inputs ref.table_id) ref.col_id ref.page_idx ref.slot_idx

-- `la == lb` and `memcmp`.
abbrev pub same_bytes : List ℕ → List ℕ → Bool
same_bytes [] [] = true
same_bytes [] (y ∷ ys) = false
same_bytes (x ∷ xs) [] = false
same_bytes (x ∷ xs) (y ∷ ys) = (x == y) && same_bytes xs ys

-- `none` is an exception.
unfoldable pub same_texts : Resolved → Resolved → Option Bool
same_texts length_error b = none
same_texts nothing length_error = none
same_texts (text x) length_error = none
same_texts (text x) (text y) = some (same_bytes x y)
same_texts (text x) nothing = some false
same_texts nothing (text y) = some false
same_texts nothing nothing = some false

unfoldable pub string_ref_eq : Option (List (List Column)) → ℕ → ℕ → Option Bool
string_ref_eq none a b = some (a == b)
string_ref_eq (some inputs) a b =
    if a == b then some true else same_texts (resolve inputs a) (resolve inputs b)

-- ===== src/Tests/Strings.antt =====
-- The theorems on references at a column with a page of two strings and a long string on two pages.
use sigmod_runtime_engine.Base.{
  ℕ, ◌^◌, ◌<◌, ◌≡◌, refl, ◌↔◌, true, some, List, [], ◌∷◌, arith, get_or,
}
use sigmod_runtime_engine.Pages.{Page, Column, DataType, read_u16}
use sigmod_runtime_engine.Values.{pack, unpack}
use sigmod_runtime_engine.Resolver.{
  is_long, chunk, append_chunks, text, resolve_pages, resolve_column, resolve_table, resolve,
  string_ref_eq,
}
use sigmod_runtime_engine.Resolver.Texts.{
  AllLong, Stops, chunks, Place, Stored, resolve-chunks, resolve-Stored, string_ref_eq_lem,
}

abbrev pub page_of : List ℕ → Page
page_of content at = get_or content at 0

abbrev pub bc : List ℕ
bc = 98 ∷ 99 ∷ []

-- "a" and "bc".
abbrev pub short_page : Page
short_page = page_of (2 ∷ 0 ∷ 2 ∷ 0 ∷ 1 ∷ 0 ∷ 3 ∷ 0 ∷ 97 ∷ 98 ∷ 99 ∷ [])

-- "ab", and "c" behind it.
abbrev pub first_part : Page
first_part = page_of (255 ∷ 255 ∷ 2 ∷ 0 ∷ 97 ∷ 98 ∷ [])

abbrev pub second_part : Page
second_part = page_of (254 ∷ 255 ∷ 1 ∷ 0 ∷ 99 ∷ [])

abbrev pub column : Column
column = record {
  type = DataType.varchar;
  pages = short_page ∷ first_part ∷ second_part ∷ short_page ∷ [];
}

abbrev pub inputs : List (List Column)
inputs = (column ∷ []) ∷ []

abbrev pub place : (p s : ℕ) → p < 2 ^ 32 → s < 2 ^ 16 → Place inputs 0 0 p s
place p s hp hs = record {
  columns = column ∷ [];
  column = column;
  table_at = refl;
  column_at = refl;
  fits = (omega arith, omega arith, hp, hs);
}

parts-AllLong : AllLong (first_part ∷ second_part ∷ [])
unfolding is_long read_u16
parts-AllLong = (refl, (refl, tt))

short-Stops : Stops (short_page ∷ [])
unfolding is_long read_u16
short-Stops = refl

short-Stored : Stored short_page ((97 ∷ []) ∷ (98 ∷ 99 ∷ []) ∷ [])
unfolding Stored is_long read_u16
short-Stored = (refl, refl, (refl, refl, (refl, refl, tt)))

resolve-chunks_example :
    resolve inputs (pack 0 0 1 0) ≡ text (chunks (first_part ∷ second_part ∷ []))
resolve-chunks_example =
    resolve-chunks inputs 0 0 1 0 (place 1 0 (omega arith) (omega arith)) first_part
      (second_part ∷ []) (short_page ∷ []) refl parts-AllLong short-Stops

resolve-Stored_example : resolve inputs (pack 0 0 0 1) ≡ text (98 ∷ 99 ∷ [])
resolve-Stored_example =
    resolve-Stored inputs 0 0 0 1 (place 0 1 (omega arith) (omega arith)) short_page
      (first_part ∷ second_part ∷ short_page ∷ []) ((97 ∷ []) ∷ (98 ∷ 99 ∷ []) ∷ []) refl
      short-Stored (omega arith)

second_of_last : resolve inputs (pack 0 0 3 1) ≡ text (98 ∷ 99 ∷ [])
second_of_last =
    resolve-Stored inputs 0 0 3 1 (place 3 1 (omega arith) (omega arith)) short_page []
      ((97 ∷ []) ∷ (98 ∷ 99 ∷ []) ∷ []) refl short-Stored (omega arith)

second_of_first : resolve inputs (pack 0 0 0 1) ≡ text (98 ∷ 99 ∷ [])
second_of_first =
    resolve-Stored inputs 0 0 0 1 (place 0 1 (omega arith) (omega arith)) short_page
      (first_part ∷ second_part ∷ short_page ∷ []) ((97 ∷ []) ∷ (98 ∷ 99 ∷ []) ∷ []) refl
      short-Stored (omega arith)

string_ref_eq_lem_example :
    (string_ref_eq (some inputs) (pack 0 0 0 1) (pack 0 0 3 1) ≡ some true) ↔ (bc ≡ bc)
string_ref_eq_lem_example =
    string_ref_eq_lem inputs (pack 0 0 0 1) (pack 0 0 3 1) bc bc second_of_first second_of_last

-- Two long strings in a row: the reference to the first one resolves to both.
abbrev pub two_long : List (List Column)
two_long = ((record { type = DataType.varchar; pages = first_part ∷ first_part ∷ [] }) ∷ []) ∷ []

both_parts : resolve two_long (pack 0 0 0 0) ≡ text (97 ∷ 98 ∷ 97 ∷ 98 ∷ [])
unfolding resolve resolve_table resolve_column resolve_pages append_chunks chunk is_long read_u16
    unpack pack
both_parts = refl

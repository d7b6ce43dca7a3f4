-- ===== src/Tests/Columns.antt =====
-- Columns and the words in them, at concrete inputs.
use mathlib.Core.List.{flatten}
use sigmod_runtime_engine.Base.{
  ℕ, zero, suc, ◌+◌, ◌-◌, ◌/◌, ◌%◌, ◌^◌, ◌≤◌, ◌<◌, ◌≡◌, refl, ◌↔◌, true, false, some, List, [], ◌∷◌,
  ◌++◌, arith, ◌==◌, if◌then◌else◌, get_or,
}
use sigmod_runtime_engine.Values.{
  pack, unpack, make_i32, make_str_ref, make_null, is_null, as_i32, pack-unpack, unpack-pack,
  make_i32-is_null, make_str_ref-is_null,
}
use sigmod_runtime_engine.Pages.{Page, DataType, Column}
use sigmod_runtime_engine.Unchained.{new}
use sigmod_runtime_engine.Unchained.Phases.{build_from_entries}
use sigmod_runtime_engine.Unchained.ZeroCopy.{build_from_zero_copy_int32}
use sigmod_runtime_engine.Join.Columns.{build_from_zero_copy_int32-numbered}
use sigmod_runtime_engine.Hashing.{fibonacci32}
use sigmod_runtime_engine.Columnar.{ColumnT, append, paged_value, source, get, get_cached}
use sigmod_runtime_engine.Columnar
use sigmod_runtime_engine.Columnar.Paged.{IsPaged, new-IsPaged, append-IsPaged, get-append}
use sigmod_runtime_engine.Columnar.Source.{IsOffsets, all_values, numbered, get-all_values}

pack-unpack_example :
    let p = unpack 0x0102_0000_0003_0004 in
    pack p.table_id p.col_id p.page_idx p.slot_idx ≡ 0x0102_0000_0003_0004
pack-unpack_example = pack-unpack 0x0102_0000_0003_0004 (omega arith)

unpack-pack_example :
    unpack (pack 1 2 3 4) ≡ record { slot_idx = 4; page_idx = 3; col_id = 2; table_id = 1 }
unpack-pack_example = unpack-pack 1 2 3 4 (omega arith) (omega arith) (omega arith) (omega arith)

-- -2
make_i32-is_null_example :
    (as_i32 (make_i32 0xffff_fffe) ≡ 0xffff_fffe)
    × ((is_null (make_i32 0xffff_fffe) ≡ true) ↔ (0xffff_fffe ≡ 2 ^ 32 - 1))
    × (make_i32 (2 ^ 32 - 1) ≡ make_null)
make_i32-is_null_example = make_i32-is_null 0xffff_fffe (omega arith)

make_str_ref-is_null_example :
    (is_null (make_str_ref 255 255 0 9) ≡ true)
    ↔ ((255 ≡ 2 ^ 8 - 1) × (255 ≡ 2 ^ 8 - 1) × (0 ≡ 2 ^ 32 - 1) × (9 ≡ 2 ^ 16 - 1))
make_str_ref-is_null_example =
    make_str_ref-is_null 255 255 0 9 (omega arith) (omega arith) (omega arith) (omega arith)

-- A page of the values 1, 2, 3 and so on.
abbrev pub counting : Page
counting at = if at % 4 == 0 then at / 4 else 0

abbrev pub two_pages : Column
two_pages = record { type = DataType.int32; pages = counting ∷ counting ∷ [] }

-- Two rows on the first page, three on the second.
abbrev pub offsets : List ℕ
offsets = 0 ∷ 2 ∷ 5 ∷ []

rising : (i : ℕ) → i + 1 < 3 → get_or offsets i 0 ≤ get_or offsets (i + 1) 0
rising zero h = omega arith
rising (suc zero) h = omega arith
rising (suc (suc i)) h = absurd (omega arith)

fitting : (i : ℕ) → i < 3 → get_or offsets i 0 < 2 ^ 64
fitting zero h = omega arith
fitting (suc zero) h = omega arith
fitting (suc (suc zero)) h = omega arith
fitting (suc (suc (suc i))) h = absurd (omega arith)

pub offsets-IsOffsets : IsOffsets offsets
offsets-IsOffsets = record {
  some_page = omega arith;
  begins = refl;
  rises = rising;
  fits = fitting;
}

build_from_zero_copy_int32-numbered_example :
    build_from_zero_copy_int32 fibonacci32 (some two_pages) offsets 5 (new 10)
    ≡ build_from_entries fibonacci32 (numbered 0 (all_values two_pages.pages offsets)) (new 10)
build_from_zero_copy_int32-numbered_example =
    build_from_zero_copy_int32-numbered fibonacci32 two_pages offsets 5 (new 10) offsets-IsOffsets
      refl (omega arith)

abbrev pub zero_copy : ColumnT
zero_copy = record {
  pages = [];
  src_column = some two_pages;
  page_offsets = offsets;
  is_zero_copy = true;
  values_per_page = 1024;
  num_values = 5;
  cached_page_idx = 7;
}

from_pages : source zero_copy ≡ some two_pages
unfolding source
from_pages = refl

get-all_values_example :
    (p : ℕ) × (q : ℕ) × (get zero_copy 3
      ≡ some (
        make_i32 (get_or (all_values two_pages.pages offsets) 3 0),
        record zero_copy { cached_page_idx = p },
      ))
    × (get_cached zero_copy 3 1
        ≡ some (make_i32 (get_or (all_values two_pages.pages offsets) 3 0), q))
get-all_values_example =
    get-all_values zero_copy two_pages 3 1 offsets-IsOffsets from_pages (omega arith)

abbrev empty : ColumnT
empty = Columnar.new 2

append-IsPaged_example :
    IsPaged (append (append empty 8) 9)
    × (flatten (append (append empty 8) 9).pages ≡ flatten (append empty 8).pages ++ 9 ∷ [])
append-IsPaged_example =
    append-IsPaged (append empty 8) 9 (append-IsPaged empty 8 (new-IsPaged 2 (omega arith))).0

materialised : empty.is_zero_copy ≡ false
unfolding Columnar.new
materialised = refl

get-append_example :
    get (append empty 8) 0
    ≡ some (if 0 == empty.num_values then 8 else paged_value empty 0, append empty 8)
get-append_example = get-append empty 8 0 (new-IsPaged 2 (omega arith)) materialised (omega arith)

-- ===== src/Pages.antt =====
-- include/plan.h: pages of 8192 bytes and the columns made of them. A page is its bytes by address.
-- Numbers of more than one byte are little-endian, as on the machines that the code is built for.
use sigmod_runtime_engine.Base.{ℕ, zero, suc, ◌+◌, ◌*◌, ◌^◌, List, [], ◌∷◌}

abbrev pub page_size : ℕ
page_size = 8192

abbrev pub Page : Type 0
Page = ℕ → ℕ

-- `Page{}`.
abbrev pub no_page : Page
no_page _ = 0

-- `*reinterpret_cast<const uint16_t*>(page + at)`.
unfoldable pub read_u16 : Page → ℕ → ℕ
read_u16 page at = page at + 2 ^ 8 * page (at + 1)

-- An `int32_t` in the same way, as its bit pattern.
unfoldable pub read_i32 : Page → ℕ → ℕ
read_i32 page at = page at + 2 ^ 8 * page (at + 1) + 2 ^ 16 * page (at + 2) + 2 ^ 24 * page (at + 3)

-- `DataType`, include/attribute.h.
pub data DataType : Type 0 where
  int32 int64 fp64 varchar : DataType

pub record Column : Type 0 where
  pub type : DataType
  pub pages : List Page

-- `reinterpret_cast<const int32_t*>(page + 4)[slot]`.
unfoldable pub int32_at : Page → ℕ → ℕ
int32_at page slot = read_i32 page (4 + 4 * slot)

-- The first `n` 32-bit values of a page from slot `slot` on.
unfoldable pub int32s : Page → ℕ → ℕ → List ℕ
int32s page slot zero = []
int32s page slot (suc n) = int32_at page slot ∷ int32s page (slot + 1) n

-- ===== src/Unchained.antt =====
-- include/parallel_unchained_hashtable.h, `FlatUnchainedHashTable`: the default hash table of the
-- joins. All tuples lie in one array, grouped by a prefix of their hash; a directory holds the end
-- of each group and a Bloom filter for it. `HashEntry` is include/hash_common.h's; the table's
-- `TupleEntry` has the same two fields.
--
-- A key is its bit pattern, so `==` on keys is that of numbers. `hash` is `compute_hash`:
-- `fibonacci32` for 32-bit keys, `std::hash` otherwise.
pub mod Phases
pub mod Sizing
pub mod Tally
pub mod Offsets
pub mod Place
pub mod Totals
pub mod Built
pub mod Lookup
pub mod ZeroCopy
use mathlib.Core.Option
use sigmod_runtime_engine.Base.{
  ℕ, zero, suc, ◌+◌, ◌-◌, ◌*◌, ◌/◌, ◌%◌, ◌^◌, ◌≤◌, ◌<◌, min, max, bit_and, bit_or, ◌≡◌, refl, sym,
  ap, ◌∙◌, ◌≢◌, ◌↔◌, ◌⊎◌, inl, inr, Bool, true, false, not, ◌&&◌, ◌||◌, Option, none, some, List,
  [], ◌∷◌, ◌++◌, map, arith, ltb, leb, ◌==◌, if◌then◌else◌, ltb→lt, ltb→le, lt→ltb, le→ltb, ==→eq,
  ==→ne, ==_refl, ne→==, Bool-cases, Option-cases, length, get_or, get_elem?, set, replicate,
  select, length-append, length-set, length-replicate, get_or-replicate, get_or-set_self,
  get_or-set_ne, get_or-append_left, get_or-append_right, select-append, u8, u16, u32, u64, shl,
  shr,
}
use sigmod_runtime_engine.Bloom.{make_tag_from_hash, maybe_contains}

pub record HashEntry : Type 0 where
  pub key : ℕ
  pub row_id : ℕ

-- `entry_type{}`.
abbrev pub no_entry : HashEntry
no_entry = record { key = 0; row_id = 0 }

-- `directory_offsets` are the cells from `directory_offsets_[0]` on. The cell before them is
-- always 0 and never read.
pub record FlatTable : Type 0 where
  pub tuples : List HashEntry
  pub directory_offsets : List ℕ
  pub bloom_filters : List ℕ
  pub counts : List ℕ
  pub write_ptrs : List ℕ
  pub dir_size : ℕ
  pub dir_mask : ℕ
  pub shift : ℕ

-- The constructor, with `directory_power` below 64.
unfoldable pub new : ℕ → FlatTable
new directory_power =
    let dir_size = u64 (shl 1 directory_power) in
    record {
      tuples = [];
      directory_offsets = replicate dir_size 0;
      bloom_filters = replicate dir_size 0;
      counts = replicate dir_size 0;
      write_ptrs = replicate dir_size 0;
      dir_size = dir_size;
      dir_mask = dir_size - 1;
      shift = 64 - directory_power;
    }

-- `next_pow2`: `while (p < v) p <<= 1`, from `p`. `none` means that the fuel ran out.
pub next_pow2 : ℕ → ℕ → ℕ → Option ℕ
next_pow2 zero v p = none
next_pow2 (suc fuel) v p =
    let rest = next_pow2 fuel v (u64 (shl p 1)) in if ltb p v then rest else some p

-- `while (tmp > 1) { bits++; tmp >>= 1; }`.
pub bit_length : ℕ → ℕ → ℕ → Option ℕ
bit_length zero tmp bits = none
bit_length (suc fuel) tmp bits =
    let rest = bit_length fuel (shr tmp 1) (bits + 1) in if ltb 1 tmp then rest else some bits

abbrev pub min_dir_size : ℕ
min_dir_size = 2 ^ 10

abbrev pub max_dir_size : ℕ
max_dir_size = 2 ^ 18

-- The part of `reserve` that rebuilds the buffers for a directory of another size.
rebuilt : FlatTable → ℕ → ℕ → FlatTable
rebuilt t desired bits = record t {
  directory_offsets = replicate desired 0;
  bloom_filters = replicate desired 0;
  counts = replicate desired 0;
  write_ptrs = replicate desired 0;
  dir_size = desired;
  dir_mask = desired - 1;
  shift = 64 - bits;
}

resize : FlatTable → ℕ → Option FlatTable
resize t desired = Option.map (rebuilt t desired) (bit_length 64 desired 0)

reserve_power : FlatTable → ℕ → Option FlatTable
reserve_power t power =
    let desired = min power max_dir_size in
    if desired == t.dir_size then some t else resize t desired

-- `max_size` of a vector of 8-byte entries.
abbrev pub max_size : ℕ
max_size = (2 ^ 63 - 1) / 8

-- `reserve`; `none` is the exception of `tuples_.reserve`, or that the fuel ran out.
pub reserve : ℕ → FlatTable → Option FlatTable
reserve tuples_capacity t =
    if ltb max_size tuples_capacity
    then none
    else Option.bind (next_pow2 65 (max (tuples_capacity / 8) min_dir_size) 1) (reserve_power t)

-- ===== src/Bloom/Laws.antt =====
-- A filter that was or-ed with a tag answers yes to it, for ever after.
use sigmod_runtime_engine.Base.{ℕ, ◌^◌, ◌<◌, bit_or, true, ◌≡◌, arith}
use sigmod_runtime_engine.Bits.{bit_or-Covers, bit_or-keeps}
use sigmod_runtime_engine.Bloom.{make_tag_from_hash, maybe_contains}

-- A filter that a tag was or-ed into contains the tag.
pub maybe_contains_added : (bloom tag : ℕ) → maybe_contains (bit_or bloom tag) tag ≡ true
unfolding maybe_contains
maybe_contains_added bloom tag = ground (arith, bit_or-Covers bloom tag)

-- A filter goes on containing a tag whatever else is or-ed into it.
pub maybe_contains_kept :
    (bloom tag other : ℕ)
    → maybe_contains bloom tag ≡ true
    → maybe_contains (bit_or bloom other) tag ≡ true
unfolding maybe_contains
maybe_contains_kept bloom tag other h = ground (arith, bit_or-keeps bloom other tag)

-- A tag has 16 bits.
pub make_tag_from_hash-lt : (h : ℕ) → make_tag_from_hash h < 2 ^ 16
unfolding make_tag_from_hash
make_tag_from_hash-lt h = omega arith

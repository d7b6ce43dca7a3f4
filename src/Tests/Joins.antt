-- ===== src/Tests/Joins.antt =====
-- A join of a zero-copy column and a materialised one by two threads.
use mathlib.Core.List.{Perm}
use sigmod_runtime_engine.Base.{
  ℕ, zero, suc, ◌<◌, ◌≡◌, refl, true, false, none, some, List, [], ◌∷◌, arith,
}
use sigmod_runtime_engine.Hashing.{fibonacci32}
use sigmod_runtime_engine.Values.{make_i32, null}
use sigmod_runtime_engine.Unchained.{FlatTable, new}
use sigmod_runtime_engine.Unchained.Phases.{build_from_entries}
use sigmod_runtime_engine.Unchained.Sizing.{new-WellSized}
use sigmod_runtime_engine.Columnar.{ColumnT}
use sigmod_runtime_engine.WorkStealing.{start, run, joined_output}
use sigmod_runtime_engine.WorkStealing.Rows.{for_rows}
use sigmod_runtime_engine.WorkStealing.Fair.{turns}
use sigmod_runtime_engine.WorkStealing.Joining.{joined_output-rows}
use sigmod_runtime_engine.Join.{OutPair, paged_source, matched_pairs, probe_block}
use sigmod_runtime_engine.Join.Keys.{Keys, key_entries, nested_loop_join}
use sigmod_runtime_engine.Join.Matches.{probe_key-row_join}
use sigmod_runtime_engine.Join.Columns.{keys_of, ReadableFrom, Readable}
use sigmod_runtime_engine.Join.Build.{Serves}
use sigmod_runtime_engine.Join.Blocks.{row_pairs, probe_block_lem}
use sigmod_runtime_engine.Join.Result.{matched_pairs-nested_loop_join}
use sigmod_runtime_engine.Tests.Columns.{offsets-IsOffsets, zero_copy}
use sigmod_runtime_engine.Tests.Threads.{config, coordinator, made, itself, rows}

abbrev pub with_null : ColumnT
with_null = record {
  pages = (make_i32 2 ∷ null ∷ make_i32 3 ∷ []) ∷ [];
  src_column = none;
  page_offsets = [];
  is_zero_copy = false;
  values_per_page = 1024;
  num_values = 3;
  cached_page_idx = 0;
}

pub zero_copy-Readable : Readable zero_copy 5
unfolding Readable ReadableFrom paged_source
zero_copy-Readable = (offsets-IsOffsets, refl)

pub with_null-Readable : Readable with_null 3
unfolding Readable ReadableFrom paged_source
with_null-Readable = tt

abbrev turn_about : List ℕ
turn_about = 0 ∷ 1 ∷ 0 ∷ 1 ∷ 1 ∷ 0 ∷ 0 ∷ 1 ∷ []

fair : (t : ℕ) → t < 2 → 3 < turns t turn_about
unfolding turns
fair zero h = omega arith
fair (suc zero) h = omega arith
fair (suc (suc t)) h = absurd (omega arith)

matched_pairs-nested_loop_join_example :
    (out : List OutPair) × (matched_pairs fibonacci32 true zero_copy 5 with_null 3 2 turn_about
      ≡ some out)
    × Perm out (nested_loop_join true (keys_of zero_copy 5) 0 (keys_of with_null 3))
matched_pairs-nested_loop_join_example =
    matched_pairs-nested_loop_join fibonacci32 true zero_copy 5 with_null 3 2 zero_copy-Readable
      with_null-Readable (omega arith) (omega arith) (omega arith) (omega arith) turn_about fair

abbrev build_keys : Keys
build_keys = some 2 ∷ none ∷ some 3 ∷ some 2 ∷ []

abbrev table : FlatTable
table = build_from_entries fibonacci32 (key_entries 0 build_keys) (new 10)

table-Serves : Serves fibonacci32 false build_keys table
table-Serves key j h =
    probe_key-row_join fibonacci32 (new 10) false build_keys key j (new-WellSized 10 (omega arith))
      (omega arith) h

probe_block_lem_example :
    probe_block fibonacci32 table false zero_copy 1 4
    ≡ some (for_rows (row_pairs false build_keys (keys_of zero_copy 5)) 1 3)
probe_block_lem_example =
    probe_block_lem fibonacci32 false build_keys table table-Serves zero_copy 5 (omega arith) 1 4
      zero_copy-Readable (omega arith) (omega arith)

abbrev pub long : List ℕ
long = 0 ∷ 1 ∷ 0 ∷ 1 ∷ 0 ∷ 1 ∷ 0 ∷ 1 ∷ 0 ∷ 1 ∷ 0 ∷ 1 ∷ 0 ∷ 1 ∷ 0 ∷ 1 ∷ 0 ∷ 1 ∷ 0 ∷ 1 ∷ 0 ∷ 1 ∷ []

long_enough : (t : ℕ) → t < 2 → 10 < turns t long
unfolding turns
long_enough zero h = omega arith
long_enough (suc zero) h = omega arith
long_enough (suc (suc t)) h = absurd (omega arith)

joined_output-rows_example :
    (out : List ℕ) × (joined_output (run rows long (start 2 coordinator)) ≡ some out)
    × Perm out (for_rows itself 0 10)
joined_output-rows_example =
    joined_output-rows itself rows config coordinator made (λ b e _ _. refl) (omega arith)
      (omega arith) (omega arith) long long_enough

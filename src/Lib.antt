-- ===== src/Lib.antt =====
-- Verification library of the query runtime: an engine that runs plans of scans and hash joins
-- over pages of columns.
--
-- The parts, and how they interact. A column of an input is a list of 8192-byte pages; a column of
-- an intermediate result holds 64-bit words on pages of its own or refers to the pages of an input
-- (zero-copy). A join builds a hash table from the key column of one side, from entries or straight
-- from the pages, and probes it with the rows of the other side; threads share the probe rows by an
-- atomic counter that hands out blocks.
--
--   * Base: Boolean tests, lists, and unsigned words of 8 to 64 bits with their shifts. Bits: the
--     bits of `bit_and` and `bit_or`.
--   * Hashing (include/hash_functions.h) and Bloom (include/bloom_filter.h): the hash of 32-bit
--     keys, the tags, the filters and their population counts. Bloom/Membership is about the test
--     of a filter, Bloom/Popcount about the counts.
--   * Unchained (include/parallel_unchained_hashtable.h, include/hash_common.h): `FlatTable` is the
--     state of `FlatUnchainedHashTable`. Unchained is the constructor and `reserve`;
--     Unchained/Phases is `build_from_entries` and `probe`, Unchained/ZeroCopy the build from
--     pages. Sizing, Tally, Offsets, Place, Totals, Built and Lookup prove it right.
--   * WorkStealing (include/work_stealing.h, src/work_stealing.cpp): the coordinator, and the
--     loops of the threads of `run_int32` in src/execute_default.cpp as steps in the order of a
--     schedule. Rows, Step and Coverage prove that no row is lost or done twice, Fair and Joining
--     that the threads end.
--   * Pages (include/plan.h, include/attribute.h): pages as functions from addresses to bytes.
--   * Values (include/late_materialization.h): words, NULL, packed references to strings.
--   * Columnar (include/columnar.h): `column_t` with `append`, `get` and `get_cached`. Paged is
--     about materialised columns, Search about the search for a page, Source about zero-copy ones.
--   * Join (src/execute_default.cpp, `JoinAlgorithm::run_int32`): the build, the probe of one row,
--     one block and a whole range, and `matched_pairs`, which is all of these up to the list of
--     pairs. Keys is the specification, the nested-loop join of two lists of keys; Columns says
--     what the keys of a column are, and is about the build from pages; Matches, Build, Cursor,
--     Blocks and Result are the proofs.
--   * Output (the rest of `run_int32`): the output columns are allocated and filled from the pairs.
--     Columnar/Cells says what word a row of a column has; Pages, Sides, Filling and Table are the
--     proofs; `run_int32` is the whole join, which Join is about.
--   * Scan (src/late_materialization.cpp, `scan_columnar_to_columnbuffer`): the test for NULLs, and
--     the scan of one column, zero-copy or by value. Words says what word each row of an
--     input column has; Offsets, Whole and Rows are about the scan, Nulls about the test for NULLs.
--   * FilterThreadPool (include/inner_column.h, `FilterThreadPool`): how the bytes of a bitmap are
--     shared out to threads. Shards is about the shares, Turns about a run of all of them.
--   * Bitmap: the bit of a row in a vector of bytes. Digits, Rows and Push are about the bitwise
--     operations, the writing of a bit, and a bitmap that grows by a row.
--   * InnerColumn (include/inner_column.h, `InnerColumn<T>`): the numeric columns with their
--     comparisons; Filter and Nulls are the proofs. InnerColumn/Strings is
--     `InnerColumn<std::string>`, with StringFilter and StringRows as proofs.
--   * Statement (include/statement.h, src/statement.cpp): the syntax tree of filters. Table is the
--     evaluation on columns, Record the evaluation on a record of values, Like `like_match` with
--     its cache. Truth says what the comparisons of the columns give for a row, Meaning what a
--     statement means for it; Bitmaps, Truth/Cells, Truth/Columns and Truth/Rows are about Table,
--     Faults about its errors, Agreement about both evaluations.
--   * Resolver (src/late_materialization.cpp, `StringRefResolver`, `StringRefEq`): the strings that
--     references stand for. Texts is about the strings that pages store.
--   * CsvParser (include/csv_parser.h, src/csv_parser.cpp): the state machine, character by
--     character, and the states between two chunks. Steps, Cases and Chunks are the proofs.
--   * Tests: the theorems at concrete inputs.
--
-- Bounds and fuel. Unsigned arithmetic wraps as in the source (`u8`, `u16`, `u32`, `u64`), and an
-- `int32_t` is its bit pattern. `next_pow2` has fuel 65 and the count of the bits of a directory
-- size fuel 64; both are enough for 64-bit sizes. The search for a page has as much fuel as there
-- are page offsets, since it halves its range in every round; the page cursor of a block moves
-- forward, so the same fuel is enough for it. A population count takes at most 16
-- rounds and has fuel 17. The allocation of pages takes
-- a round for each page, and has one unit of fuel more than there are rows. `none` stands for fuel
-- that ran out, and in `reserve` also for the exception of a vector that is asked for more than
-- `max_size` entries. The builds are taken at sizes up to `max_size`, where they do not throw.
--
-- What lies outside of a page or a vector reads as 0, where the source has undefined behaviour. The
-- theorems on scans and zero-copy columns are about rows that exist; those on the join and its
-- output say nothing of the source for materialised columns with fewer values than rows.
--
-- The threads of `FilterThreadPool::run` write disjoint bytes, so a run is a list of thread numbers,
-- in the order in which the shards take effect; every such order is allowed. An evaluation uses one
-- list for all of its runs, whose results do not depend on it. The sizes of columns in memory are
-- far below 2^64, so the sums and products of `size_t` on them are not cut off; `begin_idx` never
-- exceeds the number of tasks. A result is a value or a fault: `std::get` that throws, a call of
-- `unreachable()`, an index out of range, an assertion.
--
-- Parameters. The hash function of a table is a parameter wherever no theorem depends on which
-- function it is; the tests use `fibonacci32`.
-- Of `double` the comparisons and the conversions from integers are parameters, and so is RE2 with
-- its compilation and its full match.
--
-- Not modelled: the parsing of SQL, the printing of statements, the building of input tables, the
-- plan around scans and joins, the conversion of the last result into a table, the alternative hash
-- tables, telemetry, and memory mapping.
pub mod Base
pub mod Bits
pub mod Hashing
pub mod Bloom
pub mod WorkStealing
pub mod Unchained
pub mod Pages
pub mod Values
pub mod Columnar
pub mod Join
pub mod Output
pub mod Scan
pub mod Bitmap
pub mod FilterThreadPool
pub mod InnerColumn
pub mod Statement
pub mod Resolver
pub mod CsvParser
pub mod Tests

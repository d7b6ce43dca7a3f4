-- ===== src/InnerColumn/StringFilter.antt =====
-- Comparisons of a string column: what each computes for a row.
use sigmod_runtime_engine.Base.{
  ℕ, zero, suc, ◌+◌, ◌-◌, ◌*◌, ◌/◌, ◌%◌, ◌≤◌, ◌<◌, min, bit_or, ◌≡◌, refl, sym, ◌∙◌, ◌⊎◌, inl, inr,
  Bool, true, false, ◌&&◌, ◌||◌, List, arith, ltb, leb, ◌==◌, if◌then◌else◌, ==→eq, ==→ne, ==_refl,
  Bool-cases, length, get_or, set, replicate, length-set, u8, shl,
}
use sigmod_runtime_engine.Bitmap.{bit_of}
use sigmod_runtime_engine.Bitmap.Rows.{
  flag, has_bit-shl, bit_of-or_bit, bit_of-zeros, IsBitmap, zeros-IsBitmap, set-IsBitmap, u8-lt,
}
use sigmod_runtime_engine.FilterThreadPool.{filter_tp, Schedule, make_pool}
use sigmod_runtime_engine.FilterThreadPool.Turns.{run-once, run-keeps}
use sigmod_runtime_engine.InnerColumn.Strings.{
  StringColumn, is_not_null, get, fill_byte, fill_bytes, run_rows,
}

-- What a comparison is to say of a row.
unfoldable pub string_passes : StringColumn → (List ℕ → Bool) → ℕ → Bool
string_passes c test row = is_not_null c row && test (get c row)

bits_left :
    (row i left : ℕ) (old : Bool) (rows : ℕ)
    → i < rows
    → (v : ℕ → Bool)
    → ((old || ((i == row) && v i))
        || ((leb (i + 1) row && ltb row (min rows (i + 1 + left))) && v row))
      ≡ (old || ((leb i row && ltb row (min rows (i + suc left))) && v row))
bits_left row i left old rows h v = elim (Bool-cases (i == row)) [
  | inl same ↦ rw (sym (==→eq i row same), ==_refl i) (ground arith)
  | inr other ↦ rw other (ground (arith, ==→ne i row other))
]

bytes_left :
    (row b count : ℕ) (old : Bool) (rows : ℕ) (v : Bool)
    → ((old || ((leb (b * 8 + 0) row && ltb row (min rows (b * 8 + 0 + 8))) && v))
        || ((leb ((b + 1) * 8) row && ltb row (min rows ((b + 1 + count) * 8))) && v))
      ≡ (old || ((leb (b * 8) row && ltb row (min rows ((b + suc count) * 8))) && v))
bytes_left row b count old rows v = ground arith

module _ (c : StringColumn) (test : List ℕ → Bool) where
  -- The byte that the loop's body writes for row `i`.
  written : List ℕ → ℕ → ℕ → ℕ
  written ret byte_idx i =
      u8 (bit_or (get_or ret byte_idx 0) (shl (flag (string_passes c test i)) (i % 8)))

  written-lt : (ret : List ℕ) (byte_idx i : ℕ) → written ret byte_idx i < 256
  unfolding written
  written-lt ret byte_idx i =
      u8-lt (bit_or (get_or ret byte_idx 0) (shl (flag (string_passes c test i)) (i % 8)))

  bit_of-written :
      (row i : ℕ) (ret : List ℕ)
      → i / 8 < length ret
      → bit_of (set ret (i / 8) (written ret (i / 8) i)) row
        ≡ (bit_of ret row || ((i == row) && string_passes c test i))
  unfolding written
  bit_of-written row i ret h =
      bit_of-or_bit ret i row (shl (flag (string_passes c test i)) (i % 8)) (string_passes c test i)
        h (λ k. has_bit-shl (string_passes c test i) (i % 8) k)

  -- The loop's body, read at a row.
  fill_byte_step :
      (byte_idx bit_idx left : ℕ) (ret : List ℕ)
      → bit_idx < 8
      → fill_byte test c byte_idx bit_idx (suc left) ret ≡ (
          if leb c.row (byte_idx * 8 + bit_idx)
          then ret
          else fill_byte test c byte_idx
              (bit_idx + 1)
              left
              (set ret byte_idx (written ret byte_idx (byte_idx * 8 + bit_idx))))
  unfolding fill_byte written string_passes is_not_null get
  fill_byte_step byte_idx bit_idx left ret h =
      let byte : (byte_idx * 8 + bit_idx) / 8 ≡ byte_idx = omega arith in
      let bit : (byte_idx * 8 + bit_idx) % 8 ≡ bit_idx = omega arith in rw (byte, bit) refl

  fill_byte-IsBitmap :
      (size byte_idx bit_idx left : ℕ) (ret : List ℕ)
      → bit_idx + left ≤ 8
      → IsBitmap size ret
      → IsBitmap size (fill_byte test c byte_idx bit_idx left ret)
  unfolding fill_byte
  fill_byte-IsBitmap size byte_idx bit_idx zero ret h wf = wf
  fill_byte-IsBitmap size byte_idx bit_idx (suc left) ret h wf =
      rw (fill_byte_step byte_idx bit_idx left ret (omega arith))
        (elim (Bool-cases (leb c.row (byte_idx * 8 + bit_idx))) [
          | inl past ↦ rw past wf
          | inr more ↦ rw more (
              fill_byte-IsBitmap size byte_idx (bit_idx + 1) left _ (omega arith) (
                set-IsBitmap size ret byte_idx _ (written-lt ret byte_idx (byte_idx * 8 + bit_idx))
                  wf))
        ])

  -- The loop sets the bits of the rows of the byte that pass.
  fill_byte_lem :
      (row byte_idx bit_idx left : ℕ) (ret : List ℕ)
      → bit_idx + left ≤ 8
      → byte_idx < length ret
      → bit_of (fill_byte test c byte_idx bit_idx left ret) row ≡ (
          bit_of ret row
          || ((leb (byte_idx * 8 + bit_idx) row
                && ltb row (min c.row (byte_idx * 8 + bit_idx + left)))
              && string_passes c test row))
  unfolding fill_byte
  fill_byte_lem row byte_idx bit_idx zero ret h inside = ground arith
  fill_byte_lem row byte_idx bit_idx (suc left) ret h inside =
      let i : ℕ = byte_idx * 8 + bit_idx in
      let byte : i / 8 ≡ byte_idx = omega arith in
      rw (fill_byte_step byte_idx bit_idx left ret (omega arith)) (elim (Bool-cases (leb c.row i)) [
        | inl past ↦
            let off : (leb i row && ltb row (min c.row (i + suc left))) ≡ false = ground arith in
            rw (past, off) (ground arith)
        | inr more ↦
            let after =
              fill_byte_lem row byte_idx (bit_idx + 1) left
                (set ret byte_idx (written ret byte_idx i)) (omega arith)
                (omega (arith, length-set ret byte_idx (written ret byte_idx i))) in
            let one = rw byte at (bit_of-written row i ret (omega arith)) in
            let next : byte_idx * 8 + (bit_idx + 1) ≡ i + 1 = omega arith in
            let inside_rows : i < c.row = ground arith in
            rw more (
              after
              ∙ rw (one, next)
                  (bits_left row i left (bit_of ret row) c.row inside_rows (string_passes c test)))
      ])

  fill_bytes-IsBitmap :
      (size byte_idx count : ℕ) (ret : List ℕ)
      → IsBitmap size ret
      → IsBitmap size (fill_bytes test c byte_idx count ret)
  unfolding fill_bytes
  fill_bytes-IsBitmap size byte_idx zero ret wf = wf
  fill_bytes-IsBitmap size byte_idx (suc count) ret wf =
      fill_bytes-IsBitmap size (byte_idx + 1) count _
        (fill_byte-IsBitmap size byte_idx 0 8 ret (omega arith) wf)

  fill_bytes_lem :
      (size row byte_idx count : ℕ) (ret : List ℕ)
      → IsBitmap size ret
      → (0 < count → byte_idx + count ≤ size)
      → bit_of (fill_bytes test c byte_idx count ret) row ≡ (
          bit_of ret row
          || ((leb (byte_idx * 8) row && ltb row (min c.row ((byte_idx + count) * 8)))
              && string_passes c test row))
  unfolding fill_bytes
  fill_bytes_lem size row byte_idx zero ret wf h = ground arith
  fill_bytes_lem size row byte_idx (suc count) ret wf h =
      let first =
        fill_byte_lem row byte_idx 0 8 ret (omega arith) (omega (arith, wf.0, h (omega arith))) in
      let others =
        fill_bytes_lem size row (byte_idx + 1) count (fill_byte test c byte_idx 0 8 ret)
          (fill_byte-IsBitmap size byte_idx 0 8 ret (omega arith) wf)
          (λ some_bytes. omega (arith, h (omega arith))) in
      others
      ∙ rw first (bytes_left row byte_idx count (bit_of ret row) c.row (string_passes c test row))

  module _ (turns : List ℕ) (wf : IsBitmap ((c.row + 7) / 8) c.bitmap) where
    row_task : ℕ → ℕ → List ℕ → List ℕ
    row_task b e ret = fill_bytes test c b (e - b) ret

    row_task_lem :
        (b e row : ℕ) (ret : List ℕ)
        → IsBitmap (length c.bitmap) ret
        → e ≤ (c.row + 7) / 8
        → bit_of (row_task b e ret) row ≡ (
            bit_of ret row
            || ((leb (b * 8) row && ltb row (min c.row ((b + (e - b)) * 8)))
                && string_passes c test row))
    unfolding row_task
    row_task_lem b e row ret same fits =
        fill_bytes_lem (length c.bitmap) row b (e - b) ret same (λ some_bytes. omega (arith, wf.0))

    -- The bitmap of a comparison has the column's size,
    pub run_rows-IsBitmap : IsBitmap (length c.bitmap) (run_rows turns c test)
    unfolding run_rows row_task
    run_rows-IsBitmap =
        run-keeps filter_tp row_task ((c.row + 7) / 8) (IsBitmap (length c.bitmap))
          (λ b e ret. fill_bytes-IsBitmap (length c.bitmap) b (e - b) ret) turns
          (replicate (length c.bitmap) 0) (zeros-IsBitmap (length c.bitmap))

    -- and a row's bit set just when the row is not null and passes.
    pub run_rows_lem :
        (row : ℕ)
        → Schedule filter_tp turns
        → row < c.row
        → bit_of (run_rows turns c test) row ≡ string_passes c test row
    unfolding run_rows make_pool row_task
    run_rows_lem row schedule inside =
        let size : ℕ = length c.bitmap in
        let hit : (b e : ℕ) (ret : List ℕ)
            → IsBitmap size ret
            → b ≤ row / 8
            → row / 8 < e
            → e ≤ (c.row + 7) / 8
            → bit_of (row_task b e ret) row ≡ (bit_of ret row || string_passes c test row) =
          λ b e ret same low high fits.
            let spans : (leb (b * 8) row && ltb row (min c.row ((b + (e - b)) * 8))) ≡ true =
              ground arith in
            row_task_lem b e row ret same fits ∙ rw spans refl in
        let miss : (b e : ℕ) (ret : List ℕ)
            → IsBitmap size ret
            → (row / 8 < b) ⊎ (e ≤ row / 8)
            → e ≤ (c.row + 7) / 8
            → bit_of (row_task b e ret) row ≡ bit_of ret row =
          λ b e ret same off fits.
            let spans : (leb (b * 8) row && ltb row (min c.row ((b + (e - b)) * 8))) ≡ false =
              ground arith in
            row_task_lem b e row ret same fits ∙ rw spans (ground arith) in
        run-once filter_tp row_task ((c.row + 7) / 8) (IsBitmap size)
          (λ b e ret. fill_bytes-IsBitmap size b (e - b) ret) (row / 8) (λ ret. bit_of ret row)
          (λ old. old || string_passes c test row) hit miss turns (replicate size 0) (omega arith)
          schedule (omega arith) (zeros-IsBitmap size)
        ∙ rw (bit_of-zeros size row) refl

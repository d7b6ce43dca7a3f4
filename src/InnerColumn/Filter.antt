-- ===== src/InnerColumn/Filter.antt =====
-- Comparisons of a numeric column: what each computes for a row.
use sigmod_runtime_engine.Base.{
  ℕ, zero, suc, ◌+◌, ◌-◌, ◌*◌, ◌/◌, ◌%◌, ◌≤◌, ◌<◌, min, bit_and, bit_or, ◌≡◌, refl, sym, ◌∙◌, ◌⊎◌,
  inl, inr, Bool, true, false, ◌&&◌, ◌||◌, List, arith, ltb, leb, ◌==◌, ==→eq, ==→ne, ==_refl,
  Bool-cases, length, get_or, replicate, length-set, length-replicate, shl,
}
use sigmod_runtime_engine.Bitmap.{has_bit, bit_of}
use sigmod_runtime_engine.Bitmap.Rows.{
  flag, has_bit-bit_and, has_bit-shl, bit_of-or_bit, bit_of-zeros, IsBitmap, zeros-IsBitmap,
  set-IsBitmap, u8-lt,
}
use sigmod_runtime_engine.FilterThreadPool.{filter_tp, Schedule, make_pool}
use sigmod_runtime_engine.FilterThreadPool.Turns.{run-once, run-keeps}
use sigmod_runtime_engine.InnerColumn.{
  InnerColumn, CellType, is_not_null, get, fill_bits, run_spans,
}

-- `bitmap[b] & (0x1 << bit) & (static_cast<uint8_t>(test) << bit)`.
masked_bit :
    (byte bit k : ℕ) (test : Bool)
    → has_bit (bit_and (bit_and byte (shl 1 bit)) (shl (flag test) bit)) k
      ≡ ((bit == k) && (has_bit byte bit && test))
masked_bit byte bit k test =
    rw
      (
        has_bit-bit_and (bit_and byte (shl 1 bit)) (shl (flag test) bit) k,
        has_bit-bit_and byte (shl 1 bit) k,
        has_bit-shl true bit k,
        has_bit-shl test bit k,
      )
      (elim (Bool-cases (bit == k)) [
        | inl same ↦ rw (sym (==→eq bit k same), ==_refl bit) (ground arith)
        | inr other ↦ rw other (ground arith)
      ])

-- One more row of a range.
pub range_step :
    (a i r : ℕ) (old : Bool) (v : ℕ → Bool)
    → ((old || ((leb a r && ltb r (a + i)) && v r)) || ((a + i == r) && v (a + i)))
      ≡ (old || ((leb a r && ltb r (a + suc i)) && v r))
range_step a i r old v = elim (Bool-cases (a + i == r)) [
  | inl same ↦ let e = ==→eq (a + i) r same in rw (sym e, ==_refl (a + i)) (ground arith)
  | inr other ↦ rw other (ground (arith, ==→ne _ _ other))
]

module _ {T : Type 0} (ops : CellType T) where
  -- What a comparison is to say of a row.
  unfoldable pub row_passes : InnerColumn T → (T → Bool) → ℕ → Bool
  row_passes c test row = is_not_null ops c row && test (get ops c row)

  module _ (c : InnerColumn T) (test : T → Bool) (first row : ℕ) where
    length-fill_bits :
        (i : ℕ) (output : List ℕ)
        → length (fill_bits ops test c.cells c.bitmap first i output) ≡ length output
    unfolding fill_bits
    length-fill_bits zero output = refl
    length-fill_bits (suc i) output = length-set _ _ _ ∙ length-fill_bits i output

    fill_bits-IsBitmap :
        (size i : ℕ) (output : List ℕ)
        → IsBitmap size output
        → IsBitmap size (fill_bits ops test c.cells c.bitmap first i output)
    unfolding fill_bits
    fill_bits-IsBitmap size zero output wf = wf
    fill_bits-IsBitmap size (suc i) output wf =
        set-IsBitmap size _ _ _
          (u8-lt (
            bit_or (get_or (fill_bits ops test c.cells c.bitmap first i output) (first + i / 8) 0) (
              bit_and (bit_and (get_or c.bitmap (first + i / 8) 0) (shl 1 (i % 8)))
                (shl (flag (test (get_or c.cells (first * 8 + i) ops.initial))) (i % 8)))))
          (fill_bits-IsBitmap size i output wf)

    -- The loop sets the bits of the rows it went over that pass.
    fill_bits_lem :
        (i : ℕ) (output : List ℕ)
        → (0 < i → first * 8 + i ≤ 8 * length output)
        → bit_of (fill_bits ops test c.cells c.bitmap first i output) row ≡ (
            bit_of output row
            || ((leb (first * 8) row && ltb row (first * 8 + i)) && row_passes c test row))
    unfolding fill_bits row_passes is_not_null get
    fill_bits_lem zero output h = ground arith
    fill_bits_lem (suc i) output h =
        let at_row : ℕ = first * 8 + i in
        let byte : at_row / 8 ≡ first + i / 8 = omega arith in
        let bit : at_row % 8 ≡ i % 8 = omega arith in
        let before = fill_bits ops test c.cells c.bitmap first i output in
        let size = length-fill_bits i output in
        let sets =
          bit_of-or_bit before at_row row
            (bit_and (bit_and (get_or c.bitmap (at_row / 8) 0) (shl 1 (at_row % 8)))
              (shl (flag (test (get_or c.cells at_row ops.initial))) (at_row % 8)))
            (row_passes c test at_row) (omega (arith, h (omega arith)))
            (λ k.
              masked_bit (get_or c.bitmap (at_row / 8) 0) (at_row % 8) k
                (test (get_or c.cells at_row ops.initial))) in
        rw (sym byte, sym bit)
          (sets
            ∙ rw (fill_bits_lem i output (λ pos. omega (arith, h (omega arith))))
                (range_step (first * 8) i row (bit_of output row) (row_passes c test)))

  module _ (turns : List ℕ) (c : InnerColumn T) (test : T → Bool)
      (wf : IsBitmap ((length c.cells + 7) / 8) c.bitmap) where
    pub fill_task : ℕ → ℕ → List ℕ → List ℕ
    fill_task b e ret =
        fill_bits ops test c.cells c.bitmap b (min (e * 8) (length c.cells) - b * 8) ret

    fill_task_lem :
        (b e row : ℕ) (ret : List ℕ)
        → length ret ≡ length c.bitmap
        → bit_of (fill_task b e ret) row ≡ (
            bit_of ret row
            || ((leb (b * 8) row && ltb row (b * 8 + (min (e * 8) (length c.cells) - b * 8)))
                && row_passes c test row))
    unfolding fill_task
    fill_task_lem b e row ret same =
        fill_bits_lem c test b row (min (e * 8) (length c.cells) - b * 8) ret
          (λ some_rows. omega (arith, wf.0))

    -- The bitmap of a comparison has the column's size,
    pub run_spans-IsBitmap : IsBitmap (length c.bitmap) (
        run_spans ops turns c
          (λ first size output. fill_bits ops test c.cells c.bitmap first size output))
    unfolding run_spans fill_task
    run_spans-IsBitmap =
        run-keeps filter_tp fill_task ((length c.cells + 7) / 8) (IsBitmap (length c.bitmap))
          (λ b e ret. fill_bits-IsBitmap c test b 0 (length c.bitmap) _ ret) turns
          (replicate (length c.bitmap) 0) (zeros-IsBitmap (length c.bitmap))

    -- and a row's bit set just when the row is not null and passes.
    pub run_spans_lem :
        (row : ℕ)
        → Schedule filter_tp turns
        → row < length c.cells
        → bit_of
            (run_spans ops turns c
              (λ first size output. fill_bits ops test c.cells c.bitmap first size output))
            row
          ≡ row_passes c test row
    unfolding run_spans make_pool fill_task
    run_spans_lem row schedule inside =
        let size : ℕ = length c.bitmap in
        let hit : (b e : ℕ) (ret : List ℕ)
            → length ret ≡ size
            → b ≤ row / 8
            → row / 8 < e
            → e ≤ (length c.cells + 7) / 8
            → bit_of (fill_task b e ret) row ≡ (bit_of ret row || row_passes c test row) =
          λ b e ret same low high fits.
            let spans : (leb (b * 8) row
                  && ltb row (b * 8 + (min (e * 8) (length c.cells) - b * 8)))
                ≡ true =
              ground arith in
            fill_task_lem b e row ret same ∙ rw spans refl in
        let miss : (b e : ℕ) (ret : List ℕ)
            → length ret ≡ size
            → (row / 8 < b) ⊎ (e ≤ row / 8)
            → e ≤ (length c.cells + 7) / 8
            → bit_of (fill_task b e ret) row ≡ bit_of ret row =
          λ b e ret same off fits.
            let spans : (leb (b * 8) row
                  && ltb row (b * 8 + (min (e * 8) (length c.cells) - b * 8)))
                ≡ false =
              ground arith in
            fill_task_lem b e row ret same ∙ rw spans (ground arith) in
        run-once filter_tp fill_task ((length c.cells + 7) / 8) (λ ret. length ret ≡ size)
          (λ b e ret same. length-fill_bits c test b row _ ret ∙ same) (row / 8)
          (λ ret. bit_of ret row) (λ old. old || row_passes c test row) hit miss turns
          (replicate size 0) (omega arith) schedule (omega arith) (length-replicate size 0)
        ∙ rw (bit_of-zeros size row) refl

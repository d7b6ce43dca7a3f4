-- ===== src/Statement/Bitmaps.antt =====
-- The bitmap operations of src/statement.cpp act on each row's bit, in whatever order the threads go.
use native.Mathlib.Nat.{mod-lt}
use sigmod_runtime_engine.Base.{
  ℕ, zero, suc, ◌+◌, ◌-◌, ◌/◌, ◌%◌, ◌≤◌, ◌<◌, bit_and, bit_or, ◌≡◌, refl, ap, ◌∙◌, ◌≢◌, ◌⊎◌, inl,
  inr, true, not, ◌&&◌, ◌||◌, List, arith, ◌==◌, ==→eq, ==→ne, ==_refl, Bool-cases, length, get_or,
  replicate, get_or-set_self, get_or-set_ne,
}
use sigmod_runtime_engine.Bitmap.{bit_of, complement}
use sigmod_runtime_engine.Bitmap.Rows.{
  has_bit-bit_and, has_bit-bit_or, has_bit-complement, IsBitmap, zeros-IsBitmap, set-IsBitmap,
}
use sigmod_runtime_engine.Bits.{bit_and-le, bit_or-lt}
use sigmod_runtime_engine.FilterThreadPool.{filter_tp, run, Schedule, make_pool}
use sigmod_runtime_engine.FilterThreadPool.Turns.{run-once, run-keeps}
use sigmod_runtime_engine.Statement.{ok}
use sigmod_runtime_engine.Statement.Table.{each_byte, bitmap_not, bitmap_and, bitmap_or}

module _ (f : ℕ → ℕ → ℕ) (size : ℕ) (f-lt : (i x : ℕ) → x < 256 → f i x < 256) where
  each_byte-IsBitmap :
      (i count : ℕ) (ret : List ℕ) → IsBitmap size ret → IsBitmap size (each_byte f i count ret)
  unfolding each_byte
  each_byte-IsBitmap i zero ret wf = wf
  each_byte-IsBitmap i (suc count) ret wf =
      each_byte-IsBitmap (i + 1) count _
        (set-IsBitmap size ret i _ (f-lt i (get_or ret i 0) (wf.1 i)) wf)

  each_byte_miss :
      (b i count : ℕ) (ret : List ℕ)
      → (b < i) ⊎ (i + count ≤ b)
      → get_or (each_byte f i count ret) b 0 ≡ get_or ret b 0
  unfolding each_byte
  each_byte_miss b i zero ret off = refl
  each_byte_miss b i (suc count) ret off =
      let ne : i ≢ b = λ e. omega arith in
      let off_rest : (b < i + 1) ⊎ (i + 1 + count ≤ b) = grind arith in
      each_byte_miss b (i + 1) count _ off_rest ∙ get_or-set_ne ret i b (f i (get_or ret i 0)) 0 ne

  each_byte_hit :
      (b i count : ℕ) (ret : List ℕ)
      → IsBitmap size ret
      → i ≤ b
      → b < i + count
      → i + count ≤ size
      → get_or (each_byte f i count ret) b 0 ≡ f b (get_or ret b 0)
  unfolding each_byte
  each_byte_hit b i zero ret wf low high fits = absurd (omega arith)
  each_byte_hit b i (suc count) ret wf low high fits = elim (Bool-cases (i == b)) [
    | inl same ↦
        let e = ==→eq i b same in
        let off : (b < i + 1) ⊎ (i + 1 + count ≤ b) = inl (omega arith) in
        each_byte_miss b (i + 1) count _ off
        ∙ rw e (get_or-set_self ret b (f b (get_or ret b 0)) 0 (omega (arith, wf.0)))
    | inr other ↦
        let ne = ==→ne i b other in
        each_byte_hit b (i + 1) count _
          (set-IsBitmap size ret i _ (f-lt i (get_or ret i 0) (wf.1 i)) wf) (omega arith)
          (omega arith) (omega arith)
        ∙ ap (f b) (get_or-set_ne ret i b (f i (get_or ret i 0)) 0 ne)
  ]

  -- The threads of a run write each byte once.
  pub run-each_byte-IsBitmap :
      (turns ret : List ℕ)
      → IsBitmap size ret
      → IsBitmap size
          (run filter_tp turns (λ first last. each_byte f first (last - first)) size ret)
  run-each_byte-IsBitmap turns ret wf =
      run-keeps filter_tp (λ first last. each_byte f first (last - first)) size (IsBitmap size)
        (λ b e r. each_byte-IsBitmap b (e - b) r) turns ret wf

  pub run-each_byte_lem :
      (turns ret : List ℕ) (b : ℕ)
      → Schedule filter_tp turns
      → IsBitmap size ret
      → b < size
      → get_or (run filter_tp turns (λ first last. each_byte f first (last - first)) size ret) b 0
        ≡ f b (get_or ret b 0)
  unfolding make_pool
  run-each_byte_lem turns ret b schedule wf inside =
      let task : ℕ → ℕ → List ℕ → List ℕ = λ first last. each_byte f first (last - first) in
      let hit : (first last : ℕ) (r : List ℕ)
          → IsBitmap size r
          → first ≤ b
          → b < last
          → last ≤ size
          → get_or (task first last r) b 0 ≡ f b (get_or r b 0) =
        λ first last r same low high fits.
          each_byte_hit b first (last - first) r same low (omega arith) (omega arith) in
      let miss : (first last : ℕ) (r : List ℕ)
          → IsBitmap size r
          → (b < first) ⊎ (last ≤ b)
          → last ≤ size
          → get_or (task first last r) b 0 ≡ get_or r b 0 =
        λ first last r same off fits.
          let outside : (b < first) ⊎ (first + (last - first) ≤ b) = grind arith in
          each_byte_miss b first (last - first) r outside in
      run-once filter_tp task size (IsBitmap size)
        (λ first last r. each_byte-IsBitmap first (last - first) r) b (λ r. get_or r b 0) (f b) hit
        miss turns ret (omega arith) schedule inside wf

complement-lt : (i x : ℕ) → x < 256 → complement x < 256
unfolding complement
complement-lt i x h = omega arith

module _ (turns : List ℕ) where
  -- `~` turns every bit of the bytes over.
  pub bitmap_not-IsBitmap :
      (size : ℕ) (bitmap : List ℕ) → IsBitmap size bitmap → IsBitmap size (bitmap_not turns bitmap)
  unfolding bitmap_not
  bitmap_not-IsBitmap size bitmap wf =
      rw (wf.0)
        (run-each_byte-IsBitmap (λ i byte. complement byte) size complement-lt turns bitmap wf)

  -- Whatever the order of the pool's threads, each taking one turn, `bitmap_not` turns over the bit of
  -- every row whose byte the bitmap has.
  pub bitmap_not_lem :
      (size row : ℕ) (bitmap : List ℕ)
      → Schedule filter_tp turns
      → IsBitmap size bitmap
      → row / 8 < size
      → bit_of (bitmap_not turns bitmap) row ≡ not (bit_of bitmap row)
  unfolding bitmap_not bit_of
  bitmap_not_lem size row bitmap schedule wf inside =
      let flipped =
        run-each_byte_lem (λ i byte. complement byte) size complement-lt turns bitmap (row / 8)
          schedule wf inside in
      let low : row % 8 < 8 = mod-lt row (omega arith) in
      rw (wf.0, flipped)
        (has_bit-complement (get_or bitmap (row / 8) 0) (row % 8) (wf.1 (row / 8)) low)

  module _ (size : ℕ) (lhs rhs : List ℕ) (wl : IsBitmap size lhs) (wr : IsBitmap size rhs) where
    same_size : (length lhs == length rhs) ≡ true
    same_size = rw (wl.0, wr.0) (==_refl size)

    and-lt : (i x : ℕ) → x < 256 → bit_and (get_or lhs i 0) (get_or rhs i 0) < 256
    and-lt i x h = omega (arith, bit_and-le (get_or lhs i 0) (get_or rhs i 0), wl.1 i)

    or-lt : (i x : ℕ) → x < 256 → bit_or (get_or lhs i 0) (get_or rhs i 0) < 256
    or-lt i x h = bit_or-lt 8 (get_or lhs i 0) (get_or rhs i 0) (wl.1 i) (wr.1 i)

    -- `&` and `|` of bitmaps of one size.
    pub bitmap_and_lem :
        Schedule filter_tp turns
        → (ret : List ℕ) × (bitmap_and turns lhs rhs ≡ ok ret)
          × IsBitmap size ret
          × ((row : ℕ) → row / 8 < size → bit_of ret row ≡ (bit_of lhs row && bit_of rhs row))
    unfolding bitmap_and bit_of
    bitmap_and_lem schedule =
        let f : ℕ → ℕ → ℕ = λ i byte. bit_and (get_or lhs i 0) (get_or rhs i 0) in
        (
          run filter_tp turns (λ first last. each_byte f first (last - first)) size
              (replicate size 0),
          rw (same_size, wl.0) refl,
          run-each_byte-IsBitmap f size and-lt turns (replicate size 0) (zeros-IsBitmap size),
          λ row inside.
              rw
                (run-each_byte_lem f size and-lt turns (replicate size 0) (row / 8) schedule
                  (zeros-IsBitmap size) inside)
                (has_bit-bit_and (get_or lhs (row / 8) 0) (get_or rhs (row / 8) 0) (row % 8)),
        )

    pub bitmap_or_lem :
        Schedule filter_tp turns
        → (ret : List ℕ) × (bitmap_or turns lhs rhs ≡ ok ret)
          × IsBitmap size ret
          × ((row : ℕ) → row / 8 < size → bit_of ret row ≡ (bit_of lhs row || bit_of rhs row))
    unfolding bitmap_or bit_of
    bitmap_or_lem schedule =
        let f : ℕ → ℕ → ℕ = λ i byte. bit_or (get_or lhs i 0) (get_or rhs i 0) in
        (
          run filter_tp turns (λ first last. each_byte f first (last - first)) size
              (replicate size 0),
          rw (same_size, wl.0) refl,
          run-each_byte-IsBitmap f size or-lt turns (replicate size 0) (zeros-IsBitmap size),
          λ row inside.
              rw
                (run-each_byte_lem f size or-lt turns (replicate size 0) (row / 8) schedule
                  (zeros-IsBitmap size) inside)
                (has_bit-bit_or (get_or lhs (row / 8) 0) (get_or rhs (row / 8) 0) (row % 8)),
        )

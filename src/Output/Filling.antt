-- ===== src/Output/Filling.antt =====
-- Row by row, the output columns are filled with the words of the pairs.
use mathlib.Core.Option
use mathlib.Core.List.{flatten, append-nil, append_assoc}
use sigmod_runtime_engine.Base.{
  ℕ, suc, ◌+◌, ◌/◌, ◌%◌, ◌<◌, ◌≡◌, refl, sym, ap, ◌∙◌, some, List, [], ◌∷◌, ◌++◌, map, arith,
  length, set, length-append, length-map,
}
use sigmod_runtime_engine.Columnar.{ColumnT}
use sigmod_runtime_engine.Columnar.Paged.{Chunked}
use sigmod_runtime_engine.Join.{OutPair}
use sigmod_runtime_engine.Output.{OutputMap, Inputs, write_page, fill_row, fill_rows}
use sigmod_runtime_engine.Output.Pages.{
  zeros, set-append_right, write_page-Chunked, flatten-write_page,
}
use sigmod_runtime_engine.Output.Sides.{SameInputs, cell, CellIn, fetch_lem}

map_snoc :
    {A : Type 0} (f : A → ℕ) (xs : List A) (x : A) (ys : List ℕ)
    → map f (xs ++ x ∷ []) ++ ys ≡ map f xs ++ f x ∷ ys
map_snoc f [] x ys = refl
map_snoc f (y ∷ xs) x ys = ap (λ r. f y ∷ r) (map_snoc f xs x ys)

-- The columns of a row that are read have it.
unfoldable pub RowCells : Inputs → List OutputMap → OutPair → Type 0
RowCells s [] op = Unit {0}
RowCells s (m ∷ ms) op = CellIn s m op × RowCells s ms op

unfoldable pub AllCells : Inputs → List OutputMap → List OutPair → Type 0
AllCells s ms [] = Unit {0}
AllCells s ms (op ∷ ops) = RowCells s ms op × AllCells s ms ops

-- An output column whose first rows hold the words of `done`, with `n` rows to come.
pub record Partial (sz total : ℕ) (s : Inputs) (m : OutputMap) (done : List OutPair) (n : ℕ)
    (dst : ColumnT) : Type 0 where
  pub sized : dst.values_per_page ≡ sz
  pub chunked : Chunked sz dst.pages
  pub words : flatten dst.pages ≡ map (cell s m) done ++ zeros n
  pub counted : dst.num_values ≡ total

module _ (sz total : ℕ) (s : Inputs) where
  -- One for each entry of the map.
  unfoldable pub Partials : List OutputMap → List OutPair → ℕ → List ColumnT → Type 0
  Partials [] done n [] = Unit {0}
  Partials [] done n (dst ∷ dsts) = ⊥
  Partials (m ∷ ms) done n [] = ⊥
  Partials (m ∷ ms) done n (dst ∷ dsts) = Partial sz total s m done n dst × Partials ms done n dsts

module _ (sz total : ℕ) (pos : 0 < sz) (s : Inputs) where
  write-Partial :
      (m : OutputMap) (done : List OutPair) (op : OutPair) (n : ℕ) (dst : ColumnT)
      → Partial sz total s m done (suc n) dst
      → Partial sz total s m (done ++ op ∷ []) n (record dst {
        pages = write_page dst.pages (length done / sz) (length done % sz) (cell s m op);
      })
  write-Partial m done op n dst p =
      let row : ℕ = length done in
      let v = cell s m op in
      let front = map (cell s m) done in
      let many = length-map (cell s m) done in
      let long = ap length p.words ∙ length-append front (zeros (suc n)) in
      let at_end : row ≡ length front + 0 = omega (arith, many) in
      record {
        sized = p.sized;
        chunked = write_page-Chunked sz dst.pages (row / sz) (row % sz) v p.chunked;
        words =
            flatten-write_page sz dst.pages row v pos p.chunked (omega (arith, long, many))
            ∙ ap (λ l. set l row v) p.words
            ∙ ap (λ i. set (front ++ zeros (suc n)) i v) at_end
            ∙ set-append_right front (zeros (suc n)) 0 v
            ∙ sym (map_snoc (cell s m) done op (zeros n));
        counted = p.counted;
      }

  fill_row_lem :
      (ms : List OutputMap) (done : List OutPair) (op : OutPair) (n : ℕ) (dsts : List ColumnT)
      (s' : Inputs)
      → Partials sz total s ms done (suc n) dsts
      → SameInputs s s'
      → RowCells s ms op
      → (dsts' : List ColumnT) × (s'' : Inputs) × (fill_row op
            (length done / sz)
            (length done % sz)
            ms
            dsts
            s'
          ≡ some (dsts', s''))
        × Partials sz total s ms (done ++ op ∷ []) n dsts'
        × SameInputs s s''
  unfolding fill_row Partials RowCells Option.bind
  fill_row_lem [] done op n [] s' p same cells = ([], s', refl, tt, same)
  fill_row_lem [] done op n (dst ∷ dsts) s' p same cells = absurd p
  fill_row_lem (m ∷ ms) done op n [] s' p same cells = absurd p
  fill_row_lem (m ∷ ms) done op n (dst ∷ dsts) s' p same cells =
      let (s₁, got, same₁) = fetch_lem s s' m op same cells.0 in
      let (dsts', s₂, rest, q, same₂) = fill_row_lem ms done op n dsts s₁ p.1 same₁ cells.1 in
      (
        record dst {
          pages = write_page dst.pages (length done / sz) (length done % sz) (cell s m op);
        }
            ∷ dsts',
        s₂,
        rw (got, rest),
        (write-Partial m done op n dst p.0, q),
        same₂,
      )

  pub fill_rows_lem :
      (ms : List OutputMap) (done ops : List OutPair) (dsts : List ColumnT) (s' : Inputs)
      → Partials sz total s ms done (length ops) dsts
      → SameInputs s s'
      → AllCells s ms ops
      → (dsts' : List ColumnT) × (s'' : Inputs) × (fill_rows sz ms (length done) ops dsts s'
          ≡ some (dsts', s''))
        × Partials sz total s ms (done ++ ops) 0 dsts'
  unfolding fill_rows AllCells Option.bind
  fill_rows_lem ms done [] dsts s' p same cells = (dsts, s', refl, rw append-nil p)
  fill_rows_lem ms done (op ∷ ops) dsts s' p same cells =
      let (d₁, s₁, row, q, same₁) = fill_row_lem ms done op (length ops) dsts s' p same cells.0 in
      let (d₂, s₂, rest, r) = fill_rows_lem ms (done ++ op ∷ []) ops d₁ s₁ q same₁ cells.1 in
      let next : length (done ++ op ∷ []) ≡ length done + 1 =
        omega (arith, length-append done (op ∷ [])) in
      (d₂, s₂, rw row (rw next at rest), rw append_assoc at r)

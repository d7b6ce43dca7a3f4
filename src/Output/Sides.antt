-- ===== src/Output/Sides.antt =====
-- The inputs while the output is filled: reading moves page caches and nothing else.
use sigmod_runtime_engine.Base.{
  ℕ, zero, suc, ◌≡◌, refl, sym, ◌∙◌, ◌⊎◌, inl, inr, some, List, [], ◌∷◌, ◌==◌, if◌then◌else◌, ==→eq,
  ==→ne, Bool-cases, get_or, set, get_or-set_ne,
}
use sigmod_runtime_engine.Columnar.{ColumnT, get}
use sigmod_runtime_engine.Columnar.Cells.{
  word_at, RowIn, recached, get-word_at, RowIn-recached, word_at-recached,
}
use sigmod_runtime_engine.Join.{OutPair}
use sigmod_runtime_engine.Output.{OutputMap, Inputs, no_column, fetch}

-- The same columns, but for their page caches.
abbrev Recached : List ColumnT → List ColumnT → Type 0
Recached cs cs' = (i : ℕ) → (p : ℕ) × (get_or cs' i no_column ≡ recached (get_or cs i no_column) p)

pub record SameInputs (s s' : Inputs) : Type 0 where
  pub left : Recached s.left s'.left
  pub right : Recached s.right s'.right

pub SameInputs-refl : (s : Inputs) → SameInputs s s
SameInputs-refl s = record {
  left = λ i. ((get_or s.left i no_column).cached_page_idx, refl);
  right = λ i. ((get_or s.right i no_column).cached_page_idx, refl);
}

-- The word that belongs into an output column for a pair.
pub cell : Inputs → OutputMap → OutPair → ℕ
cell s m op =
    if m.from_left
    then word_at (get_or s.left m.idx no_column) op.lidx
    else word_at (get_or s.right m.idx no_column) op.ridx

-- The column has the row.
unfoldable pub CellIn : Inputs → OutputMap → OutPair → Type 0
CellIn s m op =
    if m.from_left
    then RowIn (get_or s.left m.idx no_column) op.lidx
    else RowIn (get_or s.right m.idx no_column) op.ridx

set_cases :
    (cs : List ColumnT) (i : ℕ) (c d : ColumnT)
    → (get_or (set cs i c) i d ≡ c) ⊎ (get_or (set cs i c) i d ≡ get_or cs i d)
set_cases [] i c d = inr refl
set_cases (x ∷ cs) zero c d = inl refl
set_cases (x ∷ cs) (suc i) c d = set_cases cs i c d

Recached-set :
    (cs cs' : List ColumnT) (i p : ℕ)
    → Recached cs cs'
    → Recached cs (set cs' i (recached (get_or cs i no_column) p))
Recached-set cs cs' i p same j =
    let c : ColumnT = recached (get_or cs i no_column) p in
    elim (Bool-cases (i == j)) [
      | inr other ↦
          let (q, is) = same j in (q, get_or-set_ne cs' i j c no_column (==→ne _ _ other) ∙ is)
      | inl e ↦
          let e' : i ≡ j = ==→eq _ _ e in
          rw (sym e') (elim (set_cases cs' i c no_column) [
            | inl new ↦ (p, new)
            | inr old ↦ let (q, is) = same i in (q, old ∙ is)
          ])
    ]

-- Reading gives the word, whatever was read before.
read_recached :
    (cs cs' : List ColumnT) (i row : ℕ)
    → Recached cs cs'
    → RowIn (get_or cs i no_column) row
    → (p : ℕ) × (get (get_or cs' i no_column) row
        ≡ some (word_at (get_or cs i no_column) row, recached (get_or cs i no_column) p))
read_recached cs cs' i row same inside =
    let c = get_or cs i no_column in
    let (q, is) = same i in
    let (p, got) = get-word_at (recached c q) row (RowIn-recached c q row inside) in
    (p, rw (is, got, word_at-recached c q row))

pub fetch_lem :
    (s s' : Inputs) (m : OutputMap) (op : OutPair)
    → SameInputs s s'
    → CellIn s m op
    → (s'' : Inputs) × (fetch s' m op ≡ some (cell s m op, s'')) × SameInputs s s''
unfolding fetch cell CellIn
fetch_lem s s' m op same inside = elim (Bool-cases m.from_left) [
  | inl left ↦
      let (p, got) = read_recached s.left s'.left m.idx op.lidx same.left (rw left at inside) in
      (
        record s' { left = set s'.left m.idx (recached (get_or s.left m.idx no_column) p) },
        rw (left, got),
        record { left = Recached-set s.left s'.left m.idx p same.left; right = same.right },
      )
  | inr right ↦
      let (p, got) = read_recached s.right s'.right m.idx op.ridx same.right (rw right at inside) in
      (
        record s' { right = set s'.right m.idx (recached (get_or s.right m.idx no_column) p) },
        rw (right, got),
        record { left = same.left; right = Recached-set s.right s'.right m.idx p same.right },
      )
]

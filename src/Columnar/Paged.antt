-- ===== src/Columnar/Paged.antt =====
-- A materialised column is a list of words: appending and reading on pages are those of the list.
use mathlib.Core.List.{flatten, append_assoc, append-nil}
use native.Mathlib.Nat.{div-eq-sub-div, mod-eq-sub-mod, div-eq_of_lt, mod-eq_of_lt}
use sigmod_runtime_engine.Base.{
  ℕ, suc, ◌+◌, ◌-◌, ◌/◌, ◌%◌, ◌≤◌, ◌<◌, ◌≡◌, refl, sym, ap, ◌∙◌, inl, inr, false, none, some, List,
  [], ◌∷◌, ◌++◌, arith, ltb, leb, ◌==◌, if◌then◌else◌, ltb→lt, ltb→le, ==→eq, ==→ne, Bool-cases,
  length, get_or, length-append, get_or-append_left, get_or-append_right,
}
use sigmod_runtime_engine.Columnar.{
  ColumnT, new, push_back, append, paged_value, source, get_from, get,
}

-- All pages but the last are full.
unfoldable pub Chunked : ℕ → List (List ℕ) → Type 0
Chunked size [] = Unit {0}
Chunked size (page ∷ []) = (0 < length page) × (length page ≤ size)
Chunked size (page ∷ next ∷ pages) = (length page ≡ size) × Chunked size (next ∷ pages)

pub record IsPaged (c : ColumnT) : Type 0 where
  pub some_size : 0 < c.values_per_page
  pub chunked : Chunked c.values_per_page c.pages
  pub counted : length (flatten c.pages) ≡ c.num_values

pub new-IsPaged : (page_size : ℕ) → 0 < page_size → IsPaged (new page_size)
unfolding new Chunked flatten
new-IsPaged page_size h = record { some_size = h; chunked = tt; counted = refl }

push_back-Chunked :
    (size : ℕ) (pages : List (List ℕ)) (v : ℕ)
    → 0 < size
    → Chunked size pages
    → Chunked size (push_back size pages v)
unfolding Chunked push_back
push_back-Chunked size [] v pos h = omega arith
push_back-Chunked size (page ∷ []) v pos h = elim (Bool-cases (leb size (length page))) [
  | inl full ↦ rw full (ground arith)
  | inr room ↦ rw (room, length-append page (v ∷ [])) (ground arith)
]
push_back-Chunked size (page ∷ next ∷ []) v pos h =
    let rest = push_back-Chunked size (next ∷ []) v pos h.1 in
    elim (Bool-cases (leb size (length next))) [
      | inl full ↦ rw full (h.0, rw full at rest)
      | inr room ↦ rw room (h.0, rw room at rest)
    ]
push_back-Chunked size (page ∷ next ∷ third ∷ pages) v pos h =
    (h.0, push_back-Chunked size (next ∷ third ∷ pages) v pos h.1)

pub flatten-push_back :
    (size : ℕ) (pages : List (List ℕ)) (v : ℕ)
    → flatten (push_back size pages v) ≡ flatten pages ++ v ∷ []
unfolding push_back flatten
flatten-push_back size [] v = refl
flatten-push_back size (page ∷ []) v = elim (Bool-cases (leb size (length page))) [
  | inl full ↦ rw full (simp append-nil)
  | inr room ↦ rw room (simp append-nil)
]
flatten-push_back size (page ∷ next ∷ pages) v =
    ap (λ r. page ++ r) (flatten-push_back size (next ∷ pages) v)
    ∙ sym (append_assoc page (flatten (next ∷ pages)) (v ∷ []))

-- The page and the slot of a row, by division, lead to the row's place in the list.
read-Chunked :
    (size : ℕ) (pages : List (List ℕ)) (row : ℕ)
    → 0 < size
    → Chunked size pages
    → row < length (flatten pages)
    → get_or (get_or pages (row / size) []) (row % size) 0 ≡ get_or (flatten pages) row 0
unfolding Chunked flatten
read-Chunked size [] row pos h inside = absurd (omega arith)
read-Chunked size (page ∷ []) row pos h inside =
    let here : row < length page = rw append-nil at inside in
    let first = div-eq_of_lt {n = row} {m = size} (omega arith) in
    let slot = mod-eq_of_lt {n = row} {m = size} (omega arith) in rw (first, slot, append-nil)
read-Chunked size (page ∷ next ∷ pages) row pos h inside = elim (Bool-cases (ltb row size)) [
  | inl first ↦
      let here = ltb→lt _ _ first in
      let page_0 = div-eq_of_lt {n = row} {m = size} here in
      let slot = mod-eq_of_lt {n = row} {m = size} here in
      rw (page_0, slot) (sym (get_or-append_left page (flatten (next ∷ pages)) row 0 (omega arith)))
  | inr later ↦
      let behind = ltb→le _ _ later in
      let r : ℕ = row - size in
      let there : row ≡ length page + r = omega arith in
      let page_s : row / size ≡ suc (r / size) = omega (arith, div-eq-sub-div pos behind) in
      let slot = mod-eq-sub-mod behind in
      let total = length-append page (flatten (next ∷ pages)) in
      rw (page_s, slot)
        (read-Chunked size (next ∷ pages) r pos h.1 (omega (arith, total))
          ∙ sym (get_or-append_right page (flatten (next ∷ pages)) r 0)
          ∙ ap (λ i. get_or (page ++ flatten (next ∷ pages)) i 0) (sym there))
]

-- Appending keeps the pages in shape, and is appending to the list of values.
pub append-IsPaged :
    (c : ColumnT) (v : ℕ)
    → IsPaged c
    → IsPaged (append c v) × (flatten (append c v).pages ≡ flatten c.pages ++ v ∷ [])
unfolding append
append-IsPaged c v p =
    let all = flatten-push_back c.values_per_page c.pages v in
    (
      record {
        some_size = p.some_size;
        chunked = push_back-Chunked c.values_per_page c.pages v p.some_size p.chunked;
        counted = omega (arith, p.counted, ap length all, length-append (flatten c.pages) (v ∷ []));
      },
      all,
    )

-- Reading row `row` of a materialised column is reading the list of its values at `row`.
pub paged_value-flatten :
    (c : ColumnT) (row : ℕ)
    → IsPaged c
    → row < c.num_values
    → paged_value c row ≡ get_or (flatten c.pages) row 0
unfolding paged_value
paged_value-flatten c row p h =
    read-Chunked c.values_per_page c.pages row p.some_size p.chunked (omega (arith, p.counted))

paged_value-append :
    (c : ColumnT) (v row : ℕ)
    → IsPaged c
    → row ≤ c.num_values
    → paged_value (append c v) row ≡ (if row == c.num_values then v else paged_value c row)
paged_value-append c v row p h =
    let next = append-IsPaged c v p in
    let values = flatten c.pages in
    let more : (append c v).num_values ≡ c.num_values + 1 = unfold append in refl in
    let reads = paged_value-flatten (append c v) row next.0 (omega (arith, more)) in
    let listed = reads ∙ ap (λ l. get_or l row 0) next.1 in
    elim (Bool-cases (row == c.num_values)) [
      | inl last ↦
          let at_end : row ≡ length values + 0 = omega (arith, ==→eq _ _ last, p.counted) in
          rw last (
            listed
            ∙ ap (λ i. get_or (values ++ v ∷ []) i 0) at_end
            ∙ get_or-append_right values (v ∷ []) 0 0)
      | inr earlier ↦
          let before = ==→ne _ _ earlier in
          rw earlier (
            listed
            ∙ get_or-append_left values (v ∷ []) row 0 (omega (arith, p.counted))
            ∙ sym (paged_value-flatten c row p (omega arith)))
    ]

-- A materialised column is read on its own pages.
pub get-paged_value :
    (c : ColumnT) (row : ℕ) → c.is_zero_copy ≡ false → get c row ≡ some (paged_value c row, c)
unfolding get get_from
get-paged_value c row materialised =
    let own_pages : source c ≡ none = unfold source in rw materialised in rw own_pages

-- What was appended is read back by `get`, and what was there before is still read as it was.
pub get-append :
    (c : ColumnT) (v row : ℕ)
    → IsPaged c
    → c.is_zero_copy ≡ false
    → row ≤ c.num_values
    → get (append c v) row ≡ some (if row == c.num_values then v else paged_value c row, append c v)
unfolding get get_from
get-append c v row p materialised h =
    let own_pages : source (append c v) ≡ none = unfold source append in rw materialised in
    rw (own_pages, paged_value-append c v row p h)

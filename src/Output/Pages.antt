-- ===== src/Output/Pages.antt =====
-- Writing to a page by division is writing to the list of all values.
use mathlib.Core.List.{flatten, append-nil}
use native.Mathlib.Nat.{div-eq_of_lt, mod-eq_of_lt, div-eq-sub-div, mod-eq-sub-mod}
use sigmod_runtime_engine.Base.{
  ℕ, zero, suc, ◌+◌, ◌-◌, ◌/◌, ◌%◌, ◌≤◌, ◌<◌, min, ◌≡◌, refl, sym, ap, ◌∙◌, inl, inr, some, List,
  [], ◌∷◌, ◌++◌, arith, ltb, ltb→lt, ltb→le, Bool-cases, length, set, replicate, length-append,
  length-set, length-replicate,
}
use sigmod_runtime_engine.Columnar.Paged.{Chunked}
use sigmod_runtime_engine.Output.{write_page, allocate}

module _ {ℓ} {A : Type ℓ} where
  pub set-append_left :
      (xs ys : List A) (i : ℕ) (v : A) → i < length xs → set (xs ++ ys) i v ≡ set xs i v ++ ys
  set-append_left [] ys i v h = absurd (omega arith)
  set-append_left (x ∷ xs) ys zero v h = refl
  set-append_left (x ∷ xs) ys (suc i) v h =
      ap (λ r. x ∷ r) (set-append_left xs ys i v (omega arith))

  pub set-append_right :
      (xs ys : List A) (i : ℕ) (v : A) → set (xs ++ ys) (length xs + i) v ≡ xs ++ set ys i v
  set-append_right [] ys i v = ap (λ k. set ys k v) (let e : 0 + i ≡ i = omega arith in e)
  set-append_right (x ∷ xs) ys i v =
      let e : suc (length xs) + i ≡ suc (length xs + i) = omega arith in
      rw e (ap (λ r. x ∷ r) (set-append_right xs ys i v))

pub write_page-Chunked :
    (size : ℕ) (pages : List (List ℕ)) (page_idx off v : ℕ)
    → Chunked size pages
    → Chunked size (write_page pages page_idx off v)
unfolding Chunked write_page
write_page-Chunked size [] page_idx off v h = h
write_page-Chunked size (page ∷ []) zero off v h = rw (length-set page off v) h
write_page-Chunked size (page ∷ []) (suc page_idx) off v h = h
write_page-Chunked size (page ∷ next ∷ pages) zero off v h = rw (length-set page off v) h
write_page-Chunked size (page ∷ next ∷ pages) (suc zero) off v h =
    (h.0, write_page-Chunked size (next ∷ pages) zero off v h.1)
write_page-Chunked size (page ∷ next ∷ pages) (suc (suc i)) off v h =
    (h.0, write_page-Chunked size (next ∷ pages) (suc i) off v h.1)

pub flatten-write_page :
    (size : ℕ) (pages : List (List ℕ)) (row v : ℕ)
    → 0 < size
    → Chunked size pages
    → row < length (flatten pages)
    → flatten (write_page pages (row / size) (row % size) v) ≡ set (flatten pages) row v
unfolding Chunked flatten write_page
flatten-write_page size [] row v pos h inside = absurd (omega arith)
flatten-write_page size (page ∷ []) row v pos h inside =
    let here : row < length page = rw append-nil at inside in
    let first = div-eq_of_lt {n = row} {m = size} (omega arith) in
    let slot = mod-eq_of_lt {n = row} {m = size} (omega arith) in
    rw (first, slot) (sym (set-append_left page [] row v here))
flatten-write_page size (page ∷ next ∷ pages) row v pos h inside =
    elim (Bool-cases (ltb row size)) [
      | inl first ↦
          let here = ltb→lt _ _ first in
          let page_0 = div-eq_of_lt {n = row} {m = size} here in
          let slot = mod-eq_of_lt {n = row} {m = size} here in
          rw (page_0, slot)
            (sym (set-append_left page (flatten (next ∷ pages)) row v (omega arith)))
      | inr later ↦
          let behind = ltb→le _ _ later in
          let r : ℕ = row - size in
          let there : length page + r ≡ row = omega arith in
          let page_s : row / size ≡ suc (r / size) = omega (arith, div-eq-sub-div pos behind) in
          let slot = mod-eq-sub-mod behind in
          let total = length-append page (flatten (next ∷ pages)) in
          rw (page_s, slot)
            (ap (λ l. page ++ l)
                (flatten-write_page size (next ∷ pages) r v pos h.1 (omega (arith, total)))
              ∙ sym (set-append_right page (flatten (next ∷ pages)) r v)
              ∙ ap (λ i. set (page ++ flatten (next ∷ pages)) i v) there)
    ]

Chunked-cons :
    (size : ℕ) (page : List ℕ) (pages : List (List ℕ))
    → 0 < size
    → 0 < length page
    → length page ≤ size
    → (0 < length (flatten pages) → length page ≡ size)
    → Chunked size pages
    → Chunked size (page ∷ pages)
unfolding Chunked flatten
Chunked-cons size page [] pos some_value fits full rest = (some_value, fits)
Chunked-cons size page (next ∷ []) pos some_value fits full rest =
    (full (omega (arith, length-append next [], rest.0)), rest)
Chunked-cons size page (next ∷ third ∷ pages) pos some_value fits full rest =
    (full (omega (arith, length-append next (flatten (third ∷ pages)), rest.0)), rest)

abbrev pub zeros : ℕ → List ℕ
zeros n = replicate n 0

zeros_add : (m n : ℕ) → zeros m ++ zeros n ≡ zeros (m + n)
zeros_add zero n = let e : n ≡ zero + n = omega arith in ap zeros e
zeros_add (suc m) n =
    let e : suc (m + n) ≡ suc m + n = omega arith in ap (λ r. 0 ∷ r) (zeros_add m n) ∙ ap zeros e

-- The loop ends, and the pages hold one value for each row.
pub allocate_lem :
    (fuel page_sz total written : ℕ)
    → 0 < page_sz
    → total - written < fuel
    → (pages : List (List ℕ)) × (allocate fuel page_sz total written ≡ some pages)
      × Chunked page_sz pages
      × (flatten pages ≡ zeros (total - written))
unfolding allocate flatten
allocate_lem zero page_sz total written pos enough = absurd (omega arith)
allocate_lem (suc fuel) page_sz total written pos enough =
    let take : ℕ = min page_sz (total - written) in
    elim (Bool-cases (ltb written total)) [
      | inr all ↦
          let none_left : total - written ≡ 0 = omega (arith, ltb→le _ _ all) in
          ([], rw all, unfold Chunked in tt, rw none_left)
      | inl more ↦
          let less = ltb→lt _ _ more in
          let (pages, found, chunked, blank) =
            allocate_lem fuel page_sz total (written + take) pos (omega arith) in
          let count : length (flatten pages) ≡ total - (written + take) =
            ap length blank ∙ length-replicate _ 0 in
          let long = length-replicate {A = ℕ} take 0 in
          let sum : take + (total - (written + take)) ≡ total - written = omega arith in
          (
            replicate take 0 ∷ pages,
            rw (more, found),
            Chunked-cons page_sz (replicate take 0) pages pos (omega (arith, long))
                (omega (arith, long)) (λ h. omega (arith, long, count)) chunked,
            ap (λ r. zeros take ++ r) blank
                ∙ zeros_add take (total - (written + take))
                ∙ ap zeros sum,
          )
    ]

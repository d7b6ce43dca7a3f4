-- ===== src/WorkStealing/Rows.antt =====
-- The rows of a range, each with what it puts out, and lists of lists up to order.
use mathlib.Core.List.{flatten, Perm, append_assoc, perm_append_comm}
use mathlib.Core.List.Perm
use sigmod_runtime_engine.Base.{
  ℕ, zero, suc, ◌+◌, ◌<◌, ◌≤◌, ◌≡◌, refl, sym, arith, List, [], ◌∷◌, ◌++◌, length, get_or, set,
  replicate,
}

module _ {ℓ} {A : Type ℓ} where
  -- `for (j = from; j < from + n; ++j)`, where row `j` puts out `f j`.
  unfoldable pub for_rows : (ℕ → List A) → ℕ → ℕ → List A
  for_rows f from zero = []
  for_rows f from (suc n) = f from ++ for_rows f (from + 1) n

  pub for_rows-append :
      (f : ℕ → List A) (from m n : ℕ)
      → for_rows f from (m + n) ≡ for_rows f from m ++ for_rows f (from + m) n
  unfolding for_rows
  for_rows-append f from zero n =
      let e : zero + n ≡ n = omega arith in let e' : from + zero ≡ from = omega arith in rw (e, e')
  for_rows-append f from (suc m) n =
      let e : suc m + n ≡ suc (m + n) = omega arith in
      let e' : from + suc m ≡ from + 1 + m = omega arith in
      rw (e, e', for_rows-append f (from + 1) m n)
        (sym (append_assoc (f from) (for_rows f (from + 1) m) _))

  pub for_rows_congr :
      (f g : ℕ → List A) (from n : ℕ)
      → ((j : ℕ) → from ≤ j → j < from + n → f j ≡ g j)
      → for_rows f from n ≡ for_rows g from n
  unfolding for_rows
  for_rows_congr f g from zero h = refl
  for_rows_congr f g from (suc n) h = rw (
    h from (omega arith) (omega arith),
    for_rows_congr f g (from + 1) n (λ j p q. h j (omega arith) (omega arith)),
  )

  -- What a thread appends to its own list is appended to the whole, up to order.
  pub flatten-set-perm :
      (out : List (List A)) (t : ℕ) (w : List A)
      → t < length out
      → Perm (flatten (set out t (get_or out t [] ++ w))) (flatten out ++ w)
  unfolding flatten
  flatten-set-perm [] t w h = absurd (omega arith)
  flatten-set-perm (x ∷ xs) zero w h =
      rw (append_assoc, append_assoc) (Perm.append_left x (perm_append_comm w (flatten xs)))
  flatten-set-perm (x ∷ xs) (suc t) w h =
      rw append_assoc (Perm.append_left x (flatten-set-perm xs t w (omega arith)))

  pub flatten-replicate : (n : ℕ) → flatten (replicate {A = List A} n []) ≡ []
  unfolding flatten
  flatten-replicate zero = refl
  flatten-replicate (suc n) = flatten-replicate n

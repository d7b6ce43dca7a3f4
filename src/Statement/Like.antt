-- ===== src/Statement/Like.antt =====
-- Comparison::like_match of include/statement.h, with its cache of compiled patterns.
use sigmod_runtime_engine.Base.{
  ℕ, ◌≡◌, refl, sym, inl, inr, Bool, true, false, ◌&&◌, ◌||◌, Option, none, some, List, [], ◌∷◌,
  ◌++◌, arith, ◌==◌, if◌then◌else◌, ==→eq, Bool-cases,
}
use sigmod_runtime_engine.InnerColumn.Strings.{string_equal}

-- RE2, which is not part of the repository: whether a pattern compiles, and the full match.
pub record Regex : Type 0 where
  pub compiles : List ℕ → Bool
  pub full_match : List ℕ → List ℕ → Bool

-- `\\ . ^ $ | ? * + ( ) [ ] { }`
unfoldable pub is_special : ℕ → Bool
is_special c =
    c == 92
    || (c == 46
        || (c == 94
            || (c == 36
                || (c == 124
                    || (c == 63
                        || (c == 42
                            || (c == 43
                                || (c == 40
                                    || (c == 41
                                        || (c == 91 || (c == 93 || (c == 123 || c == 125))))))))))))

-- What the loop appends for a character: `%` is 37, `_` is 95.
unfoldable pub regex_of : ℕ → List ℕ
regex_of c =
    if c == 37
    then 46 ∷ 42 ∷ []
    else if c == 95
    then 46 ∷ []
    else if is_special c
    then 92 ∷ c ∷ []
    else c ∷ []

unfoldable pub to_regex : List ℕ → List ℕ
to_regex [] = []
to_regex (c ∷ pattern_chars) = regex_of c ++ to_regex pattern_chars

-- `regex_cache`: the compiled expression of a pattern is its text.
abbrev pub Cache : Type 0
Cache = List (List ℕ × List ℕ)

abbrev pub find : List ℕ → Cache → Option (List ℕ)
find key [] = none
find key ((name, regex) ∷ cache) =
    let rest = find key cache in if string_equal name key then some regex else rest

-- What follows the lookup: a pattern that is not there is compiled and kept.
unfoldable pub match_found : Regex → List ℕ → List ℕ → Cache → Option (List ℕ) → Bool × Cache
match_found re str key cache (some regex) = (re.full_match str regex, cache)
match_found re str key cache none =
    let regex_str = to_regex key in
    if re.compiles regex_str
    then (re.full_match str regex_str, (key, regex_str) ∷ cache)
    else (false, cache)

unfoldable pub like_match : Regex → List ℕ → List ℕ → Cache → Bool × Cache
like_match re str key cache = match_found re str key cache (find key cache)

-- What LIKE says with no cache: a pattern that does not compile matches nothing.
unfoldable pub like_result : Regex → List ℕ → List ℕ → Bool
like_result re str key = re.compiles (to_regex key) && re.full_match str (to_regex key)

-- Every entry is the compiled expression of its pattern.
unfoldable pub IsValid : Regex → Cache → Type 0
IsValid re [] = Unit
IsValid re ((name, regex) ∷ cache) =
    (regex ≡ to_regex name) × (re.compiles regex ≡ true) × IsValid re cache

string_equal→eq : (xs ys : List ℕ) → string_equal xs ys ≡ true → xs ≡ ys
string_equal→eq [] [] h = refl
string_equal→eq [] (y ∷ ys) h = absurd (ground arith)
string_equal→eq (x ∷ xs) [] h = absurd (ground arith)
string_equal→eq (x ∷ xs) (y ∷ ys) h =
    let first : (x == y) ≡ true = ground arith in
    let rest : string_equal xs ys ≡ true = ground arith in
    rw (==→eq x y first, string_equal→eq xs ys rest) refl

find-valid :
    (re : Regex) (key regex : List ℕ) (cache : Cache)
    → IsValid re cache
    → find key cache ≡ some regex
    → (regex ≡ to_regex key) × (re.compiles regex ≡ true)
unfolding IsValid
find-valid re key regex [] valid h = absurd (ground arith)
find-valid re key regex ((name, r) ∷ cache) valid h = elim (Bool-cases (string_equal name key)) [
  | inl same ↦
      let found : some r ≡ some regex = rw same at h in
      let e : r ≡ regex = cc in
      (rw (sym e, valid.0, string_equal→eq name key same) refl, rw (sym e) valid.1)
  | inr other ↦ find-valid re key regex cache valid.2 (rw other at h)
]

match_found_lem :
    (re : Regex) (str key : List ℕ) (cache : Cache) (found : Option (List ℕ))
    → find key cache ≡ found
    → IsValid re cache
    → ((match_found re str key cache found).0 ≡ like_result re str key)
      × IsValid re (match_found re str key cache found).1
unfolding match_found like_result IsValid
match_found_lem re str key cache (some regex) found valid =
    let (is, compiled) = find-valid re key regex cache valid found in
    let compiled_key : re.compiles (to_regex key) ≡ true = rw (sym is) compiled in
    (rw (is, compiled_key) refl, valid)
match_found_lem re str key cache none found valid = elim (Bool-cases (re.compiles (to_regex key))) [
  | inl compiled ↦ rw compiled (refl, (refl, compiled, valid))
  | inr broken ↦ rw broken (refl, valid)
]

-- With a cache each entry of which is its pattern's compiled expression, a match says what the pattern,
-- compiled anew, says, and the cache it leaves is such a cache.
pub like_match_lem :
    (re : Regex) (str key : List ℕ) (cache : Cache)
    → IsValid re cache
    → ((like_match re str key cache).0 ≡ like_result re str key)
      × IsValid re (like_match re str key cache).1
unfolding like_match
like_match_lem re str key cache valid = match_found_lem re str key cache (find key cache) refl valid

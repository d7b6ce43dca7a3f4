-- ===== src/CsvParser/Steps.antt =====
-- CSVParser: one character at a time, and what is pending at the end of a chunk.
use sigmod_runtime_engine.Base.{
  ℕ, ◌≡◌, refl, sym, ap, ◌∙◌, ◌⊎◌, inl, inr, Bool, true, false, not, ◌&&◌, ◌||◌, Option, none, some,
  List, ◌∷◌, arith, ◌==◌, if◌then◌else◌, Bool-cases,
}
use sigmod_runtime_engine.CsvParser.{
  quote, line_feed, carriage_return, Config, CsvParser, Outcome, parsed, failed, Action, advance,
  advance_two, return_ok, fail, set_flags, push_char, emit, end_record, check_columns, next_row,
  after_record, on_return, on_quote, on_escape, char_step, loop, resume_escape, execute,
}

-- Between two characters: nothing is pending, and within quotes no separator has just been read.
unfoldable pub IsReady : CsvParser → Type 0
IsReady p =
    (p.escaping ≡ false)
    × (p.newlining ≡ false)
    × ((p.quoted && p.after_field_sep) ≡ false)
    × ((p.quoted && p.after_record_sep) ≡ false)

-- An escape character, which ended the chunk before, is pending.
unfoldable pub IsPending : CsvParser → Type 0
IsPending p = (p.escaping ≡ true) × (p.quoted ≡ true) × IsReady (record p { escaping = false })

-- A carriage return, which ended the chunk before, is pending: the record has yet to be ended, and a
-- line feed may have to be skipped.
unfoldable pub IsReturned : CsvParser → Type 0
IsReturned p = (p.newlining ≡ true) × (p.escaping ≡ false) × (p.quoted ≡ false)

-- What a step leaves, by what it makes the loop do.
abbrev pub StepOf : CsvParser → Action → Type 0
StepOf p (advance q) = IsReady q
StepOf p (advance_two q) = IsReady q
StepOf p (return_ok q) = IsReturned q ⊎ IsPending q
StepOf p (fail e q) = Unit

module _ (cfg : Config) where
  pub char_step-IsReady :
      (p : CsvParser) (c : ℕ) (next : Option ℕ) → IsReady p → StepOf p (char_step cfg p c next)
  unfolding IsReady IsPending IsReturned char_step set_flags push_char emit after_record end_record
      check_columns next_row on_return on_quote on_escape
  char_step-IsReady p c none ready = ground arith
  char_step-IsReady p c (some d) ready = ground arith

  flags_same :
      (p : CsvParser)
      → p.after_field_sep ≡ false
      → p.after_record_sep ≡ false
      → set_flags false false p ≡ p
  unfolding set_flags
  flags_same p f r = sym (
      ap (λ b. record p { after_field_sep = b; after_record_sep = p.after_record_sep }) f
      ∙ ap (λ b. record p { after_field_sep = false; after_record_sep = b }) r)

  escaping_same : (p : CsvParser) → p.escaping ≡ false → record p { escaping = false } ≡ p
  escaping_same p e = sym (ap (λ b. record p { escaping = b }) e)

  -- Within quotes, the state after a character that is neither is the one before it.
  settled :
      (p : CsvParser)
      → IsReady p
      → p.quoted ≡ true
      → set_flags false false p ≡ record p { escaping = false }
  unfolding IsReady
  settled p ready q = flags_same p (ground arith) (ground arith) ∙ sym (escaping_same p ready.0)

  -- What the loop does with an action, the next character and the rest.
  unfoldable pub continue : Action → ℕ → List ℕ → Outcome
  continue (advance q) d rest = loop cfg q (d ∷ rest)
  continue (advance_two q) d rest = loop cfg q rest
  continue (return_ok q) d rest = parsed q
  continue (fail e q) d rest = failed e q

  quote_resume :
      (p : CsvParser) (d : ℕ) (rest : List ℕ)
      → IsReady p
      → p.quoted ≡ true
      → (cfg.escape == quote) ≡ true
      → continue (on_quote p (some d)) d rest
        ≡ execute cfg (record p { escaping = true }) (d ∷ rest)
  unfolding continue execute resume_escape on_quote set_flags push_char
  quote_resume p d rest ready q e =
      let same = settled p ready q in
      elim (Bool-cases (d == quote)) [
        | inl again ↦ rw (e, again) (ap (λ r. loop cfg (push_char r quote) rest) same)
        | inr other ↦
            rw (e, other) (ap (λ r. loop cfg (record r { quoted = false }) (d ∷ rest)) same)
      ]

  escape_resume :
      (p : CsvParser) (d : ℕ) (rest : List ℕ)
      → IsReady p
      → p.quoted ≡ true
      → (cfg.escape == quote) ≡ false
      → continue (on_escape cfg p (some d)) d rest
        ≡ execute cfg (record p { escaping = true }) (d ∷ rest)
  unfolding continue execute resume_escape on_escape set_flags push_char
  escape_resume p d rest ready q e =
      let same = settled p ready q in
      elim (Bool-cases (d == quote || d == cfg.escape)) [
        | inl again ↦ rw (e, again) (ap (λ r. loop cfg (push_char r d) rest) same)
        | inr other ↦ rw (e, other) (ap (λ r. loop cfg (push_char r cfg.escape) (d ∷ rest)) same)
      ]

  -- The last character of a chunk, with no character after it, and with the next chunk after it.
  unfoldable pub After : CsvParser → ℕ → ℕ → List ℕ → Action → Action → Type 0
  After p c d rest (advance q) next = next ≡ advance q
  After p c d rest (advance_two q) next = ⊥
  After p c d rest (return_ok q) next =
      (q.newlining ≡ true) ⊎ (continue next d rest ≡ execute cfg q (d ∷ rest))
  After p c d rest (fail e q) next = next ≡ fail e q

  module _ (p : CsvParser) (c d : ℕ) (rest : List ℕ) where
    after_record-After :
        (o : Outcome) → After p c d rest (after_record advance o) (after_record advance o)
    unfolding After after_record
    after_record-After (parsed q) = refl
    after_record-After (failed e q) = refl

    ends-After :
        (q : Bool) (is : p.quoted ≡ q)
        → After p c d rest
            (if not q
              then (if c == carriage_return
                  then on_return cfg p none
                  else after_record advance (end_record cfg p))
              else advance (set_flags false false (push_char p c)))
            (if not q
              then (if c == carriage_return
                  then on_return cfg p (some d)
                  else after_record advance (end_record cfg p))
              else advance (set_flags false false (push_char p c)))
    unfolding After on_return
    ends-After true is = refl
    ends-After false is = elim (Bool-cases (c == carriage_return)) [
      | inl is_return ↦ rw is_return (inl refl)
      | inr other ↦ rw other (after_record-After (end_record cfg p))
    ]

    quotes-After :
        IsReady p
        → (q : Bool) → p.quoted ≡ q
        → (cfg.escape == quote) ≡ true
        → After p c d rest
            (if not q
              then advance (set_flags false false (record p { quoted = true }))
              else on_quote p none)
            (if not q
              then advance (set_flags false false (record p { quoted = true }))
              else on_quote p (some d))
    unfolding After on_quote
    quotes-After ready true is e = inr (quote_resume p d rest ready is e)
    quotes-After ready false is e = refl

    escapes-After :
        IsReady p
        → (q : Bool) → p.quoted ≡ q
        → (cfg.escape == quote) ≡ false
        → After p c d rest
            (if q then on_escape cfg p none else advance (set_flags false false (push_char p c)))
            (if q
              then on_escape cfg p (some d)
              else advance (set_flags false false (push_char p c)))
    unfolding After on_escape
    escapes-After ready true is e = inr (escape_resume p d rest ready is e)
    escapes-After ready false is e = refl

    pub char_step-After :
        IsReady p → After p c d rest (char_step cfg p c none) (char_step cfg p c (some d))
    unfolding After char_step
    char_step-After ready =
        elim (Bool-cases (
          not (
            c == cfg.comma
            || (c == line_feed || (c == carriage_return || (c == quote || c == cfg.escape)))))) [
              | inl plain ↦ rw plain refl
              | inr special ↦ elim (Bool-cases (c == cfg.comma)) [
                | inl is_comma ↦
                    rw (special, is_comma)
                      (elim (Bool-cases (not p.quoted)) [
                        | inl outside ↦ rw outside refl
                        | inr within ↦ rw within refl
                      ])
                | inr not_comma ↦ elim (Bool-cases (c == line_feed || c == carriage_return)) [
                  | inl ends ↦ rw (special, not_comma, ends) (ends-After p.quoted refl)
                  | inr inside ↦ elim (Bool-cases (c == quote)) [
                    | inl mark ↦ elim (Bool-cases (cfg.escape == quote)) [
                      | inl doubled ↦
                          rw (special, not_comma, inside, mark, doubled)
                            (quotes-After ready p.quoted refl doubled)
                      | inr single ↦ rw (special, not_comma, inside, mark, single) refl
                    ]
                    | inr other ↦
                        let not_quote : (cfg.escape == quote) ≡ false = ground arith in
                        rw (special, not_comma, inside, other)
                          (escapes-After ready p.quoted refl not_quote)
                  ]
                ]
              ]
            ]

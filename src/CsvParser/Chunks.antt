-- ===== src/CsvParser/Chunks.antt =====
-- CSVParser: how the input is cut into chunks does not matter.
use sigmod_runtime_engine.Base.{
  ℕ, ◌≡◌, refl, sym, ◌∙◌, ◌⊎◌, inl, inr, true, false, ◌||◌, none, some, List, [], ◌∷◌, ◌++◌, ◌==◌,
  Bool-cases,
}
use sigmod_runtime_engine.CsvParser.{
  quote, Config, CsvParser, Outcome, parsed, failed, Action, advance, advance_two, return_ok, fail,
  push_char, char_step, loop, resume_escape, execute,
}
use sigmod_runtime_engine.CsvParser.Steps.{
  IsReady, IsPending, IsReturned, StepOf, char_step-IsReady, continue, After, char_step-After,
}
use sigmod_runtime_engine.CsvParser.Cases.{
  GoesOn, last_outcome, char_step-GoesOn, execute_ready, execute_pending, loop_on, loop_last,
  loop_more, continue-loop_on,
}

module _ (cfg : Config) where
  -- A chunk's outcome, and that of the chunk with the next one behind it: the same error, or what the
  -- next chunk makes of the state, unless a carriage return is pending.
  unfoldable pub Same : Outcome → ℕ → List ℕ → Outcome → Type 0
  Same (failed e q) d rest whole = whole ≡ failed e q
  Same (parsed q) d rest whole = (q.newlining ≡ true) ⊎ (whole ≡ execute cfg q (d ∷ rest))

  last-Same :
      (p : CsvParser) (c d : ℕ) (rest : List ℕ) (act next : Action)
      → After cfg p c d rest act next
      → StepOf p act
      → Same (last_outcome act) d rest (continue cfg next d rest)
  unfolding After Same last_outcome continue
  last-Same p c d rest (advance q) next after ready =
      inr (rw after (sym (execute_ready cfg q d rest ready)))
  last-Same p c d rest (advance_two q) next after ready = absurd after
  last-Same p c d rest (return_ok q) next after ready = after
  last-Same p c d rest (fail e q) next after ready = rw after refl

  module _ (d : ℕ) (rest : List ℕ) where
    more-Same :
        (all more : List ℕ) (act : Action)
        → GoesOn act
        → (all_same : (q : CsvParser)
            → IsReady q
            → Same (loop cfg q all) d rest (loop cfg q (all ++ (d ∷ rest))))
        → (more_same : (q : CsvParser)
            → IsReady q
            → Same (loop cfg q more) d rest (loop cfg q (more ++ (d ∷ rest))))
        → (p : CsvParser) → StepOf p act
        → Same
            (loop_on cfg act all more)
            d
            rest
            (loop_on cfg act (all ++ (d ∷ rest)) (more ++ (d ∷ rest)))
    unfolding Same loop_on GoesOn
    more-Same all more (advance q) goes all_same more_same p ready = all_same q ready
    more-Same all more (advance_two q) goes all_same more_same p ready = more_same q ready
    more-Same all more (return_ok q) goes all_same more_same p ready = absurd goes
    more-Same all more (fail e q) goes all_same more_same p ready = refl

    ready-Same : (p : CsvParser) → IsReady p → Same (loop cfg p []) d rest (loop cfg p (d ∷ rest))
    unfolding Same loop
    ready-Same p ready = inr (sym (execute_ready cfg p d rest ready))

    next_step :
        (p : CsvParser) (c : ℕ)
        → loop cfg p (c ∷ d ∷ rest) ≡ continue cfg (char_step cfg p c (some d)) d rest
    next_step p c =
        loop_more cfg p c d rest ∙ continue-loop_on cfg (char_step cfg p c (some d)) d rest

    loop-Same :
        (chunk : List ℕ) (p : CsvParser)
        → IsReady p
        → Same (loop cfg p chunk) d rest (loop cfg p (chunk ++ (d ∷ rest)))
    loop-Same [] p ready = ready-Same p ready
    loop-Same (c ∷ []) p ready =
        rw (loop_last cfg p c, next_step p c)
          (last-Same p c d rest (char_step cfg p c none) (char_step cfg p c (some d))
            (char_step-After cfg p c d rest ready) (char_step-IsReady cfg p c none ready))
    loop-Same (c ∷ e ∷ chunk) p ready =
        rw (loop_more cfg p c e chunk, loop_more cfg p c e (chunk ++ (d ∷ rest)))
          (more-Same (e ∷ chunk) chunk (char_step cfg p c (some e)) (char_step-GoesOn cfg p c e)
            (loop-Same (e ∷ chunk)) (loop-Same chunk) p (char_step-IsReady cfg p c (some e) ready))

  resume-Same :
      (p : CsvParser) (c d : ℕ) (chunk rest : List ℕ)
      → IsPending p
      → Same (resume_escape cfg p c chunk) d rest (resume_escape cfg p c (chunk ++ (d ∷ rest)))
  unfolding IsPending IsReady resume_escape push_char
  resume-Same p c d chunk rest (pending, quoted_now, ready) =
      let q : CsvParser = record p { escaping = false } in
      elim (Bool-cases (cfg.escape == quote)) [
        | inl doubled ↦ elim (Bool-cases (c == quote)) [
          | inl again ↦ rw (doubled, again) (loop-Same d rest chunk (push_char q quote) ready)
          | inr other ↦
              rw (doubled, other)
                (loop-Same d rest (c ∷ chunk) (record q { quoted = false })
                  (ready.0, ready.1, refl, refl))
        ]
        | inr single ↦ elim (Bool-cases (c == quote || c == cfg.escape)) [
          | inl escaped ↦ rw (single, escaped) (loop-Same d rest chunk (push_char q c) ready)
          | inr plain ↦
              rw (single, plain) (loop-Same d rest (c ∷ chunk) (push_char q cfg.escape) ready)
        ]
      ]

  -- The states that a chunk can end in: a carriage return, nothing or an escape character is pending.
  unfoldable pub IsBetween : Outcome → Type 0
  IsBetween (failed e q) = Unit
  IsBetween (parsed q) = IsReturned q ⊎ (IsReady q ⊎ IsPending q)

  last-IsBetween : (p : CsvParser) (act : Action) → StepOf p act → IsBetween (last_outcome act)
  unfolding IsBetween last_outcome
  last-IsBetween p (advance q) ready = inr (inl ready)
  last-IsBetween p (advance_two q) ready = inr (inl ready)
  last-IsBetween p (return_ok q) (inl newline) = inl newline
  last-IsBetween p (return_ok q) (inr pending) = inr (inr pending)
  last-IsBetween p (fail e q) ready = tt

  more-IsBetween :
      (all more : List ℕ) (act : Action)
      → GoesOn act
      → (all_between : (q : CsvParser) → IsReady q → IsBetween (loop cfg q all))
      → (more_between : (q : CsvParser) → IsReady q → IsBetween (loop cfg q more)) → (p : CsvParser)
      → StepOf p act
      → IsBetween (loop_on cfg act all more)
  unfolding IsBetween loop_on GoesOn
  more-IsBetween all more (advance q) goes all_between more_between p ready = all_between q ready
  more-IsBetween all more (advance_two q) goes all_between more_between p ready =
      more_between q ready
  more-IsBetween all more (return_ok q) goes all_between more_between p ready = absurd goes
  more-IsBetween all more (fail e q) goes all_between more_between p ready = tt

  ready-IsBetween : (p : CsvParser) → IsReady p → IsBetween (loop cfg p [])
  unfolding IsBetween loop
  ready-IsBetween p ready = inr (inl ready)

  loop-IsBetween : (chunk : List ℕ) (p : CsvParser) → IsReady p → IsBetween (loop cfg p chunk)
  loop-IsBetween [] p ready = ready-IsBetween p ready
  loop-IsBetween (c ∷ []) p ready =
      rw (loop_last cfg p c)
        (last-IsBetween p (char_step cfg p c none) (char_step-IsReady cfg p c none ready))
  loop-IsBetween (c ∷ e ∷ chunk) p ready = rw (loop_more cfg p c e chunk) (
      more-IsBetween (e ∷ chunk) chunk (char_step cfg p c (some e)) (char_step-GoesOn cfg p c e)
        (loop-IsBetween (e ∷ chunk)) (loop-IsBetween chunk) p
        (char_step-IsReady cfg p c (some e) ready))

  resume-IsBetween :
      (p : CsvParser) (c : ℕ) (chunk : List ℕ)
      → IsPending p
      → IsBetween (resume_escape cfg p c chunk)
  unfolding IsPending IsReady resume_escape push_char
  resume-IsBetween p c chunk (pending, quoted_now, ready) =
      let q : CsvParser = record p { escaping = false } in
      elim (Bool-cases (cfg.escape == quote)) [
        | inl doubled ↦ elim (Bool-cases (c == quote)) [
          | inl again ↦ rw (doubled, again) (loop-IsBetween chunk (push_char q quote) ready)
          | inr other ↦
              rw (doubled, other)
                (loop-IsBetween (c ∷ chunk) (record q { quoted = false })
                  (ready.0, ready.1, refl, refl))
        ]
        | inr single ↦ elim (Bool-cases (c == quote || c == cfg.escape)) [
          | inl escaped ↦ rw (single, escaped) (loop-IsBetween chunk (push_char q c) ready)
          | inr plain ↦
              rw (single, plain) (loop-IsBetween (c ∷ chunk) (push_char q cfg.escape) ready)
        ]
      ]

  -- A chunk with a character, read with nothing or an escape character pending, fails, or ends in one
  -- of three ways. A carriage return is pending: the parser is newlining, neither escaping nor within
  -- quotes. Or nothing is pending: it is neither escaping nor newlining, and within quotes it is not just after a separator. Or an escape character is pending:
  -- it is escaping and within quotes, not newlining, and not just after a separator.
  pub execute-IsBetween :
      (p : CsvParser) (c : ℕ) (chunk : List ℕ)
      → IsReady p ⊎ IsPending p
      → IsBetween (execute cfg p (c ∷ chunk))
  execute-IsBetween p c chunk (inl ready) =
      rw (execute_ready cfg p c chunk ready) (loop-IsBetween (c ∷ chunk) p ready)
  execute-IsBetween p c chunk (inr pending) =
      rw (execute_pending cfg p c chunk pending) (resume-IsBetween p c chunk pending)

  -- For two chunks with a character each, the first of which is read with nothing or an escape character
  -- pending: reading both as one chunk fails as reading the first fails, and otherwise gives what
  -- reading the second after the first gives, unless the first ends with a carriage return pending.
  pub execute-append :
      (p : CsvParser) (c d : ℕ) (chunk rest : List ℕ)
      → IsReady p ⊎ IsPending p
      → Same (execute cfg p (c ∷ chunk)) d rest (execute cfg p (c ∷ chunk ++ (d ∷ rest)))
  execute-append p c d chunk rest (inl ready) =
      rw (execute_ready cfg p c chunk ready, execute_ready cfg p c (chunk ++ (d ∷ rest)) ready)
        (loop-Same d rest (c ∷ chunk) p ready)
  execute-append p c d chunk rest (inr pending) =
      rw
        (
          execute_pending cfg p c chunk pending,
          execute_pending cfg p c (chunk ++ (d ∷ rest)) pending,
        )
        (resume-Same p c d chunk rest pending)

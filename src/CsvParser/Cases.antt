-- ===== src/CsvParser/Cases.antt =====
-- CSVParser: the loop by what a character makes it do.
use sigmod_runtime_engine.Base.{ℕ, ◌≡◌, refl, none, some, List, [], ◌∷◌, arith}
use sigmod_runtime_engine.CsvParser.{
  Config, CsvParser, Outcome, parsed, failed, Action, advance, advance_two, return_ok, fail,
  end_record, check_columns, after_record, on_return, on_quote, on_escape, char_step, loop,
  resume_escape, execute,
}
use sigmod_runtime_engine.CsvParser.Steps.{IsReady, IsPending, continue}

unfoldable pub GoesOn : Action → Type 0
GoesOn (return_ok q) = ⊥
GoesOn other = Unit

unfoldable pub last_outcome : Action → Outcome
last_outcome (advance q) = parsed q
last_outcome (advance_two q) = parsed q
last_outcome (return_ok q) = parsed q
last_outcome (fail e q) = failed e q

module _ (cfg : Config) where
  pub char_step-GoesOn : (p : CsvParser) (c d : ℕ) → GoesOn (char_step cfg p c (some d))
  unfolding GoesOn char_step after_record on_return on_quote on_escape end_record check_columns
  char_step-GoesOn p c d = ground arith

  pub execute_ready :
      (p : CsvParser) (d : ℕ) (rest : List ℕ)
      → IsReady p
      → execute cfg p (d ∷ rest) ≡ loop cfg p (d ∷ rest)
  unfolding IsReady execute
  execute_ready p d rest ready = rw (ready.0, ready.1) refl

  pub execute_pending :
      (p : CsvParser) (c : ℕ) (rest : List ℕ)
      → IsPending p
      → execute cfg p (c ∷ rest) ≡ resume_escape cfg p c rest
  unfolding IsPending execute
  execute_pending p c rest pending = rw pending.0 refl

  -- The loop's cases for an action, as a function of it.
  unfoldable pub loop_on : Action → List ℕ → List ℕ → Outcome
  loop_on (advance q) all rest = loop cfg q all
  loop_on (advance_two q) all rest = loop cfg q rest
  loop_on (return_ok q) all rest = parsed q
  loop_on (fail e q) all rest = failed e q

  pub loop_last :
      (p : CsvParser) (c : ℕ) → loop cfg p (c ∷ []) ≡ last_outcome (char_step cfg p c none)
  unfolding loop last_outcome
  loop_last p c =
      elim (char_step cfg p c none)
        as (λ act.
          elim act [
            | advance q ↦ parsed q
            | advance_two q ↦ parsed q
            | return_ok q ↦ parsed q
            | fail e q ↦ failed e q
          ]
          ≡ last_outcome act) [
            | advance q ↦ refl
            | advance_two q ↦ refl
            | return_ok q ↦ refl
            | fail e q ↦ refl
          ]

  pub loop_more :
      (p : CsvParser) (c e : ℕ) (rest : List ℕ)
      → loop cfg p (c ∷ e ∷ rest) ≡ loop_on (char_step cfg p c (some e)) (e ∷ rest) rest
  unfolding loop loop_on
  loop_more p c e rest =
      elim (char_step cfg p c (some e))
        as (λ act.
          elim act [
            | advance q ↦ loop cfg q (e ∷ rest)
            | advance_two q ↦ loop cfg q rest
            | return_ok q ↦ parsed q
            | fail er q ↦ failed er q
          ]
          ≡ loop_on act (e ∷ rest) rest) [
            | advance q ↦ refl
            | advance_two q ↦ refl
            | return_ok q ↦ refl
            | fail er q ↦ refl
          ]

  pub continue-loop_on :
      (act : Action) (d : ℕ) (rest : List ℕ) → loop_on act (d ∷ rest) rest ≡ continue cfg act d rest
  unfolding loop_on continue
  continue-loop_on (advance q) d rest = refl
  continue-loop_on (advance_two q) d rest = refl
  continue-loop_on (return_ok q) d rest = refl
  continue-loop_on (fail e q) d rest = refl

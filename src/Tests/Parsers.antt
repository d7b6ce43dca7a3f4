-- ===== src/Tests/Parsers.antt =====
-- The theorems on the CSV parser at two chunks that are cut within an escaped quotation mark.
use sigmod_runtime_engine.Base.{◌≡◌, refl, inl, false, Option, none, some, [], ◌∷◌}
use sigmod_runtime_engine.CsvParser.{
  Config, Outcome, parsed, failed, Error, initial, execute, finish, loop, char_step, on_quote,
  set_flags, push_char,
}
use sigmod_runtime_engine.CsvParser.Steps.{IsReady}
use sigmod_runtime_engine.CsvParser.Chunks.{Same, IsBetween, execute-append, execute-IsBetween}

abbrev pub config : Config
config = record { escape = 34; comma = 44; has_trailing_comma = false }

initial-IsReady : IsReady initial
unfolding IsReady initial
initial-IsReady = (refl, refl, refl, refl)

execute-append_example :
    Same config
      (execute config initial (34 ∷ 97 ∷ 34 ∷ []))
      34
      (98 ∷ 34 ∷ 10 ∷ [])
      (execute config initial (34 ∷ 97 ∷ 34 ∷ 34 ∷ 98 ∷ 34 ∷ 10 ∷ []))
execute-append_example =
    execute-append config initial 34 34 (97 ∷ 34 ∷ []) (98 ∷ 34 ∷ 10 ∷ []) (inl initial-IsReady)

execute-IsBetween_example : IsBetween config (execute config initial (34 ∷ 97 ∷ 34 ∷ []))
execute-IsBetween_example = execute-IsBetween config initial 34 (97 ∷ 34 ∷ []) (inl initial-IsReady)

-- A closing quotation mark that ends the input counts as one that is not closed.
abbrev finished : Outcome → Outcome
finished (parsed p) = finish config p
finished (failed e p) = failed e p

abbrev error_of : Outcome → Option Error
error_of (parsed p) = none
error_of (failed e p) = some e

closing_quote_last :
    error_of (finished (execute config initial (34 ∷ 97 ∷ 34 ∷ []))) ≡ some Error.quote_not_closed
unfolding execute initial loop char_step on_quote set_flags push_char finish
closing_quote_last = refl

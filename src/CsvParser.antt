-- ===== src/CsvParser.antt =====
-- CSVParser (include/csv_parser.h, src/csv_parser.cpp): a state machine that takes its input in chunks.
pub mod Steps
pub mod Cases
pub mod Chunks
use sigmod_runtime_engine.Base.{
  ℕ, zero, suc, ◌+◌, ◌-◌, ◌*◌, ◌/◌, ◌%◌, ◌^◌, ◌≤◌, ◌<◌, min, max, bit_and, bit_or, ◌≡◌, refl, sym,
  ap, ◌∙◌, ◌≢◌, ◌↔◌, ◌⊎◌, inl, inr, Bool, true, false, not, ◌&&◌, ◌||◌, Option, none, some, List,
  [], ◌∷◌, ◌++◌, map, arith, ltb, leb, ◌==◌, if◌then◌else◌, ltb→lt, ltb→le, lt→ltb, le→ltb, ==→eq,
  ==→ne, ==_refl, ne→==, Bool-cases, Option-cases, length, get_or, get_elem?, set, replicate,
  select, length-append, length-set, length-replicate, get_or-replicate, get_or-replicate_self,
  get_or-set_self, get_or-set_ne, get_or-append_left, get_or-append_right, select-append,
  select-select, select_hit, select_miss, u8, u16, u32, u64, shl, shr,
}

-- The characters that the code names: the quotation mark, line feed and carriage return.
abbrev pub quote : ℕ
quote = 34

abbrev pub line_feed : ℕ
line_feed = 10

abbrev pub carriage_return : ℕ
carriage_return = 13

pub record Config : Type 0 where
  pub escape : ℕ
  pub comma : ℕ
  pub has_trailing_comma : Bool

-- A call of on_field.
pub record Field : Type 0 where
  pub field_col : ℕ
  pub field_row : ℕ
  pub text : List ℕ

-- The states, and the calls of on_field so far.
pub record CsvParser : Type 0 where
  pub current_field : List ℕ
  pub col_idx : ℕ
  pub row_idx : ℕ
  pub num_cols : ℕ
  pub after_first_row : Bool
  pub quoted : Bool
  pub after_field_sep : Bool
  pub after_record_sep : Bool
  pub escaping : Bool
  pub newlining : Bool
  pub fields : List Field

pub data Error : Type 0 where
  quote_not_closed inconsistent_columns no_trailing_comma : Error

pub data Outcome : Type 0 where
  parsed : CsvParser → Outcome
  failed : Error → CsvParser → Outcome

unfoldable pub initial : CsvParser
initial = record {
  current_field = [];
  col_idx = 0;
  row_idx = 0;
  num_cols = 0;
  after_first_row = false;
  quoted = false;
  after_field_sep = false;
  after_record_sep = false;
  escaping = false;
  newlining = false;
  fields = [];
}

unfoldable pub push_char : CsvParser → ℕ → CsvParser
push_char p c = record p { current_field = p.current_field ++ (c ∷ []) }

-- on_field, after which the field is cleared.
unfoldable pub emit : CsvParser → CsvParser
emit p = record p {
  fields =
      p.fields
      ++ (record { field_col = p.col_idx; field_row = p.row_idx; text = p.current_field } ∷ []);
  current_field = [];
}

unfoldable pub next_row : CsvParser → CsvParser
next_row p = record p { col_idx = 0; row_idx = p.row_idx + 1 }

-- The number of columns of the first row, or a row's comparison with it.
unfoldable pub check_columns : CsvParser → ℕ → (CsvParser → Outcome) → Outcome
check_columns p cols continue =
    if not p.after_first_row
    then continue (record p { after_first_row = true; num_cols = cols })
    else if cols == p.num_cols
    then continue p
    else failed Error.inconsistent_columns p

unfoldable pub end_record : Config → CsvParser → Outcome
end_record cfg p =
    if cfg.has_trailing_comma
    then if not p.after_field_sep
      then failed Error.no_trailing_comma p
      else check_columns p p.col_idx (λ q. parsed (next_row q))
    else check_columns p (p.col_idx + 1) (λ q. parsed (next_row (emit q)))

-- What a character does: the loop goes on one or two characters further, returns, or fails.
pub data Action : Type 0 where
  advance : CsvParser → Action
  advance_two : CsvParser → Action
  return_ok : CsvParser → Action
  fail : Error → CsvParser → Action

-- The end of the loop's body: the two flags are set.
unfoldable pub set_flags : Bool → Bool → CsvParser → CsvParser
set_flags field_sep record_sep p = record p {
  after_field_sep = field_sep;
  after_record_sep = record_sep;
}

unfoldable pub after_record : (CsvParser → Action) → Outcome → Action
after_record go (parsed q) = go (set_flags false true q)
after_record go (failed e q) = fail e q

-- A carriage return that is not quoted, with the character after it.
unfoldable pub on_return : Config → CsvParser → Option ℕ → Action
on_return cfg p none = return_ok (record p { newlining = true })
on_return cfg p (some d) =
    after_record (if d == line_feed then advance_two else advance) (end_record cfg p)

-- A quotation mark within quotes, where it is the escape character too.
unfoldable pub on_quote : CsvParser → Option ℕ → Action
on_quote p none = return_ok (record p { escaping = true })
on_quote p (some d) =
    if d == quote
    then advance_two (set_flags false false (push_char p quote))
    else advance (set_flags false false (record p { quoted = false }))

-- An escape character within quotes.
unfoldable pub on_escape : Config → CsvParser → Option ℕ → Action
on_escape cfg p none = return_ok (record p { escaping = true })
on_escape cfg p (some d) =
    if d == quote || d == cfg.escape
    then advance_two (set_flags false false (push_char p d))
    else advance (set_flags false false (push_char p cfg.escape))

-- The body of the loop, for a character and the one after it in the buffer.
unfoldable pub char_step : Config → CsvParser → ℕ → Option ℕ → Action
char_step cfg p c next =
    if not (
      c == cfg.comma
      || (c == line_feed || (c == carriage_return || (c == quote || c == cfg.escape))))
    then advance (set_flags false false (push_char p c))
    else if c == cfg.comma
    then if not p.quoted
      then advance (set_flags true false (record (emit p) { col_idx = p.col_idx + 1 }))
      else advance (set_flags false false (push_char p c))
    else if c == line_feed || c == carriage_return
    then if not p.quoted
      then if c == carriage_return
        then on_return cfg p next
        else after_record advance (end_record cfg p)
      else advance (set_flags false false (push_char p c))
    else if c == quote
    then if cfg.escape == quote
      then if not p.quoted
        then advance (set_flags false false (record p { quoted = true }))
        else on_quote p next
      else advance (set_flags false false (record p { quoted = not p.quoted }))
    else if p.quoted
    then on_escape cfg p next
    else advance (set_flags false false (push_char p c))

-- The loop over what is left of the buffer.
unfoldable pub loop : Config → CsvParser → List ℕ → Outcome
loop cfg p [] = parsed p
loop cfg p (c ∷ []) = elim (char_step cfg p c none) [
  | advance q ↦ parsed q
  | advance_two q ↦ parsed q
  | return_ok q ↦ parsed q
  | fail e q ↦ failed e q
]
loop cfg p (c ∷ d ∷ rest) = elim (char_step cfg p c (some d)) [
  | advance q ↦ loop cfg q (d ∷ rest)
  | advance_two q ↦ loop cfg q rest
  | return_ok q ↦ parsed q
  | fail e q ↦ failed e q
]

-- The first character, when an escape character ended the chunk before.
unfoldable pub resume_escape : Config → CsvParser → ℕ → List ℕ → Outcome
resume_escape cfg p c rest =
    let q = record p { escaping = false } in
    if cfg.escape == quote
    then if c == quote
      then loop cfg (push_char q quote) rest
      else loop cfg (record q { quoted = false }) (c ∷ rest)
    else if c == quote || c == cfg.escape
    then loop cfg (push_char q c) rest
    else loop cfg (push_char q cfg.escape) (c ∷ rest)

unfoldable pub after_newline : Config → Outcome → List ℕ → Outcome
after_newline cfg (failed e q) rest = failed e q
after_newline cfg (parsed q) rest =
    loop cfg (record q { after_record_sep = true; newlining = false }) rest

-- The first character, when a carriage return ended the chunk before.
unfoldable pub resume_newline : Config → CsvParser → List ℕ → Outcome
resume_newline cfg p [] = after_newline cfg (end_record cfg p) []
resume_newline cfg p (c ∷ rest) =
    after_newline cfg (end_record cfg p) (if c == line_feed then rest else c ∷ rest)

-- A chunk has a character unless only a carriage return is pending.
unfoldable pub execute : Config → CsvParser → List ℕ → Outcome
execute cfg p [] = if p.newlining then resume_newline cfg p [] else parsed p
execute cfg p (c ∷ rest) =
    if p.escaping
    then resume_escape cfg p c rest
    else if p.newlining
    then resume_newline cfg p (c ∷ rest)
    else loop cfg p (c ∷ rest)

unfoldable pub finish : Config → CsvParser → Outcome
finish cfg p =
    if p.quoted
    then failed Error.quote_not_closed p
    else if p.newlining
    then execute cfg p []
    else if not p.after_record_sep
    then execute cfg p (line_feed ∷ [])
    else parsed p

-- ===== src/Tests/LexerTests.antt =====
-- Runs of the lexer, and the inputs at which its theorems are applied.
use Prim.Native.String.{◌++◌}
use bosque_core.Prelude as Prelude
use bosque_core.Prelude.{
  ℕ, ◌<◌, String, Bool, true, false, ◌≡◌, refl, Option, none, some, List, [], ◌∷◌, map, All, arith,
  has,
}
use bosque_core.ParserState.Syntax.{Token}
use bosque_core.Lexer.Text.{
  size, starts_with, drop, take, trim, trim_start, trim_end, cons_trimmed, is_space, slice,
}
use bosque_core.Lexer.Regex.{match_length, exec, one_char, rounds}
use bosque_core.Lexer.Patterns.{
  datetime_re, taitime_re, plaindate_re, plaintime_re, datetime_delta_re, plaindate_delta_re,
  plaintime_delta_re,
}
use bosque_core.Lexer.State.{
  Lexer, create, is_live, is_enabled, trylex, push_token, record_lex_token_w_data,
  update_position_info, count_lines,
}
use bosque_core.Lexer.Trivia.{skip_to}
use bosque_core.Lexer.Literals.{
  first_of, lex_as, lex_with, try_lex_date_time, try_lex_date_time_delta,
}
use bosque_core.Lexer.Loop.{lex, lex_step, try_lex_macro_op, macro_op, step_scanmode, if_mode}
use bosque_core.Lexer.Results.{AreOrdered, end_tokens, lex-AreOrdered}
use bosque_core.Lexer.Results.Modes.{at_start, pass, Reaches-live}
use bosque_core.Lexer.Timestamps.{timestamps_unreached}

abbrev kinds : Option Lexer → List (String × ℕ)
kinds none = []
kinds (some l) = map (λ (t : Token). (t.kind, t.pos)) l.tokens

-- A timestamp is read as a TAI time, a dot and what follows.
abbrev dated : Lexer
unfolding create
dated = create false "a.bsq" "2024-01-01T10:20:30.123Z" 0 []

dated-kinds : kinds (try_lex_date_time dated) ≡ ("[LITERAL_TAI_TIME]", 0) ∷ []
unfolding try_lex_date_time first_of lex_with trylex match_length exec one_char rounds size drop
    record_lex_token_w_data push_token is_live is_enabled create slice take
dated-kinds = refl

timestamps_unreached_example :
    (try_lex_date_time dated
      ≡ first_of
          (lex_as datetime_re "[LITERAL_TZTIME]"
            ∷ lex_as taitime_re "[LITERAL_TAI_TIME]"
            ∷ lex_as plaindate_re "[LITERAL_PLAIN_DATE]"
            ∷ lex_as plaintime_re "[LITERAL_PLAIN_TIME]"
            ∷ [])
          dated)
    × (try_lex_date_time_delta dated
        ≡ first_of
            (lex_as datetime_delta_re "[LITERAL_DELTA_DATETIME]"
              ∷ lex_with (λ m. m ++ "T00:00:00") plaindate_delta_re "[LITERAL_DELTA_DATETIME]"
              ∷ lex_with (λ m. "0000-00-00T" ++ m) plaintime_delta_re "[LITERAL_DELTA_DATETIME]"
              ∷ [])
            dated)
timestamps_unreached_example = timestamps_unreached dated

-- A condition that is on, with nothing behind it.
abbrev conditional : String
conditional = "#if DBG x"

lex-AreOrdered_example :
    (l : Lexer) × (ts : List Token) × (lex (create false "a.bsq" conditional 0 ("DBG" ∷ []))
      ≡ some l)
    × AreOrdered 0 ts (size conditional)
    × (l.tokens ≡ Prelude.◌++◌ ts (end_tokens (size conditional) l))
lex-AreOrdered_example = lex-AreOrdered false "a.bsq" conditional 0 ("DBG" ∷ [])

abbrev inside_condition : Lexer
inside_condition = lex_step (create false "a.bsq" conditional 0 ("DBG" ∷ []))

inside-live : is_live inside_condition.scanmode ≡ true
unfolding lex_step create is_live is_enabled try_lex_macro_op trylex match_length exec one_char
    rounds drop size step_scanmode macro_op starts_with slice take trim trim_start trim_end
    cons_trimmed is_space if_mode skip_to update_position_info count_lines
inside-live = refl

before_end : 0 < size conditional
unfolding size
before_end = omega arith

Reaches-live_example : All (λ m. is_enabled m ≡ true) inside_condition.scanmode
unfolding create
Reaches-live_example =
    Reaches-live false "a.bsq" conditional 0 ("DBG" ∷ []) inside_condition
      (pass at_start before_end) inside-live

-- ===== src/Lexer/Literals.antt =====
-- The literals that one regular expression reads, in src/frontend/parser.ts: `tryLexDateLike`,
-- `tryLexNumberLikeToken`, `tryLexByteBuffer`, `tryLexUUID` and `tryLexHashCode`. `none` is the answer
-- false, with nothing changed.
use Prim.Native.String.{String, ◌++◌}
use bosque_core.Prelude.{
  ℕ, suc, ◌+◌, ◌-◌, Bool, true, false, not, ◌&&◌, ◌||◌, Option, none, some, List, [], ◌∷◌, nat_eq,
  leb, if◌then◌else◌,
}
use bosque_core.Prelude as Prelude
use bosque_core.Lexer.Text.{slice, starts_with}
use bosque_core.Lexer.Regex.{Regex}
use bosque_core.Lexer.Patterns.{
  complex_re, latlong_re, decimal_degree_re, deltaseconds_re, decimal_re, float_re,
  float_numberino_re, zerodenom_rational_re, rational_re, zerodenom_rational_numberino_re,
  rational_numberino_re, logicaltime_re, deltalogicaltime_re, int_re, nat_re, bigint_re, bignat_re,
  int_numberino_re, redundant_sign_re, bytebuffer_re, uuid_re, sha_re, datetime_re, taitime_re,
  timestamp_re, plaindate_re, plaintime_re, datetime_delta_re, timestamp_delta_re,
  plaindate_delta_re, plaintime_delta_re,
}
use bosque_core.Lexer.State.{Lexer, ahead, trylex, push_error, record_lex_token_w_data, here}

abbrev pub Attempt : Type 0
Attempt = Lexer → Option Lexer

-- One attempt after the other, up to the first that answers true.
unfoldable pub first_of : List Attempt → Attempt
first_of [] l = none
first_of (attempt ∷ attempts) l = elim (attempt l) [
  | some l' ↦ some l'
  | none ↦ first_of attempts l
]

-- The text of a match of length `n`.
abbrev pub matched : ℕ → Lexer → String
matched n l = slice l.input l.js_str_pos (l.js_str_pos + n)

-- `const m = this.trylex(re); if(m !== null) { recordLexTokenWData(…, kind, text(m)); return true; }`
unfoldable pub lex_with : (String → String) → Regex → String → Attempt
lex_with text re kind l = elim (trylex re l) [
  | none ↦ none
  | some n ↦ some (record_lex_token_w_data (l.js_str_pos + n) kind (text (matched n l)) l)
]

abbrev pub lex_as : Regex → String → Attempt
lex_as = lex_with (λ m. m)

-- The same with the error on a zero denominator before it.
unfoldable pub lex_zero_denominator : Regex → String → Attempt
lex_zero_denominator re kind l = elim (trylex re l) [
  | none ↦ none
  | some n ↦ some (
      record_lex_token_w_data (l.js_str_pos + n) kind (matched n l)
        (push_error (here n l) "Zero denominator in rational number" l))
]

-- `mm.length` is the length of the match's array, which is 1, so that the position stays.
unfoldable pub check_redundant_signs : Lexer → Lexer
check_redundant_signs l =
    if not (nat_eq l.js_str_pos l.js_str_end)
      && (starts_with "+" (ahead l) || starts_with "-" (ahead l))
    then elim (trylex redundant_sign_re l) [
      | none ↦ l
      | some n ↦ record l {
        errors =
            Prelude.◌++◌ l.errors
              ((record { srcfile = l.srcfile; sinfo = here 1 l; message = "Redundant sign" }) ∷ []);
        js_str_pos =
            if leb l.js_str_end (l.js_str_pos + 1 - 1) then l.js_str_end else l.js_str_pos + 1 - 1;
      }
    ]
    else l

abbrev pub float_composite_like : List Attempt
float_composite_like =
    lex_as complex_re "[LITERAL_COMPLEX]" ∷ lex_as latlong_re "[LITERAL_LATLONG]" ∷ []

abbrev pub float_like : List Attempt
float_like =
    lex_as decimal_degree_re "[LITERAL_DECIMAL_DEGREE]"
    ∷ lex_as deltaseconds_re "[LITERAL_DELTA_SECONDS]"
    ∷ lex_as decimal_re "[LITERAL_DECIMAL]"
    ∷ lex_as float_re "[LITERAL_FLOAT]"
    ∷ lex_as float_numberino_re "[LITERAL_NUMBERINO_FLOAT]"
    ∷ []

abbrev pub integral_composite_like : List Attempt
integral_composite_like =
    lex_zero_denominator zerodenom_rational_re "[LITERAL_RATIONAL]"
    ∷ lex_as rational_re "[LITERAL_RATIONAL]"
    ∷ lex_zero_denominator zerodenom_rational_numberino_re "[LITERAL_NUMBERINO_RATIONAL]"
    ∷ lex_as rational_numberino_re "[LITERAL_NUMBERINO_RATIONAL]"
    ∷ []

abbrev pub integral_like : List Attempt
integral_like =
    lex_as logicaltime_re "[LITERAL_LOGICAL_TIME]"
    ∷ lex_as deltalogicaltime_re "[LITERAL_DELTA_LOGICAL_TIME]"
    ∷ lex_as int_re "[LITERAL_INT]"
    ∷ lex_as nat_re "[LITERAL_NAT]"
    ∷ lex_as bigint_re "[LITERAL_BIGINT]"
    ∷ lex_as bignat_re "[LITERAL_BIGNAT]"
    ∷ lex_as int_numberino_re "[LITERAL_NUMBERINO_INT]"
    ∷ []

-- `tryLexNumberLikeToken` after `checkRedundantSigns`.
unfoldable pub try_lex_number_like_token : Attempt
try_lex_number_like_token = first_of (
    first_of float_composite_like
    ∷ first_of float_like
    ∷ first_of integral_composite_like
    ∷ first_of integral_like
    ∷ [])

unfoldable pub try_lex_byte_buffer : Attempt
try_lex_byte_buffer = lex_as bytebuffer_re "[LITERAL_BYTEBUFFER]"

unfoldable pub try_lex_uuid : Attempt
try_lex_uuid = lex_as uuid_re "[LITERAL_UUID]"

unfoldable pub try_lex_hash_code : Attempt
try_lex_hash_code = lex_as sha_re "[LITERAL_SHA]"

abbrev pub date_time_attempts : List Attempt
date_time_attempts =
    lex_as datetime_re "[LITERAL_TZTIME]"
    ∷ lex_as taitime_re "[LITERAL_TAI_TIME]"
    ∷ lex_as timestamp_re "[LITERAL_TIMESTAMP]"
    ∷ lex_as plaindate_re "[LITERAL_PLAIN_DATE]"
    ∷ lex_as plaintime_re "[LITERAL_PLAIN_TIME]"
    ∷ []

unfoldable pub try_lex_date_time : Attempt
try_lex_date_time = first_of date_time_attempts

abbrev pub date_time_delta_attempts : List Attempt
date_time_delta_attempts =
    lex_as datetime_delta_re "[LITERAL_DELTA_DATETIME]"
    ∷ lex_as timestamp_delta_re "[LITERAL_DELTA_TIMESTAMP]"
    ∷ lex_with (λ m. m ++ "T00:00:00") plaindate_delta_re "[LITERAL_DELTA_DATETIME]"
    ∷ lex_with (λ m. "0000-00-00T" ++ m) plaintime_delta_re "[LITERAL_DELTA_DATETIME]"
    ∷ []

unfoldable pub try_lex_date_time_delta : Attempt
try_lex_date_time_delta = first_of date_time_delta_attempts

unfoldable pub try_lex_date_like : Attempt
try_lex_date_like = first_of (try_lex_date_time_delta ∷ try_lex_date_time ∷ [])

-- ===== src/Lexer/Patterns.antt =====
-- The regular expressions of `Lexer` in src/frontend/parser.ts. An escape in one that is written as a
-- plain string is read as JavaScript reads it, `\[` as `[` and `\{` as `{`.
use bosque_core.Prelude.{ℕ, Bool, ◌||◌, [], ◌∷◌, not}
use bosque_core.Lexer.Text.{is_space}
use bosque_core.Lexer.Regex.{
  Regex, chars, seq, alt, star, between, one, opt, plus, times, up_to, text,
}

infixr 45 ◌⨟◌
abbrev pub ◌⨟◌ : Regex → Regex → Regex
◌⨟◌ = seq

abbrev pub digit : Regex
digit = chars (between ((0x30, 0x39) ∷ []))

abbrev pub upper : ℕ → Bool
upper = between ((0x41, 0x5a) ∷ [])

-- `[+-]`
abbrev pub sign : Regex
sign = chars (between ((0x2b, 0x2b) ∷ (0x2d, 0x2d) ∷ []))

abbrev pub hex : Regex
hex = chars (between ((0x30, 0x39) ∷ (0x61, 0x66) ∷ (0x41, 0x46) ∷ []))

abbrev pub whitespace_re : Regex
whitespace_re = plus (chars is_space)

-- `/[^0-9+-]/`
abbrev pub front_suffix_re : Regex
front_suffix_re = chars (λ c. not (between ((0x30, 0x39) ∷ (0x2b, 0x2b) ∷ (0x2d, 0x2d) ∷ []) c))

-- `[[?!+*-]+]`
abbrev pub resource_use_mod_re : Regex
resource_use_mod_re =
    plus (
      chars (
        between (
          (0x5b, 0x5b)
          ∷ (0x3f, 0x3f)
          ∷ (0x21, 0x21)
          ∷ (0x2b, 0x2b)
          ∷ (0x2a, 0x2a)
          ∷ (0x2d, 0x2d)
          ∷ [])))
    ⨟ one 0x5d

abbrev pub nonzero_int_val_no_sign : Regex
nonzero_int_val_no_sign = chars (between ((0x31, 0x39) ∷ [])) ⨟ star digit

abbrev pub int_value_no_sign : Regex
int_value_no_sign = alt (one 0x30) nonzero_int_val_no_sign

abbrev pub int_value : Regex
int_value = alt (one 0x30) (alt (text "+0") (opt sign ⨟ nonzero_int_val_no_sign))

abbrev pub exponent : Regex
exponent = opt (chars (between ((0x65, 0x65) ∷ (0x45, 0x45) ∷ [])) ⨟ opt sign ⨟ plus digit)

abbrev pub float_simple_value_no_sign : Regex
float_simple_value_no_sign = plus digit ⨟ one 0x2e ⨟ plus digit

abbrev pub float_simple_value : Regex
float_simple_value = opt sign ⨟ float_simple_value_no_sign

abbrev pub float_value_no_sign : Regex
float_value_no_sign = plus digit ⨟ one 0x2e ⨟ plus digit ⨟ exponent

abbrev pub float_value : Regex
float_value = opt sign ⨟ float_value_no_sign ⨟ exponent

abbrev pub int_numberino_re : Regex
int_numberino_re = int_value

abbrev pub float_numberino_re : Regex
float_numberino_re = float_value

abbrev pub rational_numberino_re : Regex
rational_numberino_re = int_value ⨟ one 0x2f ⨟ nonzero_int_val_no_sign

abbrev pub int_re : Regex
int_re = int_value ⨟ text "i"

abbrev pub nat_re : Regex
nat_re = int_value ⨟ text "n"

abbrev pub bigint_re : Regex
bigint_re = int_value ⨟ text "I"

abbrev pub bignat_re : Regex
bignat_re = int_value ⨟ text "N"

abbrev pub float_re : Regex
float_re = float_value ⨟ text "f"

abbrev pub decimal_re : Regex
decimal_re = float_value ⨟ text "d"

abbrev pub rational_re : Regex
rational_re = int_value ⨟ opt (one 0x2f ⨟ nonzero_int_val_no_sign) ⨟ text "R"

abbrev pub complex_re : Regex
complex_re = float_value ⨟ sign ⨟ float_value_no_sign ⨟ text "j"

abbrev pub decimal_degree_re : Regex
decimal_degree_re = float_simple_value ⨟ text "dd"

abbrev pub latlong_re : Regex
latlong_re = float_simple_value ⨟ text "lat" ⨟ sign ⨟ float_simple_value_no_sign ⨟ text "long"

abbrev pub logicaltime_re : Regex
logicaltime_re = int_value ⨟ text "l"

abbrev pub deltaseconds_re : Regex
deltaseconds_re = sign ⨟ float_value_no_sign ⨟ text "ds"

abbrev pub deltalogicaltime_re : Regex
deltalogicaltime_re = sign ⨟ int_value_no_sign ⨟ text "dl"

abbrev pub zerodenom_rational_numberino_re : Regex
zerodenom_rational_numberino_re = int_value ⨟ text "/0"

abbrev pub zerodenom_rational_re : Regex
zerodenom_rational_re = int_value ⨟ text "/0R"

-- `/[+-]{2,}/`
abbrev pub redundant_sign_re : Regex
redundant_sign_re = sign ⨟ sign ⨟ star sign

abbrev pub bytebuffer_re : Regex
bytebuffer_re = text "0x[" ⨟ plus hex ⨟ text "]"

abbrev pub uuid_re : Regex
uuid_re =
    text "uuid"
    ⨟ chars (between ((0x34, 0x34) ∷ (0x37, 0x37) ∷ []))
    ⨟ text "{"
    ⨟ times 8 hex
    ⨟ text "-"
    ⨟ times 4 hex
    ⨟ text "-"
    ⨟ times 4 hex
    ⨟ text "-"
    ⨟ times 4 hex
    ⨟ text "-"
    ⨟ times 12 hex
    ⨟ text "}"

abbrev pub sha_re : Regex
sha_re = text "sha3{" ⨟ times 64 hex ⨟ text "}"

-- `/[$]?[gf]?\\[ !-Z^-~\[\]]\\/`
abbrev pub path_re : Regex
path_re =
    opt (one 0x24)
    ⨟ opt (chars (between ((0x67, 0x67) ∷ (0x66, 0x66) ∷ [])))
    ⨟ one 0x5c
    ⨟ chars
        (between ((0x20, 0x20) ∷ (0x21, 0x5a) ∷ (0x5e, 0x7e) ∷ (0x5b, 0x5b) ∷ (0x5d, 0x5d) ∷ []))
    ⨟ one 0x5c

-- one character of `/^[ -~\t\n]*$/`
abbrev pub valid_cstring_char : ℕ → Bool
valid_cstring_char = between ((0x20, 0x7e) ∷ (0x09, 0x09) ∷ (0x0a, 0x0a) ∷ [])

-- one character of `/([!-.0-~]|\s)+/`
abbrev pub valid_regex_char : ℕ → Bool
valid_regex_char c = between ((0x21, 0x2e) ∷ (0x30, 0x7e) ∷ []) c || is_space c

abbrev pub date_value : Regex
date_value = times 4 digit ⨟ one 0x2d ⨟ times 2 digit ⨟ one 0x2d ⨟ times 2 digit

abbrev pub time_value : Regex
time_value = times 2 digit ⨟ one 0x3a ⨟ times 2 digit ⨟ one 0x3a ⨟ times 2 digit

-- a time with a `?` behind it, which makes its last group optional
abbrev pub time_value_opt : Regex
time_value_opt = times 2 digit ⨟ one 0x3a ⨟ times 2 digit ⨟ one 0x3a ⨟ opt (times 2 digit)

abbrev pub tz_value : Regex
tz_value =
    alt
      (one 0x7b
        ⨟ plus (
            chars (
              between (
                (0x61, 0x7a)
                ∷ (0x41, 0x5a)
                ∷ (0x30, 0x39)
                ∷ (0x2f, 0x2f)
                ∷ (0x2c, 0x2c)
                ∷ (0x20, 0x20)
                ∷ (0x5f, 0x5f)
                ∷ (0x2d, 0x2d)
                ∷ [])))
        ⨟ one 0x7d)
      (plus (chars upper))

abbrev pub datetime_re : Regex
datetime_re = date_value ⨟ one 0x54 ⨟ time_value ⨟ one 0x40 ⨟ tz_value

abbrev pub taitime_re : Regex
taitime_re = date_value ⨟ one 0x54 ⨟ time_value_opt

abbrev pub plaindate_re : Regex
plaindate_re = date_value

abbrev pub plaintime_re : Regex
plaintime_re = time_value

-- `[.]([0-9]{3})Z`
abbrev pub milliseconds : Regex
milliseconds = one 0x2e ⨟ times 3 digit ⨟ one 0x5a

abbrev pub timestamp_re : Regex
timestamp_re = date_value ⨟ one 0x54 ⨟ time_value ⨟ milliseconds

abbrev pub delta_date_value : Regex
delta_date_value = up_to 4 digit ⨟ one 0x2d ⨟ up_to 2 digit ⨟ one 0x2d ⨟ up_to 2 digit

abbrev pub delta_time_value : Regex
delta_time_value = up_to 2 digit ⨟ one 0x3a ⨟ up_to 2 digit ⨟ one 0x3a ⨟ up_to 2 digit

abbrev pub delta_time_value_opt : Regex
delta_time_value_opt = up_to 2 digit ⨟ one 0x3a ⨟ up_to 2 digit ⨟ one 0x3a ⨟ opt (up_to 2 digit)

abbrev pub datetime_delta_re : Regex
datetime_delta_re = sign ⨟ delta_date_value ⨟ one 0x54 ⨟ delta_time_value_opt

abbrev pub plaindate_delta_re : Regex
plaindate_delta_re = sign ⨟ delta_date_value

abbrev pub plaintime_delta_re : Regex
plaintime_delta_re = sign ⨟ delta_time_value

abbrev pub timestamp_delta_re : Regex
timestamp_delta_re = sign ⨟ delta_date_value ⨟ one 0x54 ⨟ delta_time_value ⨟ milliseconds

-- `[$]?[_a-zA-Z][_a-zA-Z0-9]*`
abbrev pub identifier_name_re : Regex
identifier_name_re =
    opt (one 0x24)
    ⨟ chars (between ((0x5f, 0x5f) ∷ (0x61, 0x7a) ∷ (0x41, 0x5a) ∷ []))
    ⨟ star (chars (between ((0x5f, 0x5f) ∷ (0x61, 0x7a) ∷ (0x41, 0x5a) ∷ (0x30, 0x39) ∷ [])))

-- `[[ \n\t]`
abbrev pub attribute_suffix_re : Regex
attribute_suffix_re =
    chars (between ((0x5b, 0x5b) ∷ (0x20, 0x20) ∷ (0x0a, 0x0a) ∷ (0x09, 0x09) ∷ []))

-- `#if[ ]+([A-Z][_A-Z0-9]*)|#else|#endif`
abbrev pub macro_re : Regex
macro_re =
    alt
      (text "#if"
        ⨟ plus (one 0x20)
        ⨟ chars upper
        ⨟ star (chars (between ((0x5f, 0x5f) ∷ (0x41, 0x5a) ∷ (0x30, 0x39) ∷ []))))
      (alt (text "#else") (text "#endif"))

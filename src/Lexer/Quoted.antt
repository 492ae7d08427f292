-- ===== src/Lexer/Quoted.antt =====
-- The literals between marks, in src/frontend/parser.ts: `tryLexCharLike`, `tryLexStringLike`,
-- `tryLexRegex` and `tryLexPath`. `none` is the answer false, with nothing changed.
use Prim.Native.Char.{code}
use Prim.Native.String.{String, ◌++◌}
use bosque_core.Prelude.{
  ℕ, suc, ◌+◌, ◌-◌, Bool, true, false, not, ◌&&◌, ◌||◌, none, some, [], ◌∷◌, ltb, if◌then◌else◌,
}
use bosque_core.Lexer.Text.{drop, slice, starts_with, index_of}
use bosque_core.Lexer.Patterns.{path_re, valid_cstring_char, valid_regex_char}
use bosque_core.Lexer.State.{
  Lexer, trylex, push_error, record_lex_token, record_lex_token_w_data, update_position_info, here,
}
use bosque_core.Lexer.Trivia.{where_starts}
use bosque_core.Lexer.Literals.{Attempt, first_of}

-- `/^[…]*$/.test(s)`
unfoldable pub all_chars : (ℕ → Bool) → String → Bool
all_chars p String.[] = true
all_chars p (String.◌∷◌ c s) = p (code c) && all_chars p s

-- `/[…]+/.test(s)`, which is not anchored
unfoldable pub some_char : (ℕ → Bool) → String → Bool
some_char p String.[] = false
some_char p (String.◌∷◌ c s) = p (code c) || some_char p s

-- `this.pushError(…, message); this.recordLexToken(jepos, TokenStrings.Error);`
unfoldable pub error_to : ℕ → ℕ → String → Lexer → Lexer
error_to jepos span message l =
    record_lex_token jepos "[ERROR]" (push_error (here span l) message l)

-- The same to the end of the input.
abbrev pub unterminated : String → Lexer → Lexer
unterminated message l = error_to l.js_str_end (l.js_str_end - l.js_str_pos) message l

-- `this.updatePositionInfo(this.jsStrPos, jepos); this.recordLexTokenWData(jepos, kind, strval);`
unfoldable pub quoted_to : ℕ → String → Lexer → Lexer
quoted_to jepos kind l =
    record_lex_token_w_data jepos kind (slice l.input l.js_str_pos jepos)
      (update_position_info l.js_str_pos jepos l)

unfoldable pub unicode_char : Attempt
unicode_char l = elim (index_of "\"" l.input (l.js_str_pos + 2)) [
  | none ↦ some (unterminated "Unterminated UnicodeChar literal" l)
  | some jepos ↦ some (quoted_to (suc jepos) "[LITERAL_UNICODECHAR]" l)
]

unfoldable pub try_lex_unicode_char : Attempt
try_lex_unicode_char = where_starts "c\"" unicode_char

-- From the position after the opening mark, which is `skipped` characters on.
unfoldable pub unicode_string : ℕ → String → Attempt
unicode_string skipped kind l = elim (index_of "\"" l.input (l.js_str_pos + skipped)) [
  | none ↦ some (unterminated "Unterminated string literal" l)
  | some jepos ↦ some (quoted_to (suc jepos) kind l)
]

unfoldable pub try_lex_unicode_string : Attempt
try_lex_unicode_string = first_of (
    where_starts "$\"" (unicode_string 2 "[LITERAL_FORMAT_STRING]")
    ∷ where_starts "\"" (unicode_string 1 "[LITERAL_STRING]")
    ∷ [])

unfoldable pub cchar_to : ℕ → ℕ → Lexer → Lexer
cchar_to ncpos jepos l =
    if not (all_chars valid_cstring_char (slice l.input ncpos jepos))
    then error_to jepos (jepos - l.js_str_pos) "Invalid chacaters in CChar literal" l
    else if ltb 1 (jepos - ncpos)
    then unterminated "More than one character in CChar literal" l
    else quoted_to (suc jepos) "[LITERAL_CCHAR]" l

unfoldable pub cchar : Attempt
cchar l = elim (index_of "'" l.input (l.js_str_pos + 2)) [
  | none ↦ some (unterminated "Unterminated CChar literal" l)
  | some jepos ↦ some (cchar_to (l.js_str_pos + 2) jepos l)
]

unfoldable pub try_lex_cchar : Attempt
try_lex_cchar = where_starts "c'" cchar

unfoldable pub cstring_to : ℕ → ℕ → String → Lexer → Lexer
cstring_to ncpos jepos kind l =
    if not (all_chars valid_cstring_char (slice l.input ncpos jepos))
    then error_to jepos (jepos - l.js_str_pos) "Invalid chacaters in CString literal" l
    else quoted_to (suc jepos) kind l

unfoldable pub cstring : ℕ → String → Attempt
cstring skipped kind l = elim (index_of "'" l.input (l.js_str_pos + skipped)) [
  | none ↦ some (unterminated "Unterminated CString literal" l)
  | some jepos ↦ some (cstring_to (l.js_str_pos + skipped) jepos kind l)
]

unfoldable pub try_lex_cstring : Attempt
try_lex_cstring = first_of (
    where_starts "$'" (cstring 2 "[LITERAL_FORMAT_EX_STRING]")
    ∷ where_starts "'" (cstring 1 "[LITERAL_EX_STRING]")
    ∷ [])

unfoldable pub try_lex_char_like : Attempt
try_lex_char_like = first_of (try_lex_cchar ∷ try_lex_unicode_char ∷ [])

unfoldable pub try_lex_string_like : Attempt
try_lex_string_like = first_of (try_lex_unicode_string ∷ try_lex_cstring ∷ [])

-- The end of a literal whose mark is closed before `jepos`, with its flag.
abbrev pub after_flag : ℕ → Lexer → ℕ
after_flag jepos l =
    if starts_with "c" (drop jepos l.input) || starts_with "p" (drop jepos l.input)
    then suc jepos
    else jepos

unfoldable pub regex_to : ℕ → Lexer → Lexer
regex_to jepos l =
    if not (some_char valid_regex_char (slice l.input (l.js_str_pos + 1) jepos))
    then error_to jepos (jepos - l.js_str_pos) "Invalid characters in (or empty) Regex literal" l
    else quoted_to (after_flag (suc jepos) l) "[LITERAL_REGEX]" l

unfoldable pub regex : Attempt
regex l = elim (index_of "/" l.input (l.js_str_pos + 1)) [
  | none ↦ some (unterminated "Unterminated Regex literal" l)
  | some jepos ↦ some (regex_to jepos l)
]

unfoldable pub try_lex_regex : Attempt
try_lex_regex = where_starts "/" regex

-- The kind and the text of a path, where `tag` is the mark behind it.
unfoldable pub path_to : ℕ → Lexer → Lexer
path_to jepos l =
    let text = slice l.input l.js_str_pos jepos in
    let istemplate = starts_with "$" text in
    let pthval = if istemplate then drop 1 text else text in
    let tagged = if starts_with "<" (drop jepos l.input) then pthval ++ "[T]" else pthval in
    record_lex_token_w_data jepos
      (if istemplate then "[LITERAL_TEMPLATE_PATH_ITEM]" else "[LITERAL_PATH_ITEM]") tagged
      (update_position_info l.js_str_pos jepos l)

unfoldable pub try_lex_path : Attempt
try_lex_path l = elim (trylex path_re l) [
  | none ↦ none
  | some n ↦ some (path_to (l.js_str_pos + n) l)
]

-- ===== src/Lexer/Names.antt =====
-- `tryLexSymbol`, `tryLexAttribute` and `tryLexName` of src/frontend/parser.ts. `none` is the answer
-- false, with nothing changed.
use Prim.Native.Char.{code}
use Prim.Native.String.{String, ◌++◌}
use bosque_core.Prelude.{
  ℕ, suc, ◌+◌, ◌-◌, Bool, false, Option, none, some, List, [], ◌∷◌, ltb, if◌then◌else◌,
}
use bosque_core.Lexer.Text.{size, drop, take, slice, starts_with, index_of, trim}
use bosque_core.Lexer.Regex.{seq, text}
use bosque_core.Lexer.Words.{
  keyword_strings, all_attributes, core_only_attributes, standard_symbols, space_required_symbols,
  space_front_symbols, paren_symbols,
}
use bosque_core.Lexer.Patterns.{
  resource_use_mod_re, whitespace_re, front_suffix_re, attribute_suffix_re, identifier_name_re,
  upper,
}
use bosque_core.Lexer.State.{
  Lexer, ahead, trylex, trylex_ws_plus, find_prefix, record_lex_token, record_lex_token_w_data,
}
use bosque_core.Lexer.Literals.{Attempt, first_of, matched, lex_as}
use bosque_core.Lexer.Quoted.{unterminated}

-- `s.slice(0, -1)`
abbrev pub without_last : String → String
without_last s = take (size s - 1) s

unfoldable pub space_symbol : Attempt
space_symbol l = elim (trylex_ws_plus space_required_symbols whitespace_re l) [
  | none ↦ none
  | some n ↦ some (record_lex_token (l.js_str_pos + n) (" " ++ trim (matched n l) ++ " ") l)
]

unfoldable pub front_symbol : Attempt
front_symbol l = elim (trylex_ws_plus space_front_symbols front_suffix_re l) [
  | none ↦ none
  | some n ↦
      some (record_lex_token (l.js_str_pos + n - 1) (" " ++ without_last (trim (matched n l))) l)
]

-- `…Symbols.find((value) => this.input.startsWith(value, this.jsStrPos))`, recorded
unfoldable pub word_of : List String → Attempt
word_of words l = elim (find_prefix words (ahead l)) [
  | none ↦ none
  | some mm ↦ some (record_lex_token (l.js_str_pos + size mm) mm l)
]

unfoldable pub try_lex_symbol : Attempt
try_lex_symbol = first_of (
    lex_as resource_use_mod_re "[RESOURCE_USE_MOD]"
    ∷ space_symbol
    ∷ front_symbol
    ∷ word_of paren_symbols
    ∷ word_of standard_symbols
    ∷ [])

-- `AllAttributes.find((value) => this.trylex(new RegExp(value + "[[ \n\t]", "y")) !== null)`
unfoldable pub find_attribute : List String → Lexer → Option String
find_attribute [] l = none
find_attribute (value ∷ values) l = elim (trylex (seq (text value) attribute_suffix_re) l) [
  | some n ↦ some value
  | none ↦ find_attribute values l
]

abbrev pub attribute_token : ℕ → Lexer → Lexer
attribute_token jepos l =
    record_lex_token_w_data jepos "[ATTRIBUTE]" (slice l.input l.js_str_pos jepos) l

-- An attribute that ends before `jepos`, with its tag between brackets.
unfoldable pub attribute_to : ℕ → Lexer → Lexer
attribute_to jepos l =
    if starts_with "[" (drop jepos l.input)
    then elim (index_of "]" l.input jepos) [
      | none ↦ unterminated "Unterminated attribute" l
      | some close ↦ attribute_token (suc close) l
    ]
    else attribute_token jepos l

unfoldable pub any_attribute : Attempt
any_attribute l = elim (find_attribute all_attributes l) [
  | none ↦ none
  | some mm ↦ some (attribute_to (l.js_str_pos + size mm) l)
]

unfoldable pub core_attribute : Attempt
core_attribute l =
    if l.iscore
    then elim (find_prefix core_only_attributes (ahead l)) [
      | none ↦ none
      | some cmm ↦ some (record_lex_token_w_data (l.js_str_pos + size cmm) "[ATTRIBUTE]" cmm l)
    ]
    else none

unfoldable pub try_lex_attribute : Attempt
try_lex_attribute = first_of (any_attribute ∷ core_attribute ∷ [])

-- `/^[A-Z]$/.test(str)`
unfoldable pub is_template_name : String → Bool
is_template_name (String.◌∷◌ c String.[]) = upper (code c)
is_template_name _ = false

-- An identifier of `n` characters.
unfoldable pub process_identifier_options : ℕ → Lexer → Lexer
process_identifier_options n l =
    record_lex_token_w_data (l.js_str_pos + n)
      (if is_template_name (matched n l) then "[TEMPLATE]" else "[IDENTIFIER]") (matched n l) l

unfoldable pub name_of : Option ℕ → Option String → Attempt
name_of none none l = none
name_of (some n) none l = some (process_identifier_options n l)
name_of none (some kw) l = some (record_lex_token (l.js_str_pos + size kw) kw l)
name_of (some n) (some kw) l =
    if ltb (size kw) n
    then some (process_identifier_options n l)
    else some (record_lex_token (l.js_str_pos + size kw) kw l)

unfoldable pub try_lex_name : Attempt
try_lex_name l = name_of (trylex identifier_name_re l) (find_prefix keyword_strings (ahead l)) l

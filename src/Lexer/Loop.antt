-- ===== src/Lexer/Loop.antt =====
-- `tryLexMacroOp` and `lex` of src/frontend/parser.ts. Each pass of the loop consumes a character, so
-- it runs on fuel for one pass more than the input has characters.
use Prim.Native.String.{String}
use bosque_core.Prelude.{
  ℕ, zero, suc, ◌+◌, Bool, true, false, Option, none, some, List, [], ◌∷◌, ltb, nat_eq, has, ◌==◌,
  if◌then◌else◌,
}
use bosque_core.Prelude as Prelude
use bosque_core.Lexer.Text.{size, drop, trim, starts_with}
use bosque_core.Lexer.Patterns.{macro_re}
use bosque_core.Lexer.State.{
  LexerStateScanMode, enabled_if, enabled_else, disabled, disabled_if, disabled_else, Lexer, trylex,
  is_live, record_lex_token, here,
}
use bosque_core.Lexer.Trivia.{
  skip_to, try_lex_ws, try_lex_line_comment, try_lex_doc_comment, try_lex_span_comment,
}
use bosque_core.Lexer.Literals.{
  Attempt, first_of, matched, try_lex_date_like, try_lex_byte_buffer, try_lex_uuid,
  try_lex_hash_code, check_redundant_signs, try_lex_number_like_token,
}
use bosque_core.Lexer.Quoted.{try_lex_char_like, try_lex_string_like, try_lex_path, try_lex_regex}
use bosque_core.Lexer.Names.{try_lex_attribute, try_lex_symbol, try_lex_name}

-- What a macro line says: `#if` with its condition, `#else` or `#endif`.
pub data MacroOp : Type 0 where
  if_op : String → MacroOp
  else_op endif_op : MacroOp

unfoldable pub macro_op : String → MacroOp
macro_op m =
    if starts_with "#if" m
    then if_op (trim (drop 3 m))
    else if m == "#else"
    then else_op
    else endif_op

-- The operation and the state behind it.
unfoldable pub try_lex_macro_op : Lexer → Option (MacroOp × Lexer)
try_lex_macro_op l = elim (trylex macro_re l) [
  | none ↦ none
  | some n ↦ some (macro_op (matched n l), skip_to (l.js_str_pos + n) l)
]

unfoldable pub if_mode : Bool → Bool → LexerStateScanMode
if_mode false ifenabled = disabled
if_mode true true = enabled_if
if_mode true false = disabled_if

-- The mode that replaces the last one at `#else`.
unfoldable pub else_mode : LexerStateScanMode → LexerStateScanMode
else_mode disabled = disabled
else_mode enabled_if = disabled_else
else_mode _ = enabled_else

unfoldable pub step_scanmode :
    List String → MacroOp → List LexerStateScanMode → List LexerStateScanMode
step_scanmode defs (if_op name) modes = if_mode (is_live modes) (has name defs) ∷ modes
step_scanmode defs else_op [] = enabled_else ∷ []
step_scanmode defs else_op (mode ∷ modes) = else_mode mode ∷ modes
step_scanmode defs endif_op [] = []
step_scanmode defs endif_op (mode ∷ modes) = modes

abbrev pub run_macro : MacroOp → Lexer → Lexer
run_macro op l = record l { scanmode = step_scanmode l.macrodefs op l.scanmode }

-- The attempts before the one on numbers, in order.
abbrev pub first_attempts : List Attempt
first_attempts =
    try_lex_ws ∷ try_lex_line_comment ∷ try_lex_doc_comment ∷ try_lex_span_comment
    ∷ try_lex_date_like ∷ try_lex_char_like ∷ try_lex_string_like ∷ try_lex_byte_buffer
    ∷ try_lex_uuid ∷ try_lex_hash_code ∷ []

-- The attempts from the one on numbers, once the signs are checked.
abbrev pub last_attempts : List Attempt
last_attempts =
    try_lex_number_like_token ∷ try_lex_attribute ∷ try_lex_symbol ∷ try_lex_name ∷ try_lex_path
    ∷ try_lex_regex ∷ []

-- The error is pushed in every mode.
unfoldable pub unrecognized : Lexer → Lexer
unrecognized l = record_lex_token (l.js_str_pos + 1) "[ERROR]" (record l {
  errors =
      Prelude.◌++◌ l.errors
        ((record { srcfile = l.srcfile; sinfo = here 1 l; message = "Unrecognized token" }) ∷ []);
})

unfoldable pub lex_checked : Lexer → Lexer
lex_checked l = elim (first_of last_attempts l) [ some l' ↦ l' | none ↦ unrecognized l ]

unfoldable pub lex_token : Lexer → Lexer
lex_token l = elim (first_of first_attempts l) [
  | some l' ↦ l'
  | none ↦ lex_checked (check_redundant_signs l)
]

-- One pass of the loop.
unfoldable pub lex_step : Lexer → Lexer
lex_step l = elim (try_lex_macro_op l) [ some (op, l') ↦ run_macro op l' | none ↦ lex_token l ]

-- `none` where the fuel runs out.
unfoldable pub lex_loop : ℕ → Lexer → Option Lexer
lex_loop zero l = none
lex_loop (suc fuel) l =
    let rest = lex_loop fuel (lex_step l) in if ltb l.js_str_pos l.js_str_end then rest else some l

unfoldable pub lex_end : Lexer → Lexer
lex_end l =
    if nat_eq l.js_str_pos l.js_str_end then record_lex_token (size l.input) "[EOS]" l else l

-- The state of the lexer after `lex`.
unfoldable pub lex : Lexer → Option Lexer
lex l = elim (lex_loop (suc (size l.input)) l) [ none ↦ none | some l' ↦ some (lex_end l') ]

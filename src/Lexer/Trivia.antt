-- ===== src/Lexer/Trivia.antt =====
-- Whitespace and comments: `tryLexWS`, `tryLexLineComment`, `tryLexDocComment` and
-- `tryLexSpanComment` of src/frontend/parser.ts. `none` is the answer false, with nothing changed.
use Prim.Native.String.{String}
use bosque_core.Prelude.{ℕ, suc, ◌+◌, ◌-◌, Option, none, some, if◌then◌else◌}
use bosque_core.Lexer.Text.{slice, starts_with, index_of}
use bosque_core.Lexer.Words.{space_required_symbols, space_front_symbols}
use bosque_core.Lexer.Patterns.{whitespace_re, front_suffix_re}
use bosque_core.Lexer.State.{
  Lexer, ahead, advance_position, trylex, trylex_ws_plus, push_error, record_lex_token_w_data,
  update_position_info, here,
}

-- `updatePositionInfo(this.jsStrPos, jepos); advancePosition(jepos)`
unfoldable pub skip_to : ℕ → Lexer → Lexer
skip_to jepos l = advance_position jepos (update_position_info l.js_str_pos jepos l)

unfoldable pub try_lex_ws : Lexer → Option Lexer
try_lex_ws l = elim (trylex_ws_plus space_required_symbols whitespace_re l) [
  | some arop ↦ none
  | none ↦ elim (trylex_ws_plus space_front_symbols front_suffix_re l) [
    | some frop ↦ none
    | none ↦ elim (trylex whitespace_re l) [
      | none ↦ none
      | some m ↦ some (skip_to (l.js_str_pos + m) l)
    ]
  ]
]

-- `if (!this.input.startsWith(v, this.jsStrPos)) { return false; }`
unfoldable pub where_starts : String → (Lexer → Option Lexer) → Lexer → Option Lexer
where_starts v attempt l = if starts_with v (ahead l) then attempt l else none

unfoldable pub line_comment : Lexer → Option Lexer
line_comment l = elim (index_of "\n" l.input l.js_str_pos) [
  | none ↦ some (skip_to l.js_str_end l)
  | some jepos ↦ some (skip_to (suc jepos) l)
]

unfoldable pub try_lex_line_comment : Lexer → Option Lexer
try_lex_line_comment = where_starts "%%" line_comment

unfoldable pub doc_comment : Lexer → Option Lexer
doc_comment l = elim (index_of " **%" l.input (l.js_str_pos + 4)) [
  | none ↦ none
  | some jepos ↦ some (
      record_lex_token_w_data (jepos + 4) "[DOC_COMMENT]" (slice l.input l.js_str_pos (jepos + 4))
        (update_position_info l.js_str_pos (jepos + 4) l))
]

unfoldable pub try_lex_doc_comment : Lexer → Option Lexer
try_lex_doc_comment = where_starts "%** " doc_comment

unfoldable pub span_comment : Lexer → Option Lexer
span_comment l = elim (index_of "*%" l.input (l.js_str_pos + 2)) [
  | none ↦ some (
      skip_to l.js_str_end
        (push_error (here (l.js_str_end - l.js_str_pos) l) "Unterminated span comment" l))
  | some jepos ↦ some (skip_to (jepos + 2) l)
]

unfoldable pub try_lex_span_comment : Lexer → Option Lexer
try_lex_span_comment = where_starts "%*" span_comment

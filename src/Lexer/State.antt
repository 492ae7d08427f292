-- ===== src/Lexer/State.antt =====
-- `LexerStateScanMode`, and the fields, the constructor and the helpers of `Lexer` in
-- src/frontend/parser.ts. The last mode of `scanmode` stands first.
use Prim.Native.Char.{code}
use Prim.Native.String.{String}
use bosque_core.Prelude.{
  ℕ, suc, ◌+◌, ◌-◌, ℤ, difference, Bool, true, false, Option, none, some, List, [], ◌∷◌, ◌++◌,
  nat_eq, if◌then◌else◌,
}
use bosque_core.ParserState.Syntax.{SourceInfo, Token, ParserError}
use bosque_core.Lexer.Text.{size, drop, slice}
use bosque_core.Lexer.Text as Text
use bosque_core.Lexer.Regex.{Regex, match_length}
use bosque_core.Lexer.Patterns.{whitespace_re}

pub data LexerStateScanMode : Type 0 where
  enabled enabled_if enabled_else disabled disabled_if disabled_else : LexerStateScanMode

pub record Lexer : Type 0 where
  pub iscore : Bool
  pub srcfile : String
  pub macrodefs : List String
  pub scanmode : List LexerStateScanMode
  pub input : String
  pub js_str_pos : ℕ
  pub js_str_end : ℕ
  pub cline : ℕ
  pub linestart : ℕ
  pub tokens : List Token
  pub errors : List ParserError

unfoldable pub create : Bool → String → String → ℕ → List String → Lexer
create iscore srcfile input lstart macrodefs = record {
  iscore = iscore;
  srcfile = srcfile;
  macrodefs = macrodefs;
  scanmode = enabled ∷ [];
  input = input;
  js_str_pos = 0;
  js_str_end = size input;
  cline = lstart + 1;
  linestart = 0;
  tokens = [];
  errors = [];
}

-- What a sticky expression is matched on: the input from the position on.
abbrev pub ahead : Lexer → String
ahead l = drop l.js_str_pos l.input

abbrev pub advance_position : ℕ → Lexer → Lexer
advance_position epos l = record l { js_str_pos = epos }

-- The length of the match.
unfoldable pub trylex : Regex → Lexer → Option ℕ
trylex re l = match_length re (ahead l)

-- `options.find((opt) => s.startsWith(opt))`
unfoldable pub find_prefix : List String → String → Option String
find_prefix [] s = none
find_prefix (opt ∷ options) s = if Text.starts_with opt s then some opt else find_prefix options s

-- The length of the match.
unfoldable pub trylex_ws_plus : List String → Regex → Lexer → Option ℕ
trylex_ws_plus options suffix l = elim (match_length whitespace_re (ahead l)) [
  | none ↦ none
  | some pre ↦ elim (find_prefix options (drop (l.js_str_pos + pre) l.input)) [
    | none ↦ none
    | some opt ↦ elim (match_length suffix (drop (l.js_str_pos + pre + size opt) l.input)) [
      | none ↦ none
      | some suf ↦ some (pre + size opt + suf)
    ]
  ]
]

unfoldable pub is_enabled : LexerStateScanMode → Bool
is_enabled enabled = true
is_enabled enabled_if = true
is_enabled enabled_else = true
is_enabled _ = false

-- The test of the last mode, which is undefined where there is none.
unfoldable pub is_live : List LexerStateScanMode → Bool
is_live [] = false
is_live (mode ∷ modes) = is_enabled mode

unfoldable pub push_error : SourceInfo → String → Lexer → Lexer
push_error sinfo message l =
    if is_live l.scanmode
    then record l {
      errors = l.errors ++ (record { srcfile = l.srcfile; sinfo = sinfo; message = message }) ∷ [];
    }
    else l

unfoldable pub push_token : Token → Lexer → Lexer
push_token token l = if is_live l.scanmode then record l { tokens = l.tokens ++ token ∷ [] } else l

-- The token from the position up to `jsepos`.
abbrev pub token_to : ℕ → String → String → Lexer → Token
token_to jsepos kind text l = record {
  line = l.cline;
  column = difference l.js_str_pos l.linestart;
  pos = l.js_str_pos;
  span = jsepos - l.js_str_pos;
  kind = kind;
  data_text = some text;
}

unfoldable pub record_lex_token_w_data : ℕ → String → String → Lexer → Lexer
record_lex_token_w_data jsepos kind text l =
    advance_position jsepos (push_token (token_to jsepos kind text l) l)

unfoldable pub record_lex_token : ℕ → String → Lexer → Lexer
record_lex_token jsepos kind l =
    advance_position jsepos (push_token (token_to jsepos kind kind l) l)

-- The loop over the characters from the index `i` on: the line and its start.
unfoldable pub count_lines : String → ℕ → ℕ → ℕ → ℕ × ℕ
count_lines String.[] i cline linestart = (cline, linestart)
count_lines (String.◌∷◌ c s) i cline linestart =
    let newline = nat_eq (code c) 0x0a in
    count_lines s (suc i) (if newline then suc cline else cline)
      (if newline then suc i else linestart)

unfoldable pub update_position_info : ℕ → ℕ → Lexer → Lexer
update_position_info jspos jepos l =
    let lines = count_lines (slice l.input jspos jepos) jspos l.cline l.linestart in
    record l { cline = lines.0; linestart = lines.1 }

-- `new SourceInfo(this.cline, this.linestart, this.jsStrPos, span)`
abbrev pub here : ℕ → Lexer → SourceInfo
here span l = record { line = l.cline; column = ℤ.pos l.linestart; pos = l.js_str_pos; span = span }

-- ===== src/ParserState/Syntax.antt =====
-- `SourceInfo` of src/frontend/build_decls.ts, and `Token`, `ParserError` and `ParserState` of
-- src/frontend/parser.ts. A column is an integer: the lexer subtracts the start of the line
-- that a token ends in. `none` is a failed assertion.
use bosque_core.Prelude.{
  ℕ, ℤ, String, Option, none, some, List, [], ◌++◌, length, leb, if◌then◌else◌,
}

pub record SourceInfo : Type 0 where
  pub line : ℕ
  pub column : ℤ
  pub pos : ℕ
  pub span : ℕ

pub record Token : Type 0 where
  pub line : ℕ
  pub column : ℤ
  pub pos : ℕ
  pub span : ℕ
  pub kind : String
  pub data_text : Option String

unfoldable pub get_source_info : Token → SourceInfo
get_source_info t = record { line = t.line; column = t.column; pos = t.pos; span = t.span }

pub record ParserError : Type 0 where
  pub srcfile : String
  pub sinfo : SourceInfo
  pub message : String

pub record ParserState : Type 0 where
  pub modetag : String
  pub epos : ℕ
  pub cpos : ℕ
  pub tokens : List Token
  pub errors : List ParserError

unfoldable pub create_file_toplevel_state : List Token → ParserState
create_file_toplevel_state tokens = record {
  modetag = "toplevel";
  epos = length tokens;
  cpos = 0;
  tokens = tokens;
  errors = [];
}

unfoldable pub clone_for_nested : ParserState → String → ℕ → Option ParserState
clone_for_nested s modetag epos =
    if leb s.cpos epos
    then some
        (record { modetag = modetag; epos = epos; cpos = s.cpos; tokens = s.tokens; errors = [] })
    else none

abbrev pub move_state_into_parent : ParserState → ParserState → ParserState
move_state_into_parent s child = record s { cpos = child.cpos; errors = s.errors ++ child.errors }

abbrev pub move_to_recover_position : ParserState → ParserState
move_to_recover_position s = record s { cpos = s.epos }

unfoldable pub skip_to_position : ParserState → Option ℕ → Option ParserState
skip_to_position s none = some (record s { cpos = s.epos })
skip_to_position s (some p) = if leb p s.epos then some (record s { cpos = p }) else none

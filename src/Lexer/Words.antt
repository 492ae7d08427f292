-- ===== src/Lexer/Words.antt =====
-- The words and symbols of src/frontend/parser_kw.ts in the order in which the lexer tries them: the
-- longer first, and those of one length by their code units.
use Prim.Native.String.{String}
use mathlib.Core.List.{List, [], ◌∷◌}

-- `KeywordStrings`
abbrev pub keyword_strings : List String
keyword_strings =
    "implements" ∷ "recursive?" ∷ "invariant" ∷ "namespace" ∷ "predicate" ∷ "recursive"
    ∷ "softcheck" ∷ "continue" ∷ "datatype" ∷ "function" ∷ "operator" ∷ "provides" ∷ "requires"
    ∷ "resource" ∷ "validate" ∷ "chktest" ∷ "concept" ∷ "declare" ∷ "ensures" ∷ "errtest"
    ∷ "example" ∷ "release" ∷ "_debug" ∷ "action" ∷ "assert" ∷ "entity" ∷ "method" ∷ "option"
    ∷ "result" ∷ "return" ∷ "safety" ∷ "status" ∷ "switch" ∷ "abort" ∷ "const" ∷ "debug" ∷ "event"
    ∷ "false" ∷ "field" ∷ "match" ∷ "using" ∷ "yield" ∷ "elif" ∷ "else" ∷ "enum" ∷ "fail" ∷ "none"
    ∷ "pred" ∷ "self" ∷ "some" ∷ "spec" ∷ "task" ∷ "test" ∷ "then" ∷ "this" ∷ "true" ∷ "type"
    ∷ "when" ∷ "api" ∷ "env" ∷ "let" ∷ "ref" ∷ "var" ∷ "as" ∷ "fn" ∷ "if" ∷ "of" ∷ "ok" ∷ "_" ∷ []

-- `AllAttributes`
abbrev pub all_attributes : List String
all_attributes =
    "deterministic" ∷ "idempotent" ∷ "sensitive" ∷ "abstract" ∷ "internal" ∷ "override" ∷ "private"
    ∷ "virtual" ∷ "export" ∷ "hidden" ∷ "public" ∷ "pure" ∷ []

-- `CoreOnlyAttributes`
abbrev pub core_only_attributes : List String
core_only_attributes =
    "__intrinsic_error" ∷ "__keycomparable" ∷ "__typedeclable" ∷ "__internal" ∷ "__numeric"
    ∷ "__inline" ∷ []

-- `StandardSymbols`
abbrev pub standard_symbols : List String
standard_symbols =
    "$?_" ∷ "..." ∷ "::" ∷ "@@" ∷ "!" ∷ "#" ∷ "&" ∷ "," ∷ "." ∷ ":" ∷ ";" ∷ "=" ∷ "?" ∷ "@" ∷ "|"
    ∷ []

-- `SpaceRequiredSymbols`
abbrev pub space_required_symbols : List String
space_required_symbols =
    "<==>" ∷ "!==" ∷ "===" ∷ "==>" ∷ "!=" ∷ "&&" ∷ "->" ∷ "//" ∷ "<=" ∷ "==" ∷ "=>" ∷ ">=" ∷ "||"
    ∷ "*" ∷ "+" ∷ "-" ∷ "<" ∷ ">" ∷ []

-- `SpaceFrontSymbols`
abbrev pub space_front_symbols : List String
space_front_symbols = "+" ∷ "-" ∷ []

-- `ParenSymbols`
abbrev pub paren_symbols : List String
paren_symbols = "(|" ∷ "{|" ∷ "|)" ∷ "|}" ∷ "(" ∷ ")" ∷ "<" ∷ ">" ∷ "[" ∷ "]" ∷ "{" ∷ "}" ∷ []

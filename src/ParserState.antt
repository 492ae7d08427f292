-- ===== src/ParserState.antt =====
-- The token-stream helpers of `Parser` in src/frontend/parser.ts. `none` is a failed assertion, or
-- the exception that JavaScript raises on a property of undefined.
pub mod Syntax
pub mod Scan
pub mod Stack
use Prim.Native.String
use bosque_core.Types.Namespace.{join}
use bosque_core.Prelude.{
  ℕ, zero, suc, ◌+◌, String, Bool, true, false, Option, none, some, List, [], ◌∷◌, ◌++◌, ◌==◌,
  length, get_elem?, get_last?, ltb, leb, nat_eq, if◌then◌else◌,
}
use bosque_core.ParserState.Syntax.{
  SourceInfo, Token, get_source_info, ParserError, ParserState, clone_for_nested,
  move_state_into_parent,
}

abbrev pub recover_kind : String
recover_kind = "[RECOVER]"

abbrev pub end_of_stream : String
end_of_stream = "[EOS]"

-- The fields of `Parser` that its helpers use. The stack `stateStack` is never empty when a helper
-- is called: `current` is its top, and `below` has the others, the next to the top first.
pub record Parser : Type 0 where
  pub current_file : String
  pub tokens : List Token
  pub current : ParserState
  pub below : List ParserState

abbrev pub with_current : Parser → ParserState → Parser
with_current p s = record p { current = s }

unfoldable pub prep_state_stack_for_nested : Parser → String → Option ℕ → Option Parser
prep_state_stack_for_nested p mode epos =
    elim (clone_for_nested p.current mode (elim epos [ none ↦ p.current.epos | some e ↦ e ])) [
      | none ↦ none
      | some s ↦ some (record p { current = s; below = p.current ∷ p.below })
    ]

unfoldable pub pop_state_into_parent_ok : Parser → Option Parser
pop_state_into_parent_ok p = elim p.below [
  | [] ↦ none
  | parent ∷ rest ↦
      some (record p { current = move_state_into_parent parent p.current; below = rest })
]

unfoldable pub pop_state_reset : Parser → Option Parser
pop_state_reset p = elim p.below [
  | [] ↦ none
  | parent ∷ rest ↦ some (record p { current = parent; below = rest })
]

abbrev pub push_error : Parser → ParserError → Parser
push_error p e = with_current p (record p.current { errors = p.current.errors ++ e ∷ [] })

-- `token.data || token.kind`
unfoldable pub shown : Token → String
shown t = elim t.data_text [ none ↦ t.kind | some d ↦ if d == "" then t.kind else d ]

unfoldable pub record_expected_error : Parser → Token → String → String → Parser
record_expected_error p token expected contextinfo = push_error p (record {
  srcfile = p.current_file;
  sinfo = get_source_info token;
  message = String.◌++◌ "Expected \"" (
      String.◌++◌ expected (
        String.◌++◌ "\" but got \"" (
          String.◌++◌ (shown token)
            (String.◌++◌ "\" when parsing \"" (String.◌++◌ contextinfo "\"")))));
})

unfoldable pub record_error_general : Parser → SourceInfo → String → Parser
record_error_general p sinfo msg =
    push_error p (record { srcfile = p.current_file; sinfo = sinfo; message = msg })

-- The token that stands for the end of a nested state.
abbrev pub recover_token : Token → Token
recover_token t = record t { kind = recover_kind; data_text = none }

unfoldable pub peek_token : Parser → ℕ → Option Token
peek_token p ahead =
    if leb p.current.epos p.current.cpos
    then (if nat_eq p.current.epos (length p.tokens)
        then get_last? p.tokens
        else elim (get_elem? p.current.tokens p.current.epos) [
          | none ↦ none
          | some tkk ↦ some (recover_token tkk)
        ])
    else get_elem? p.current.tokens (p.current.cpos + ahead)

unfoldable pub peek_token_kind : Parser → ℕ → Option String
peek_token_kind p ahead = elim (peek_token p ahead) [ none ↦ none | some t ↦ some t.kind ]

unfoldable pub test_token : Parser → String → Option Bool
test_token p kind = elim (peek_token_kind p 0) [ none ↦ none | some k ↦ some (k == kind) ]

-- The loop of `testFollows`, from the position `i` of the kinds on.
unfoldable pub test_follows_from : Parser → ℕ → List String → Option Bool
test_follows_from p i [] = some true
test_follows_from p i (kind ∷ kinds) = elim (peek_token_kind p i) [
  | none ↦ none
  | some k ↦ let rest = test_follows_from p (suc i) kinds in if k == kind then rest else some false
]

abbrev pub test_follows : Parser → List String → Option Bool
test_follows p kinds = test_follows_from p 0 kinds

unfoldable pub consume_token : Parser → Parser
consume_token p =
    if ltb p.current.cpos p.current.epos
    then with_current p (record p.current { cpos = suc p.current.cpos })
    else p

unfoldable pub consume_token_if : Parser → String → Option Parser
consume_token_if p kind = elim (test_token p kind) [
  | none ↦ none
  | some test ↦ some (if test then consume_token p else p)
]

unfoldable pub test_and_consume_token_if : Parser → String → Option (Bool × Parser)
test_and_consume_token_if p kind = elim (test_token p kind) [
  | none ↦ none
  | some test ↦ some (test, if test then consume_token p else p)
]

-- The token's data may be undefined.
unfoldable pub consume_token_and_get_value : Parser → Option (Option String × Parser)
consume_token_and_get_value p = elim (peek_token p 0) [
  | none ↦ none
  | some t ↦ some (t.data_text, consume_token p)
]

unfoldable pub ensure_token : Parser → String → String → Option (Bool × Parser)
ensure_token p kind contextinfo = elim (peek_token p 0) [
  | none ↦ none
  | some t ↦
      some
        (if t.kind == kind then (true, p) else (false, record_expected_error p t kind contextinfo))
]

unfoldable pub ensure_and_consume_token_always : Parser → String → String → Option Parser
ensure_and_consume_token_always p kind contextinfo = elim (ensure_token p kind contextinfo) [
  | none ↦ none
  | some r ↦ some (consume_token r.1)
]

unfoldable pub ensure_and_consume_token_if : Parser → String → String → Option Parser
ensure_and_consume_token_if p kind contextinfo = elim (ensure_token p kind contextinfo) [
  | none ↦ none
  | some r ↦ some (if r.0 then consume_token r.1 else r.1)
]

-- The loop of `ensureTokenOptions`: one of the kinds is the current token's.
unfoldable pub test_any : Parser → List String → Option Bool
test_any p [] = some false
test_any p (kind ∷ kinds) =
    let rest = test_any p kinds in
    elim (test_token p kind) [ none ↦ none | some test ↦ if test then some true else rest ]

unfoldable pub ensure_token_options : Parser → List String → Option (Bool × Parser)
ensure_token_options p kinds = elim (test_any p kinds) [
  | none ↦ none
  | some found ↦ if found then some (true, p) else elim (peek_token p 0) [
    | none ↦ none
    | some t ↦ some (
      false,
      record_error_general p (get_source_info t) (String.◌++◌ "Expected one of " (join ", " kinds)),
    )
  ]
]

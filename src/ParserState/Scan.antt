-- ===== src/ParserState/Scan.antt =====
-- The scans of `Parser` in src/frontend/parser.ts. Each loop runs on fuel; `Window` shows how much is
-- enough.
pub mod Window
pub mod Restores
pub mod Counts
pub mod Search
pub mod Stops
pub mod Bounds
pub mod Braces
pub mod Semicolon
use bosque_core.Prelude.{
  ℕ, zero, suc, ◌+◌, ◌-◌, String, Bool, true, false, ◌&&◌, ◌||◌, Option, none, some, List, [], ◌∷◌,
  ◌==◌, has, ℤ, pos, succ, pred, is_zero, if◌then◌else◌,
}
use bosque_core.ParserState.Syntax.{Token, ParserState}
use bosque_core.ParserState.{
  recover_kind, end_of_stream, Parser, prep_state_stack_for_nested, pop_state_reset, peek_token,
  consume_token, test_follows, ensure_and_consume_token_always, test_and_consume_token_if,
}

-- The result of a loop: it ends, an exception is raised, or the fuel does not suffice.
pub data Loop {ℓ} (A : Type ℓ) : Type ℓ where
  done : A → Loop A
  raised : Loop A
  out_of_fuel : Loop A

abbrev pub left_scan_parens : List String
left_scan_parens = "[" ∷ "(" ∷ "{" ∷ "(|" ∷ "{|" ∷ "<" ∷ []

abbrev pub right_scan_parens : List String
right_scan_parens = "]" ∷ ")" ∷ "}" ∷ "|)" ∷ "|}" ∷ ">" ∷ []

-- `tok.kind === EndOfStream || tok.kind === Recover`
abbrev pub ends : Token → Bool
ends tok = tok.kind == end_of_stream || tok.kind == recover_kind

-- One pass of a loop body: whether it leaves the loop, and the new `pscount`.
abbrev pub Step : Type 0
Step = Token → ℤ → Bool × ℤ

-- `pscount` after a token, for one pair of parentheses.
abbrev pub count_pair : String → String → Token → ℤ → ℤ
count_pair lp rp tok n = if tok.kind == lp then succ n else if tok.kind == rp then pred n else n

-- `pscount` after a token, for every pair of parentheses.
abbrev pub count_all : Token → ℤ → ℤ
count_all tok n =
    if has tok.kind left_scan_parens
    then succ n
    else if has tok.kind right_scan_parens
    then pred n
    else n

-- The body of `scanMatchingParens`: the count is tested after the token has been counted.
abbrev pub matching_step : String → String → Step
matching_step lp rp tok n = let m = count_pair lp rp tok n in (is_zero m, m)

-- The body of `scanToRecover`: the token is tested before it is counted.
abbrev pub recover_step : String → Step
recover_step trecover tok n = (tok.kind == trecover && is_zero n, count_all tok n)

-- The body of `scanToKWOptsInDeclaration`.
abbrev pub kwopts_step : List String → Step
kwopts_step kwopts tok n = (has tok.kind kwopts && is_zero n, count_all tok n)

-- The loop. Its result is whether the body left it, `tpos`, and the parser.
unfoldable pub scan_loop : ℕ → Step → ℤ → ℕ → Parser → Loop (Bool × ℕ × Parser)
scan_loop zero step n tpos p = out_of_fuel
scan_loop (suc fuel) step n tpos p = elim (peek_token p 0) [
  | none ↦ raised
  | some tok ↦
      let rest = scan_loop fuel step (step tok n).1 (suc tpos) (consume_token p) in
      if ends tok
      then done (false, tpos, p)
      else if (step tok n).0
      then done (true, tpos, p)
      else rest
]

-- The fuel of a scan: one pass for each token up to the end of the current state, and one more.
abbrev pub scan_fuel : Parser → ℕ
scan_fuel p = suc (p.current.epos - p.current.cpos)

-- The end of both scans with a result: the nested state is dropped.
unfoldable pub scan_result : Loop (Bool × ℕ × Parser) → Loop (Option ℕ × Parser)
scan_result out_of_fuel = out_of_fuel
scan_result raised = raised
scan_result (done r) = elim (pop_state_reset r.2) [
  | none ↦ raised
  | some p ↦ done (if r.0 then some (suc r.1) else none, p)
]

unfoldable pub scan_matching_parens : Parser → String → String → Loop (Option ℕ × Parser)
scan_matching_parens p lp rp = elim (prep_state_stack_for_nested p "scan-matching-parens" none) [
  | none ↦ raised
  | some nested ↦ elim (ensure_and_consume_token_always nested lp "scan-matching-parens") [
    | none ↦ raised
    | some q ↦ scan_result (scan_loop (scan_fuel q) (matching_step lp rp) (pos 1) q.current.cpos q)
  ]
]

unfoldable pub scan_to_recover : Parser → String → Loop (Option ℕ × Parser)
scan_to_recover p trecover = elim (prep_state_stack_for_nested p "scan-to-recover" none) [
  | none ↦ raised
  | some q ↦ scan_result (scan_loop (scan_fuel q) (recover_step trecover) (pos 0) q.current.cpos q)
]

unfoldable pub scan_to_kw_opts_in_declaration : Parser → List String → Loop Parser
scan_to_kw_opts_in_declaration p kwopts =
    elim (scan_loop (scan_fuel p) (kwopts_step kwopts) (pos 0) p.current.cpos p) [
      | out_of_fuel ↦ out_of_fuel
      | raised ↦ raised
      | done r ↦ done r.2
    ]

unfoldable pub scan_over_semi_delimited_declaration : Parser → Loop Parser
scan_over_semi_delimited_declaration p = elim (scan_to_kw_opts_in_declaration p (";" ∷ [])) [
  | out_of_fuel ↦ out_of_fuel
  | raised ↦ raised
  | done q ↦ elim (test_and_consume_token_if q ";") [ none ↦ raised | some r ↦ done r.1 ]
]

abbrev pub identifier_name : String
identifier_name = "[IDENTIFIER]"

-- The loop of `scanOverBraceDelimitedDeclaration`. The tokens `= ID ;` end a builtin method.
unfoldable pub brace_loop : ℕ → Bool → ℤ → Parser → Loop Parser
brace_loop zero usesemi n p = out_of_fuel
brace_loop (suc fuel) usesemi n p = elim (peek_token p 0) [
  | none ↦ raised
  | some tok ↦
      let m = if tok.kind == "{" then succ n else if tok.kind == "}" then pred n else n in
      let rest = brace_loop fuel usesemi m (consume_token p) in
      if ends tok
      then done p
      else if tok.kind == "}" && is_zero (pred n)
      then done (consume_token p)
      else if usesemi && is_zero n
      then elim (test_follows p ("=" ∷ identifier_name ∷ ";" ∷ [])) [
        | none ↦ raised
        | some builtin ↦
            if builtin then done (consume_token (consume_token (consume_token p))) else rest
      ]
      else rest
]

unfoldable pub scan_over_brace_delimited_declaration : Parser → Bool → Loop Parser
scan_over_brace_delimited_declaration p usesemi = brace_loop (scan_fuel p) usesemi (pos 0) p

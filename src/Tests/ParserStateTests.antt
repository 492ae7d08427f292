-- ===== src/Tests/ParserStateTests.antt =====
-- A token stream at which the theorems on the helpers of src/frontend/parser.ts are applied.
use bosque_core.Prelude.{
  ℕ, zero, ◌≤◌, ◌+◌, suc, String, Bool, true, ◌==◌, has, ◌≡◌, refl, none, some, List, [], ◌∷◌, pos,
  arith, leb,
}
use bosque_core.ParserState.Syntax.{
  Token, ParserState, create_file_toplevel_state, skip_to_position, clone_for_nested,
}
use bosque_core.ParserState.{Parser, consume_token, prep_state_stack_for_nested}
use bosque_core.ParserState.Scan.{
  done, scan_matching_parens, scan_to_recover, scan_to_kw_opts_in_declaration,
  scan_over_brace_delimited_declaration, scan_over_semi_delimited_declaration,
}
use bosque_core.ParserState.Scan.Window.{IsOk, window, advanced}
use bosque_core.ParserState.Scan.Restores.{found_at, scan_matching_parens-find_stop}
use bosque_core.ParserState.Scan.Search.{Searched, Outside, Balances}
use bosque_core.ParserState.Scan.Stops.{
  scan_matching_parens_lem, scan_to_recover_lem, scan_to_kw_opts_in_declaration_lem,
}
use bosque_core.ParserState.Scan.Counts.{Closes}
use bosque_core.ParserState.Scan.Bounds.{scan_matching_parens-Closes}
use bosque_core.ParserState.Scan.Braces.{Moved, scan_over_brace_delimited_declaration_lem}
use bosque_core.ParserState.Scan.Semicolon.{scan_over_semi_delimited_declaration_lem}
use bosque_core.ParserState.Stack.{
  IsWellNested, Reachable, starts, goes_on, consumes, nests, Reachable-IsWellNested,
}

abbrev token : String → Token
token kind = record { line = 1; column = pos 0; pos = 0; span = 1; kind = kind; data_text = none }

-- The tokens of `(a) ; {}`.
abbrev stream : List Token
stream =
    token "("
    ∷ token "[IDENTIFIER]"
    ∷ token ")"
    ∷ token ";"
    ∷ token "{"
    ∷ token "}"
    ∷ token "[EOS]"
    ∷ []

abbrev at_start : Parser
at_start = record {
  current_file = "main.bsq";
  tokens = stream;
  current = record { modetag = "toplevel"; epos = 7; cpos = 0; tokens = stream; errors = [] };
  below = [];
}

at_start-IsOk : IsOk at_start
at_start-IsOk = record {
  ordered = omega arith;
  bounded = omega arith;
  shared = refl;
  last = token "[EOS]";
  last_there = refl;
  last_kind = refl;
}

scan_matching_parens_lem_example :
    (r : Bool × ℕ) × (scan_matching_parens at_start "(" ")" ≡ done (found_at 1 r, at_start))
    × Searched (Balances "(" ")" 1 0 (window stream 1 6)) (window stream 1 6) r
scan_matching_parens_lem_example = scan_matching_parens_lem at_start "(" ")" at_start-IsOk refl

parens_are_found : scan_matching_parens at_start "(" ")" ≡ done (some 3, at_start)
unfolding window
parens_are_found = scan_matching_parens-find_stop at_start "(" ")" at_start-IsOk

scan_matching_parens-Closes_example :
    (k : ℕ) × (3 ≡ suc (1 + k))
    × (3 ≤ 7)
    × Closes "(" ")" 0 k (window stream 1 6)
    × (skip_to_position at_start.current (some 3) ≡ some (record at_start.current { cpos = 3 }))
    × (leb 0 3 ≡ true)
scan_matching_parens-Closes_example =
    scan_matching_parens-Closes at_start at_start "(" ")" 3 at_start-IsOk refl parens_are_found

scan_to_recover_lem_example :
    (r : Bool × ℕ) × (scan_to_recover at_start ";" ≡ done (found_at 0 r, at_start))
    × Searched (Outside (λ tok. tok.kind == ";") 0 0 (window stream 0 7)) (window stream 0 7) r
scan_to_recover_lem_example = scan_to_recover_lem at_start ";" at_start-IsOk

-- It is the token 3, after the parentheses.
semicolon_is_found : Searched (Outside (λ tok. tok.kind == ";") 0 0 stream) stream (true, 3)
semicolon_is_found = (
  ((refl, refl), refl),
  elim [
    | zero ↦ λ h. (λ s. cc s.0, refl)
    | suc zero ↦ λ h. (λ s. cc s.0, refl)
    | suc (suc zero) ↦ λ h. (λ s. cc s.0, refl)
    | suc (suc (suc j)) ↦ λ h. absurd (omega arith)
  ],
)

scan_to_kw_opts_in_declaration_lem_example :
    (b : Bool) × (k : ℕ) × (scan_to_kw_opts_in_declaration at_start ("{" ∷ ";" ∷ [])
      ≡ done (advanced at_start k))
    × Searched
        (Outside (λ tok. has tok.kind ("{" ∷ ";" ∷ [])) 0 0 (window stream 0 7))
        (window stream 0 7)
        (b, k)
    × IsOk (advanced at_start k)
scan_to_kw_opts_in_declaration_lem_example =
    scan_to_kw_opts_in_declaration_lem at_start ("{" ∷ ";" ∷ []) at_start-IsOk

scan_over_brace_delimited_declaration_lem_example :
    (q : Parser) × (scan_over_brace_delimited_declaration at_start true ≡ done q)
    × Moved at_start q
    × IsOk q
scan_over_brace_delimited_declaration_lem_example =
    scan_over_brace_delimited_declaration_lem at_start true at_start-IsOk

abbrev nested_state : ParserState
nested_state = record { modetag = "parens"; epos = 3; cpos = 0; tokens = stream; errors = [] }

-- The parser inside the parentheses.
abbrev in_parens : Parser
in_parens = record at_start { current = nested_state; below = at_start.current ∷ [] }

parens_are_nested : prep_state_stack_for_nested at_start "parens" (some 3) ≡ some in_parens
unfolding prep_state_stack_for_nested clone_for_nested
parens_are_nested = refl

start-Reachable : Reachable at_start
unfolding create_file_toplevel_state
start-Reachable = starts "main.bsq" stream

in_parens-Reachable : Reachable (consume_token in_parens)
in_parens-Reachable =
    goes_on in_parens _
      (goes_on at_start in_parens start-Reachable
        (nests at_start in_parens "parens" (some 3) (omega arith) parens_are_nested))
      (consumes in_parens)

Reachable-IsWellNested_example : IsWellNested (consume_token in_parens)
Reachable-IsWellNested_example =
    Reachable-IsWellNested (consume_token in_parens) in_parens-Reachable

scan_over_semi_delimited_declaration_lem_example :
    (q : Parser) × (scan_over_semi_delimited_declaration at_start ≡ done q)
    × Moved at_start q
    × IsOk q
scan_over_semi_delimited_declaration_lem_example =
    scan_over_semi_delimited_declaration_lem at_start at_start-IsOk

-- ===== src/ParserState/Scan/Restores.antt =====
-- The scans with a result: they end, give back the parser that they were called on, and find what
-- the search in the tokens finds.
use bosque_core.Prelude.{
  ℕ, suc, ◌+◌, ◌-◌, ◌≤◌, ◌<◌, String, Bool, false, ◌≡◌, refl, ◌∙◌, ap, Option, none, some, List, [],
  ◌∷◌, ◌==◌, ltb, ℤ, pos, arith, if◌then◌else◌, Bool-cases, inl, inr, ◌⊎◌,
}
use bosque_core.ParserState.Syntax.{Token, ParserError, clone_for_nested}
use bosque_core.ParserState.{
  Parser, peek_token, consume_token, ensure_token, ensure_and_consume_token_always,
  prep_state_stack_for_nested, pop_state_reset, record_expected_error,
}
use bosque_core.ParserState.Scan.{
  done, Step, scan_fuel, scan_result, matching_step, recover_step, scan_matching_parens,
  scan_to_recover,
}
use bosque_core.ParserState.Scan.Window.{
  IsOk, window, find_stop, scanned, scan_loop-scanned, peek_token-end, peek_token-inside,
  consume_token-inside, leb-yes,
}

ltb-no : (a b : ℕ) → b ≤ a → ltb a b ≡ false
ltb-no a b h = ground (arith, h)

-- The state that a scan pushes on the stack, with the errors `es` and the position `c`.
abbrev nested_at : Parser → String → List ParserError → ℕ → Parser
nested_at p mode es c = record p {
  current = record {
    modetag = mode;
    epos = p.current.epos;
    cpos = c;
    tokens = p.current.tokens;
    errors = es;
  };
  below = p.current ∷ p.below;
}

prep-nested :
    (p : Parser) (mode : String)
    → IsOk p
    → prep_state_stack_for_nested p mode none ≡ some (nested_at p mode [] p.current.cpos)
unfolding prep_state_stack_for_nested clone_for_nested
prep-nested p mode ok =
    rw
      (
        leb-yes p.current.cpos p.current.epos ok.ordered,
        prep_state_stack_for_nested,
        clone_for_nested,
      )
      refl

IsOk-nested :
    (p : Parser) (mode : String) (es : List ParserError) (c : ℕ)
    → IsOk p
    → c ≤ p.current.epos
    → IsOk (nested_at p mode es c)
IsOk-nested p mode es c ok h = record {
  ordered = h;
  bounded = ok.bounded;
  shared = ok.shared;
  last = ok.last;
  last_there = ok.last_there;
  last_kind = ok.last_kind;
}

-- What the search finds, as a position.
abbrev pub found_at : ℕ → Bool × ℕ → Option ℕ
found_at c r = if r.0 then some (suc (c + r.1)) else none

scan_result-nested :
    (p : Parser) (mode : String) (es : List ParserError) (c : ℕ) (step : Step) (n : ℤ) (d : ℕ)
    → scan_result (done (scanned step n c (nested_at p mode es c) d))
      ≡ done (found_at c (find_stop step n (window p.tokens c d)), p)
unfolding scan_result pop_state_reset
scan_result-nested p mode es c step n d = refl

pub ends_or_inside :
    (p : Parser) → IsOk p → (p.current.epos ≡ p.current.cpos) ⊎ (p.current.cpos < p.current.epos)
ends_or_inside p ok = let ordered = ok.ordered in omega arith

pub peek_token-there : (p : Parser) → IsOk p → (t : Token) × (peek_token p 0 ≡ some t)
peek_token-there p ok = elim (ends_or_inside p ok) [
  | inl e ↦ let (t, there, _) = peek_token-end p ok e in (t, there)
  | inr h ↦ let (t, there, _) = peek_token-inside p ok h in (t, there)
]

ensure-nested :
    (p : Parser) (mode kind contextinfo : String)
    → IsOk p
    → (es : List ParserError) × (ensure_and_consume_token_always
          (nested_at p mode [] p.current.cpos)
          kind
          contextinfo
        ≡ some (consume_token (nested_at p mode es p.current.cpos)))
unfolding ensure_and_consume_token_always ensure_token record_expected_error
ensure-nested p mode kind contextinfo ok =
    let nested = nested_at p mode [] p.current.cpos in
    let (t, there) = peek_token-there nested (IsOk-nested p mode [] p.current.cpos ok ok.ordered) in
    elim (Bool-cases (t.kind == kind)) [
      | inl hit ↦ ([], rw (there, ensure_and_consume_token_always, ensure_token) (rw hit refl))
      | inr miss ↦ (
        (record_expected_error nested t kind contextinfo).current.errors,
        rw (there, ensure_and_consume_token_always, ensure_token) (rw miss refl),
      )
    ]

-- With the parser inside its tokens, `scanToRecover` ends with what the search in the tokens before
-- the end of the current state finds, and leaves the parser as it was.
pub scan_to_recover-find_stop :
    (p : Parser) (trecover : String)
    → IsOk p
    → scan_to_recover p trecover
      ≡ done (
        found_at p.current.cpos (
            find_stop
              (recover_step trecover)
              (pos 0)
              (window p.tokens p.current.cpos (p.current.epos - p.current.cpos))),
        p,
      )
unfolding scan_to_recover
scan_to_recover-find_stop p trecover ok =
    let mode : String = "scan-to-recover" in
    let nested = nested_at p mode [] p.current.cpos in
    let ordered = ok.ordered in
    let went =
      scan_loop-scanned (p.current.epos - p.current.cpos) (scan_fuel nested) (recover_step trecover)
        (pos 0) p.current.cpos nested (IsOk-nested p mode [] p.current.cpos ok ok.ordered)
        (omega arith) (omega arith) in
    rw (prep-nested p mode ok, scan_to_recover)
      (rw went (
        scan_result-nested p mode [] p.current.cpos (recover_step trecover) (pos 0)
          (p.current.epos - p.current.cpos)))

pub consume_token-end : (p : Parser) → p.current.epos ≡ p.current.cpos → consume_token p ≡ p
unfolding consume_token
consume_token-end p e =
    rw (ltb-no p.current.cpos p.current.epos (omega (arith, e)), consume_token) refl

consume-nested :
    (p : Parser) (mode : String) (es : List ParserError)
    → p.current.cpos < p.current.epos
    → consume_token (nested_at p mode es p.current.cpos) ≡ nested_at p mode es (suc p.current.cpos)
consume-nested p mode es h =
    let next : p.current.cpos + 1 ≡ suc p.current.cpos = omega arith in
    consume_token-inside (nested_at p mode es p.current.cpos) h ∙ ap (nested_at p mode es) next

-- The same for `scanMatchingParens`, from the token after the current one.
pub scan_matching_parens-find_stop :
    (p : Parser) (lp rp : String)
    → IsOk p
    → scan_matching_parens p lp rp
      ≡ done (
        found_at (suc p.current.cpos) (
            find_stop
              (matching_step lp rp)
              (pos 1)
              (window p.tokens (suc p.current.cpos) (p.current.epos - suc p.current.cpos))),
        p,
      )
unfolding scan_matching_parens window
scan_matching_parens-find_stop p lp rp ok =
    let mode : String = "scan-matching-parens" in
    let (es, ensured) = ensure-nested p mode lp mode ok in
    let start = nested_at p mode es p.current.cpos in
    let step = matching_step lp rp in
    rw (prep-nested p mode ok, scan_matching_parens)
      (rw ensured (elim (ends_or_inside p ok) [
        | inl e ↦
            let none_left : p.current.epos - p.current.cpos ≡ 0 = omega arith in
            let none_left' : p.current.epos - suc p.current.cpos ≡ 0 = omega arith in
            let went =
              scan_loop-scanned 0 (scan_fuel start) step (pos 1) p.current.cpos start
                (IsOk-nested p mode es p.current.cpos ok ok.ordered) (omega arith) (omega arith) in
            rw (consume_token-end start e)
              (rw went (rw none_left' (scan_result-nested p mode es p.current.cpos step (pos 1) 0)))
        | inr h ↦
            let d = p.current.epos - suc p.current.cpos in
            let after = nested_at p mode es (suc p.current.cpos) in
            let went =
              scan_loop-scanned d (scan_fuel after) step (pos 1) (suc p.current.cpos) after
                (IsOk-nested p mode es (suc p.current.cpos) ok h) (omega arith) (omega arith) in
            rw (consume-nested p mode es h)
              (rw went (scan_result-nested p mode es (suc p.current.cpos) step (pos 1) d))
      ]))

-- ===== src/ParserState/Scan/Braces.antt =====
-- `scanOverBraceDelimitedDeclaration` ends, although it looks two tokens ahead.
use bosque_core.Prelude.{
  ℕ, zero, suc, ◌+◌, ◌-◌, ◌≤◌, ◌<◌, String, Bool, true, false, ◌&&◌, ◌≡◌, refl, sym, ◌∙◌, ap, subst,
  some, some-injective, List, [], ◌∷◌, ◌==◌, eq_iff, length, get_elem?, get_last?, ℤ, pos, succ,
  pred, is_zero, arith, if◌then◌else◌, Bool-cases, inl, inr,
}
use bosque_core.ParserState.Syntax.{Token}
use bosque_core.ParserState.{
  end_of_stream, Parser, with_current, peek_token, peek_token_kind, consume_token,
  test_follows_from,
}
use bosque_core.ParserState.Scan.{
  Loop, done, ends, brace_loop, scan_fuel, scan_over_brace_delimited_declaration, identifier_name,
}
use bosque_core.ParserState.Scan.Window.{
  IsOk, advanced, peek_token-end, peek_token-inside, consume_token-inside, IsOk-advanced,
  get_elem?-some, leb-no,
}
use bosque_core.ParserState.Scan.Restores.{consume_token-end, ends_or_inside}

advanced-add : (p : Parser) (a b : ℕ) → advanced (advanced p a) b ≡ advanced p (a + b)
advanced-add p a b =
    let same : p.current.cpos + a + b ≡ p.current.cpos + (a + b) = omega arith in
    ap (λ c. with_current p (record p.current { cpos = c })) same

advanced-zero : (p : Parser) → advanced p 0 ≡ p
advanced-zero p =
    let same : p.current.cpos + 0 ≡ p.current.cpos = omega arith in
    ap (λ c. with_current p (record p.current { cpos = c })) same

-- A parser that has moved forward inside its tokens, and changed in nothing else.
abbrev pub Moved : Parser → Parser → Type 0
Moved p q = (k : ℕ) × (q ≡ advanced p k) × (p.current.cpos + k ≤ p.current.epos)

pub Moved-refl : (p : Parser) → IsOk p → Moved p p
Moved-refl p ok = (0, sym (advanced-zero p), let ordered = ok.ordered in omega arith)

pub Moved-trans : (p q r : Parser) → Moved p q → Moved q r → Moved p r
Moved-trans p q r (a, e, h) (b, e', h') = (
  a + b,
  e' ∙ ap (λ x. advanced x b) e ∙ advanced-add p a b,
  let h'' = subst (λ (x : Parser). x.current.cpos + b ≤ x.current.epos) e h' in omega arith,
)

pub IsOk-Moved : (p q : Parser) → IsOk p → Moved p q → IsOk q
IsOk-Moved p q ok (k, e, h) = subst IsOk (sym e) (IsOk-advanced p k ok h)

pub Moved-consume_token : (p : Parser) → IsOk p → Moved p (consume_token p)
Moved-consume_token p ok = elim (ends_or_inside p ok) [
  | inl e ↦ subst (Moved p) (sym (consume_token-end p e)) (Moved-refl p ok)
  | inr h ↦ (1, consume_token-inside p h, omega arith)
]

-- A token that does not end the stream has a next one.
before_last :
    (ts : List Token) (i : ℕ) (t last : Token)
    → get_elem? ts i ≡ some t
    → (t.kind == end_of_stream) ≡ false
    → get_last? ts ≡ some last
    → last.kind ≡ end_of_stream
    → suc i < length ts
before_last [] i t last there goes e kind = cc
before_last (x ∷ []) zero t last there goes e kind =
    let same : last.kind ≡ t.kind =
      ap (λ (y : Token). y.kind) (sym (some-injective _ _ e) ∙ some-injective _ _ there) in
    cc ((eq_iff t.kind end_of_stream).1 (sym same ∙ kind), goes)
before_last (x ∷ []) (suc i) t last there goes e kind = cc
before_last (x ∷ y ∷ ts) zero t last there goes e kind = omega arith
before_last (x ∷ y ∷ ts) (suc i) t last there goes e kind =
    let rest = before_last (y ∷ ts) i t last there goes e kind in omega arith

-- Ahead of a token that does not end the stream there is another.
peek_token-next :
    (p : Parser) (i : ℕ) (t : Token)
    → IsOk p
    → p.current.cpos < p.current.epos
    → peek_token p i ≡ some t
    → (t.kind == end_of_stream) ≡ false
    → (t' : Token) × (peek_token p (suc i) ≡ some t')
unfolding peek_token
peek_token-next p i t ok h there goes =
    let inside = leb-no p.current.epos p.current.cpos h in
    let here : get_elem? p.tokens (p.current.cpos + i) ≡ some t =
      rw ok.shared at (rw (inside, peek_token) at there) in
    let next =
      before_last p.tokens (p.current.cpos + i) t ok.last here goes ok.last_there ok.last_kind in
    let (t', there') = get_elem?-some p.tokens (p.current.cpos + suc i) (omega arith) in
    (t', rw (inside, peek_token) (rw ok.shared there'))

abbrev AllInside : List String → Type 0
AllInside [] = Unit
AllInside (kind ∷ kinds) = ((kind == end_of_stream) ≡ false) × AllInside kinds

-- Comparing the tokens ahead with kinds that do not end the stream raises no exception.
test_follows_from-some :
    (p : Parser) (i : ℕ) (kinds : List String) (t : Token)
    → IsOk p
    → p.current.cpos < p.current.epos
    → peek_token p i ≡ some t
    → AllInside kinds
    → (b : Bool) × (test_follows_from p i kinds ≡ some b)
unfolding test_follows_from peek_token_kind
test_follows_from-some p i [] t ok h there inner = (true, refl)
test_follows_from-some p i (kind ∷ kinds) t ok h there inner = elim (Bool-cases (t.kind == kind)) [
  | inr miss ↦ (false, rw (there, test_follows_from, peek_token_kind) (rw miss refl))
  | inl hit ↦
      let goes : (t.kind == end_of_stream) ≡ false =
        ap (λ s. s == end_of_stream) ((eq_iff t.kind kind).0 hit) ∙ inner.0 in
      let (t', there') = peek_token-next p i t ok h there goes in
      let (b, rest) = test_follows_from-some p (suc i) kinds t' ok h there' inner.1 in
      (b, rw (there, test_follows_from, peek_token_kind) (rw hit rest))
]

-- `pscount` after a token.
abbrev count_braces : Token → ℤ → ℤ
count_braces tok n = if tok.kind == "{" then succ n else if tok.kind == "}" then pred n else n

abbrev builtin_end : List String
builtin_end = "=" ∷ identifier_name ∷ ";" ∷ []

abbrev Ends : Parser → Loop Parser → Type 0
Ends p l = (q : Parser) × (l ≡ done q) × Moved p q

-- One pass of the loop ends where the rest of the loop does.
brace_loop-pass :
    (fuel : ℕ) (usesemi : Bool) (n : ℤ) (p : Parser)
    → IsOk p
    → p.current.cpos < p.current.epos
    → ((m : ℤ) → Ends p (brace_loop fuel usesemi m (consume_token p)))
    → Ends p (brace_loop (suc fuel) usesemi n p)
unfolding brace_loop
brace_loop-pass fuel usesemi n p ok h rest =
    let (t, peeked, _) = peek_token-inside p ok h in
    let next = Moved-consume_token p ok in
    let (r, ended, moved) = rest (count_braces t n) in
    elim (Bool-cases (ends t)) [
      | inl stops ↦ (p, rw (peeked, brace_loop) (rw stops refl), Moved-refl p ok)
      | inr goes ↦ elim (Bool-cases (t.kind == "}" && is_zero (pred n))) [
        | inl closed ↦ (consume_token p, rw (peeked, brace_loop) (rw goes (rw closed refl)), next)
        | inr open_ ↦ elim (Bool-cases (usesemi && is_zero n)) [
          | inr plain ↦ (r, rw (peeked, brace_loop) (rw goes (rw open_ (rw plain ended))), moved)
          | inl semi ↦
              let (b, followed) =
                test_follows_from-some p 0 builtin_end t ok h peeked (refl, (refl, (refl, tt))) in
              elim (Bool-cases b) [
                | inr other ↦ (
                  r,
                  rw (peeked, brace_loop)
                      (rw goes (rw open_ (rw semi (rw followed (rw other ended))))),
                  moved,
                )
                | inl builtin ↦
                    let ok1 = IsOk-Moved p (consume_token p) ok next in
                    let next2 = Moved-consume_token (consume_token p) ok1 in
                    let ok2 =
                      IsOk-Moved (consume_token p) (consume_token (consume_token p)) ok1 next2 in
                    let next3 = Moved-consume_token (consume_token (consume_token p)) ok2 in
                    (
                      consume_token (consume_token (consume_token p)),
                      rw (peeked, brace_loop)
                          (rw goes (rw open_ (rw semi (rw followed (rw builtin refl))))),
                      Moved-trans p _ _ next (Moved-trans (consume_token p) _ _ next2 next3),
                    )
              ]
        ]
      ]
    ]

brace_loop-Ends :
    (d fuel : ℕ) (usesemi : Bool) (n : ℤ) (p : Parser)
    → IsOk p
    → p.current.cpos + d ≡ p.current.epos
    → d < fuel
    → Ends p (brace_loop fuel usesemi n p)
unfolding brace_loop
brace_loop-Ends d zero usesemi n p ok e enough = absurd (omega arith)
brace_loop-Ends zero (suc fuel) usesemi n p ok e enough =
    let (t, there, stops) = peek_token-end p ok (omega (arith, e)) in
    (p, rw (there, brace_loop) (rw stops refl), Moved-refl p ok)
brace_loop-Ends (suc d) (suc fuel) usesemi n p ok e enough =
    let inside : p.current.cpos < p.current.epos = omega arith in
    brace_loop-pass fuel usesemi n p ok inside (λ m.
      let next : Moved p (consume_token p) = (1, consume_token-inside p inside, omega arith) in
      let (q, ended, moved) =
        brace_loop-Ends d fuel usesemi m (advanced p 1) (IsOk-advanced p 1 ok (omega arith))
          (omega arith) (omega arith) in
      (
        q,
        rw (consume_token-inside p inside) ended,
        Moved-trans p (advanced p 1) q (1, refl, omega arith) moved,
      ))

-- With the parser inside its tokens, which end with an end of stream,
-- `scanOverBraceDelimitedDeclaration` ends without an exception, whether it looks for builtin methods
-- or not. It moves the position of the current state forward, not past its end, and changes nothing
-- else.
pub scan_over_brace_delimited_declaration_lem :
    (p : Parser) (usesemi : Bool)
    → IsOk p
    → (q : Parser) × (scan_over_brace_delimited_declaration p usesemi ≡ done q) × Moved p q × IsOk q
unfolding scan_over_brace_delimited_declaration
scan_over_brace_delimited_declaration_lem p usesemi ok =
    let ordered = ok.ordered in
    let (q, ended, moved) =
      brace_loop-Ends (p.current.epos - p.current.cpos) (scan_fuel p) usesemi (pos 0) p ok
        (omega arith) (omega arith) in
    (q, ended, moved, IsOk-Moved p q ok moved)

-- ===== src/ParserState/Scan/Stops.antt =====
-- The positions that the scans of `Parser` in src/frontend/parser.ts find.
use bosque_core.Prelude.{
  ℕ, suc, ◌+◌, ◌-◌, String, Bool, true, false, ◌&&◌, ◌≡◌, refl, sym, ◌∙◌, ap, List, [], ◌∷◌, ◌==◌,
  eq_iff, has, pos, is_zero, difference, arith, Bool-cases, inl, inr, subst,
}
use bosque_core.ParserState.Syntax.{Token}
use bosque_core.ParserState.{Parser}
use bosque_core.ParserState.Scan.{
  done, Step, count_all, count_pair, left_scan_parens, right_scan_parens, matching_step,
  scan_matching_parens, scan_to_recover, scan_to_kw_opts_in_declaration,
}
use bosque_core.ParserState.Scan.Window.{IsOk, window, advanced, find_stop}
use bosque_core.ParserState.Scan.Restores.{
  found_at, scan_matching_parens-find_stop, scan_to_recover-find_stop,
}
use bosque_core.ParserState.Scan.Bounds.{scan_to_kw_opts_in_declaration-find_stop}
use bosque_core.ParserState.Scan.Search.{
  bumped, Searched, Outside, Balances, is_left, is_right, succ-difference, pred-difference,
  is_zero-difference, find_stop-Searched,
}

-- The names are not among the others.
abbrev AreApart : List String → List String → Type 0
AreApart [] others = Unit
AreApart (n ∷ ns) others = (has n others ≡ false) × AreApart ns others

has-apart :
    (name : String) (names others : List String)
    → AreApart names others
    → has name names ≡ true
    → has name others ≡ false
has-apart name [] others h e = cc
has-apart name (n ∷ ns) others h e = elim (Bool-cases (n == name)) [
  | inl hit ↦ ap (λ x. has x others) (sym ((eq_iff n name).0 hit)) ∙ h.0
  | inr miss ↦ has-apart name ns others h.1 (rw miss at e)
]

left-not_right : (t : Token) → is_left t ≡ true → is_right t ≡ false
left-not_right t =
    has-apart t.kind left_scan_parens right_scan_parens
      (refl, (refl, (refl, (refl, (refl, (refl, tt))))))

count_all-difference :
    (t : Token) (a b : ℕ)
    → count_all t (difference a b) ≡ difference (bumped (is_left t) a) (bumped (is_right t) b)
count_all-difference t a b = elim (Bool-cases (is_left t)) [
  | inl l ↦ rw l (rw (left-not_right t l) (succ-difference a b))
  | inr l ↦ elim (Bool-cases (is_right t)) [
    | inl r ↦ rw l (rw r (pred-difference a b))
    | inr r ↦ rw l (rw r refl)
  ]
]

count_pair-difference :
    (lp rp : String) (t : Token) (a b : ℕ)
    → (lp == rp) ≡ false
    → count_pair lp rp t (difference a b)
      ≡ difference (bumped (t.kind == lp) a) (bumped (t.kind == rp) b)
count_pair-difference lp rp t a b differ = elim (Bool-cases (t.kind == lp)) [
  | inl l ↦
      let r : (t.kind == rp) ≡ false = ap (λ s. s == rp) ((eq_iff t.kind lp).0 l) ∙ differ in
      rw l (rw r (succ-difference a b))
  | inr l ↦ elim (Bool-cases (t.kind == rp)) [
    | inl r ↦ rw l (rw r (pred-difference a b))
    | inr r ↦ rw l (rw r refl)
  ]
]

bumped-add : (c : Bool) (a n : ℕ) → bumped c a + n ≡ a + bumped c n
bumped-add true a n = omega arith
bumped-add false a n = refl

after_bumped :
    (l r : Bool) (a b n m : ℕ) → bumped l a + n ≡ bumped r b + m → a + bumped l n ≡ b + bumped r m
after_bumped l r a b n m e = sym (bumped-add l a n) ∙ e ∙ bumped-add r b m

before_bumped :
    (l r : Bool) (a b n m : ℕ) → a + bumped l n ≡ b + bumped r m → bumped l a + n ≡ bumped r b + m
before_bumped l r a b n m e = bumped-add l a n ∙ e ∙ sym (bumped-add r b m)

-- The loops of `scanToRecover` and `scanToKWOptsInDeclaration`, for the test on a token.
abbrev outside_step : (Token → Bool) → Step
outside_step test tok n = (test tok && is_zero n, count_all tok n)

outside_step-here :
    (test : Token → Bool) (t : Token) (a b : ℕ) (ts : List Token)
    → (outside_step test t (difference a b)).0 ≡ true
    → Outside test a b (t ∷ ts) 0
outside_step-here test t a b ts h = elim (Bool-cases (test t)) [
  | inl hit ↦ let same = (is_zero-difference a b).0 (rw hit at h) in (hit, omega (arith, same))
  | inr miss ↦ cc (rw miss at h)
]

outside_step-not_here :
    (test : Token → Bool) (t : Token) (a b : ℕ) (ts : List Token)
    → (outside_step test t (difference a b)).0 ≡ false
    → ¬ Outside test a b (t ∷ ts) 0
outside_step-not_here test t a b ts h (hit, same) =
    let zero_now = (is_zero-difference a b).1 (omega (arith, same)) in
    cc (rw zero_now at (rw hit at h))

outside_step-Searched :
    (test : Token → Bool) (ts : List Token) (a b : ℕ)
    → Searched (Outside test a b ts) ts (find_stop (outside_step test) (difference a b) ts)
outside_step-Searched test =
    find_stop-Searched (outside_step test) is_left is_right (Outside test) count_all-difference
      (outside_step-here test) (outside_step-not_here test)
      (λ t a b ts k h. (h.0, after_bumped (is_left t) (is_right t) a b _ _ h.1))
      (λ t a b ts k h. (h.0, before_bumped (is_left t) (is_right t) a b _ _ h.1))

matching_step-here :
    (lp rp : String) (t : Token) (a b : ℕ) (ts : List Token)
    → (lp == rp) ≡ false
    → (matching_step lp rp t (difference a b)).0 ≡ true
    → Balances lp rp a b (t ∷ ts) 0
matching_step-here lp rp t a b ts differ h =
    let counted = count_pair-difference lp rp t a b differ in
    let same =
      (is_zero-difference (bumped (t.kind == lp) a) (bumped (t.kind == rp) b)).0
        (sym (ap is_zero counted) ∙ h) in
    after_bumped (t.kind == lp) (t.kind == rp) a b 0 0 (omega (arith, same))

matching_step-not_here :
    (lp rp : String) (t : Token) (a b : ℕ) (ts : List Token)
    → (lp == rp) ≡ false
    → (matching_step lp rp t (difference a b)).0 ≡ false
    → ¬ Balances lp rp a b (t ∷ ts) 0
matching_step-not_here lp rp t a b ts differ h same =
    let counted = count_pair-difference lp rp t a b differ in
    let same' = before_bumped (t.kind == lp) (t.kind == rp) a b 0 0 same in
    let zero_now =
      (is_zero-difference (bumped (t.kind == lp) a) (bumped (t.kind == rp) b)).1
        (omega (arith, same')) in
    cc (h, ap is_zero counted, zero_now)

matching_step-Searched :
    (lp rp : String) (ts : List Token) (a b : ℕ)
    → (lp == rp) ≡ false
    → Searched (Balances lp rp a b ts) ts (find_stop (matching_step lp rp) (difference a b) ts)
matching_step-Searched lp rp ts a b differ =
    find_stop-Searched (matching_step lp rp) (λ t. t.kind == lp) (λ t. t.kind == rp)
      (Balances lp rp) (λ t a b. count_pair-difference lp rp t a b differ)
      (λ t a b ts. matching_step-here lp rp t a b ts differ)
      (λ t a b ts. matching_step-not_here lp rp t a b ts differ)
      (λ t a b ts k h. after_bumped (t.kind == lp) (t.kind == rp) a b _ _ h)
      (λ t a b ts k h. before_bumped (t.kind == lp) (t.kind == rp) a b _ _ h) ts a b

-- With the parser inside its tokens, which end with an end of stream, and two kinds that differ,
-- `scanMatchingParens` ends and leaves the parser as it was. Its result is the position after the
-- first token at which the right kind has come as often as the left one, the current token counted
-- as a left one whatever it is. It has none where an end of stream or a recover token comes before
-- or is that token, or where the current state ends before.
pub scan_matching_parens_lem :
    (p : Parser) (lp rp : String)
    → IsOk p
    → (lp == rp) ≡ false
    → (r : Bool × ℕ) × (scan_matching_parens p lp rp ≡ done (found_at (suc p.current.cpos) r, p))
      × Searched
          (Balances lp rp 1 0
            (window p.tokens (suc p.current.cpos) (p.current.epos - suc p.current.cpos)))
          (window p.tokens (suc p.current.cpos) (p.current.epos - suc p.current.cpos))
          r
scan_matching_parens_lem p lp rp ok differ =
    (_, scan_matching_parens-find_stop p lp rp ok, matching_step-Searched lp rp _ 1 0 differ)

-- With the parser inside its tokens, which end with an end of stream, `scanToRecover` ends and
-- leaves the parser as it was. Its result is the position after the first token of the kind before
-- which, from the current token on, there are as many left parentheses of any kind as right ones.
-- It has none where an end of stream or a recover token comes before or is that token, or where the
-- current state ends before.
pub scan_to_recover_lem :
    (p : Parser) (trecover : String)
    → IsOk p
    → (r : Bool × ℕ) × (scan_to_recover p trecover ≡ done (found_at p.current.cpos r, p))
      × Searched
          (Outside
            (λ tok. tok.kind == trecover)
            0
            0
            (window p.tokens p.current.cpos (p.current.epos - p.current.cpos)))
          (window p.tokens p.current.cpos (p.current.epos - p.current.cpos))
          r
scan_to_recover_lem p trecover ok = (
  _,
  scan_to_recover-find_stop p trecover ok,
  outside_step-Searched (λ tok. tok.kind == trecover) _ 0 0,
)

-- With the parser inside its tokens, which end with an end of stream, `scanToKWOptsInDeclaration`
-- ends. It moves the position of the current state forward, not past its end, and changes nothing
-- else. It stops at the first token of one of the kinds before which, from the current token on,
-- there are as many left parentheses of any kind as right ones, or at the first end of stream or
-- recover token or the end of the current state where that comes before.
pub scan_to_kw_opts_in_declaration_lem :
    (p : Parser) (kwopts : List String)
    → IsOk p
    → (b : Bool) × (k : ℕ) × (scan_to_kw_opts_in_declaration p kwopts ≡ done (advanced p k))
      × Searched
          (Outside
            (λ tok. has tok.kind kwopts)
            0
            0
            (window p.tokens p.current.cpos (p.current.epos - p.current.cpos)))
          (window p.tokens p.current.cpos (p.current.epos - p.current.cpos))
          (b, k)
      × IsOk (advanced p k)
scan_to_kw_opts_in_declaration_lem p kwopts ok =
    let (k, went, is, ok') = scan_to_kw_opts_in_declaration-find_stop p kwopts ok in
    let ts = window p.tokens p.current.cpos (p.current.epos - p.current.cpos) in
    let r = find_stop (outside_step (λ tok. has tok.kind kwopts)) (pos 0) ts in
    (
      r.0,
      k,
      went,
      subst (λ x. Searched (Outside (λ tok. has tok.kind kwopts) 0 0 ts) ts (r.0, x)) (sym is)
          (outside_step-Searched (λ tok. has tok.kind kwopts) ts 0 0),
      ok',
    )

-- ===== src/ParserState/Scan/Window.antt =====
-- A scan is a search through the tokens up to the end of the current state.
use bosque_core.Prelude.{
  ℕ, zero, suc, ◌+◌, ◌≤◌, ◌<◌, Bool, true, false, ◌≡◌, refl, sym, ◌∙◌, ap, none, some, List, [],
  ◌∷◌, length, get_elem?, get_last?, ltb, leb, nat_eq, ℤ, arith, if◌then◌else◌, Bool-cases, inl,
  inr,
}
use bosque_core.ParserState.Syntax.{Token}
use bosque_core.ParserState.{
  end_of_stream, Parser, with_current, recover_token, peek_token, consume_token,
}
use bosque_core.ParserState.Scan.{done, ends, Step, scan_loop}

-- The parser is inside the tokens that it was given, and these end with the end of the stream.
pub record IsOk (p : Parser) : Type 0 where
  pub ordered : p.current.cpos ≤ p.current.epos
  pub bounded : p.current.epos ≤ length p.tokens
  pub shared : p.current.tokens ≡ p.tokens
  pub last : Token
  pub last_there : get_last? p.tokens ≡ some last
  pub last_kind : last.kind ≡ end_of_stream

-- `n` tokens from the position `c` on.
unfoldable pub window : List Token → ℕ → ℕ → List Token
window tokens c zero = []
window tokens c (suc n) = elim (get_elem? tokens c) [
  | none ↦ []
  | some t ↦ t ∷ window tokens (suc c) n
]

-- The first token at which the body leaves the loop, and how many tokens are before it, or before
-- the end.
abbrev pub find_stop : Step → ℤ → List Token → Bool × ℕ
find_stop step n [] = (false, 0)
find_stop step n (t ∷ ts) =
    if ends t
    then (false, 0)
    else if (step t n).0
    then (true, 0)
    else ((find_stop step (step t n).1 ts).0, suc (find_stop step (step t n).1 ts).1)

abbrev pub advanced : Parser → ℕ → Parser
advanced p k = with_current p (record p.current { cpos = p.current.cpos + k })

pub get_elem?-some :
    (ts : List Token) (i : ℕ) → i < length ts → (t : Token) × (get_elem? ts i ≡ some t)
get_elem?-some [] i h = absurd (omega arith)
get_elem?-some (t ∷ ts) zero h = (t, refl)
get_elem?-some (t ∷ ts) (suc i) h = get_elem?-some ts i (omega (arith, h))

pub leb-yes : (a b : ℕ) → a ≤ b → leb a b ≡ true
leb-yes a b h = ground (arith, h)

pub leb-no : (a b : ℕ) → b < a → leb a b ≡ false
leb-no a b h = ground (arith, h)

ltb-yes : (a b : ℕ) → a < b → ltb a b ≡ true
ltb-yes a b h = ground (arith, h)

nat_eq-no : (a b : ℕ) → a < b → nat_eq a b ≡ false
nat_eq-no a b h = ground (arith, h)

less_than : (a b : ℕ) → a ≤ b → nat_eq a b ≡ false → a < b
less_than a b h e = ground (arith, h, e)

pub peek_token-end :
    (p : Parser) (ok : IsOk p)
    → p.current.epos ≡ p.current.cpos
    → (t : Token) × (peek_token p 0 ≡ some t) × (ends t ≡ true)
unfolding peek_token
peek_token-end p ok e =
    let at_end = leb-yes p.current.epos p.current.cpos (omega (arith, e)) in
    elim (Bool-cases (nat_eq p.current.epos (length p.tokens))) [
      | inl whole ↦
          (ok.last, rw (at_end, peek_token) (rw whole ok.last_there), rw (ok.last_kind) refl)
      | inr nested ↦
          let (t, there) =
            get_elem?-some p.tokens p.current.epos (less_than _ _ ok.bounded nested) in
          (
            recover_token t,
            rw (at_end, peek_token) (rw nested (rw ok.shared (rw there refl))),
            refl,
          )
    ]

less_than_trans : (a b c : ℕ) → a < b → b ≤ c → a < c
less_than_trans a b c h k = omega arith

pub peek_token-inside :
    (p : Parser) (ok : IsOk p)
    → p.current.cpos < p.current.epos
    → (t : Token) × (peek_token p 0 ≡ some t) × (get_elem? p.tokens p.current.cpos ≡ some t)
unfolding peek_token
peek_token-inside p ok h =
    let (t, there) = get_elem?-some p.tokens p.current.cpos (less_than_trans _ _ _ h ok.bounded) in
    let here : p.current.cpos + 0 ≡ p.current.cpos = omega arith in
    (
      t,
      rw (leb-no p.current.epos p.current.cpos h, peek_token) (rw here (rw ok.shared there)),
      there,
    )

pub consume_token-inside :
    (p : Parser) → p.current.cpos < p.current.epos → consume_token p ≡ advanced p 1
unfolding consume_token
consume_token-inside p h =
    let next : suc p.current.cpos ≡ p.current.cpos + 1 = omega arith in
    rw (ltb-yes p.current.cpos p.current.epos h, consume_token)
      (ap (λ c. with_current p (record p.current { cpos = c })) next)

pub IsOk-advanced :
    (p : Parser) (k : ℕ) → IsOk p → p.current.cpos + k ≤ p.current.epos → IsOk (advanced p k)
IsOk-advanced p k ok h = record {
  ordered = h;
  bounded = ok.bounded;
  shared = ok.shared;
  last = ok.last;
  last_there = ok.last_there;
  last_kind = ok.last_kind;
}

advanced-zero : (p : Parser) → advanced p 0 ≡ p
advanced-zero p =
    let same : p.current.cpos + 0 ≡ p.current.cpos = omega arith in
    ap (λ c. with_current p (record p.current { cpos = c })) same

advanced-suc : (p : Parser) (k : ℕ) → advanced (advanced p 1) k ≡ advanced p (suc k)
advanced-suc p k =
    let same : p.current.cpos + 1 + k ≡ p.current.cpos + suc k = omega arith in
    ap (λ c. with_current p (record p.current { cpos = c })) same

-- What a scan from the position of the parser gives, by the search in the window.
abbrev pub scanned : Step → ℤ → ℕ → Parser → ℕ → Bool × ℕ × Parser
scanned step n tpos p d =
    let r = find_stop step n (window p.tokens p.current.cpos d) in (r.0, tpos + r.1, advanced p r.1)

scanned-cons :
    (step : Step) (n : ℤ) (tpos : ℕ) (p : Parser) (d : ℕ) (t : Token)
    → get_elem? p.tokens p.current.cpos ≡ some t
    → ends t ≡ false
    → (step t n).0 ≡ false
    → scanned step (step t n).1 (suc tpos) (advanced p 1) d ≡ scanned step n tpos p (suc d)
unfolding window
scanned-cons step n tpos p d t there goes stays =
    let r = find_stop step (step t n).1 (window p.tokens (suc p.current.cpos) d) in
    let next : p.current.cpos + 1 ≡ suc p.current.cpos = omega arith in
    let same : suc tpos + r.1 ≡ tpos + suc r.1 = omega arith in
    rw (there, window)
      (rw goes (
        rw stays (
          ap (λ (x : Bool × ℕ). (x.0, suc tpos + x.1, advanced (advanced p 1) x.1))
            (ap (λ c. find_stop step (step t n).1 (window p.tokens c d)) next)
          ∙ (λ i. (r.0, same i, advanced-suc p r.1 i)))))

stay :
    (b : Bool) (tpos : ℕ) (p : Parser)
    → ◌≡◌ {A = Bool × ℕ × Parser} (b, tpos, p) (b, tpos + 0, advanced p 0)
stay b tpos p =
    let same : tpos ≡ tpos + 0 = omega arith in
    let same_parser : p ≡ advanced p 0 = sym (advanced-zero p) in λ i. (b, same i, same_parser i)

-- With the parser inside its tokens, `d` tokens before the end of its state and more than `d` fuel,
-- the loop ends, and where the search in these tokens says.
pub scan_loop-scanned :
    (d fuel : ℕ) (step : Step) (n : ℤ) (tpos : ℕ) (p : Parser)
    → IsOk p
    → p.current.cpos + d ≡ p.current.epos
    → d < fuel
    → scan_loop fuel step n tpos p ≡ done (scanned step n tpos p d)
unfolding scan_loop window
scan_loop-scanned d zero step n tpos p ok e enough = absurd (omega arith)
scan_loop-scanned zero (suc fuel) step n tpos p ok e enough =
    let (t, there, stops) = peek_token-end p ok (omega (arith, e)) in
    rw (there, scan_loop) (rw stops (ap done (stay false tpos p)))
scan_loop-scanned (suc d) (suc fuel) step n tpos p ok e enough =
    let inside : p.current.cpos < p.current.epos = omega arith in
    let (t, peeked, there) = peek_token-inside p ok inside in
    elim (Bool-cases (ends t)) [
      | inl stops ↦
          rw (peeked, scan_loop)
            (rw stops (rw (there, window) (rw stops (ap done (stay false tpos p)))))
      | inr goes ↦ elim (Bool-cases (step t n).0) [
        | inl leaves ↦
            rw (peeked, scan_loop)
              (rw goes
                (rw leaves (rw (there, window) (rw goes (rw leaves (ap done (stay true tpos p)))))))
        | inr stays ↦
            rw (peeked, scan_loop)
              (rw goes (
                rw stays (
                  rw (consume_token-inside p inside) (
                    scan_loop-scanned d fuel step (step t n).1 (suc tpos) (advanced p 1)
                      (IsOk-advanced p 1 ok (omega arith)) (omega arith) (omega arith)
                    ∙ ap done (scanned-cons step n tpos p d t there goes stays)))))
      ]
    ]

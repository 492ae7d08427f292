-- ===== src/ParserState/Scan/Search.antt =====
-- Where the scans of `Parser` in src/frontend/parser.ts stop, by the numbers of left and right
-- parentheses before a token, and not by the running count of the loops.
use bosque_core.Prelude.{
  ℕ, zero, suc, ◌+◌, ◌-◌, ◌<◌, String, Bool, true, false, ◌≡◌, refl, sym, ap, ◌∙◌, subst, List, [],
  ◌∷◌, ◌==◌, has, ℤ, pos, negsuc, succ, pred, is_zero, difference, leb, arith, ◌⊎◌, ◌↔◌,
  if◌then◌else◌, Bool-cases, inl, inr,
}
use bosque_core.ParserState.Syntax.{Token}
use bosque_core.ParserState.Scan.{ends, Step, left_scan_parens, right_scan_parens}
use bosque_core.ParserState.Scan.Window.{find_stop, leb-yes, leb-no}

-- How many of the first `k` tokens pass the test.
abbrev pub count_if : (Token → Bool) → ℕ → List Token → ℕ
count_if test zero ts = 0
count_if test (suc k) [] = 0
count_if test (suc k) (t ∷ ts) = let rest = count_if test k ts in if test t then suc rest else rest

-- Whether there is a token at `k`, and it passes the test.
abbrev pub passes_at : (Token → Bool) → ℕ → List Token → Bool
passes_at test k [] = false
passes_at test zero (t ∷ ts) = test t
passes_at test (suc k) (t ∷ ts) = passes_at test k ts

-- Whether the tokens are over at `k`, or the token there is an end of stream or a recover token.
abbrev pub ended_at : ℕ → List Token → Bool
ended_at k [] = true
ended_at zero (t ∷ ts) = ends t
ended_at (suc k) (t ∷ ts) = ended_at k ts

-- What a search for the first token with `Stop` gives: that token, or where the tokens end before
-- one. Neither `Stop` nor an end is before it.
abbrev pub Searched : (ℕ → Type 0) → List Token → Bool × ℕ → Type 0
Searched Stop ts r =
    (elim r.0 [ true ↦ Stop r.1 × (ended_at r.1 ts ≡ false) | false ↦ ended_at r.1 ts ≡ true ])
    × ((j : ℕ) → j < r.1 → (¬ Stop j) × (ended_at j ts ≡ false))

abbrev pub is_left : Token → Bool
is_left tok = has tok.kind left_scan_parens

abbrev pub is_right : Token → Bool
is_right tok = has tok.kind right_scan_parens

-- The token at `k` passes the test, and `a` more left than `b` more right parentheses of any kind
-- balance before it.
abbrev pub Outside : (Token → Bool) → ℕ → ℕ → List Token → ℕ → Type 0
Outside test a b ts k =
    (passes_at test k ts ≡ true) × (a + count_if is_left k ts ≡ b + count_if is_right k ts)

-- With `a` left ones and `b` right ones before, the two kinds balance after the token at `k`.
abbrev pub Balances : String → String → ℕ → ℕ → List Token → ℕ → Type 0
Balances lp rp a b ts k =
    a + count_if (λ t. t.kind == lp) (suc k) ts ≡ b + count_if (λ t. t.kind == rp) (suc k) ts

difference-pos : (a b d : ℕ) → a ≡ b + d → difference a b ≡ pos d
difference-pos a b d e =
    let above : leb b a ≡ true = leb-yes b a (omega (arith, e)) in
    let same : a - b ≡ d = omega (arith, e) in rw above (ap pos same)

difference-negsuc : (a b d : ℕ) → b ≡ suc (a + d) → difference a b ≡ negsuc d
difference-negsuc a b d e =
    let below : leb b a ≡ false = leb-no b a (omega (arith, e)) in
    let same : b - a - 1 ≡ d = omega (arith, e) in rw below (ap negsuc same)

-- One number is the other and something, or is below it by something.
apart : (a b : ℕ) → ((d : ℕ) × (a ≡ b + d)) ⊎ ((d : ℕ) × (b ≡ suc (a + d)))
apart zero zero = inl (0, refl)
apart (suc a) zero = inl (suc a, omega arith)
apart zero (suc b) = inr (b, omega arith)
apart (suc a) (suc b) = elim (apart a b) [
  | inl (d, e) ↦ inl (d, omega (arith, e))
  | inr (d, e) ↦ inr (d, omega (arith, e))
]

pub succ-difference : (a b : ℕ) → succ (difference a b) ≡ difference (suc a) b
succ-difference a b = elim (apart a b) [
  | inl (d, e) ↦
      ap succ (difference-pos a b d e) ∙ sym (difference-pos (suc a) b (suc d) (omega (arith, e)))
  | inr (zero, e) ↦
      ap succ (difference-negsuc a b 0 e) ∙ sym (difference-pos (suc a) b 0 (omega (arith, e)))
  | inr (suc d, e) ↦
      ap succ (difference-negsuc a b (suc d) e)
      ∙ sym (difference-negsuc (suc a) b d (omega (arith, e)))
]

pub pred-difference : (a b : ℕ) → pred (difference a b) ≡ difference a (suc b)
pred-difference a b = elim (apart a b) [
  | inl (zero, e) ↦
      ap pred (difference-pos a b 0 e) ∙ sym (difference-negsuc a (suc b) 0 (omega (arith, e)))
  | inl (suc d, e) ↦
      ap pred (difference-pos a b (suc d) e) ∙ sym (difference-pos a (suc b) d (omega (arith, e)))
  | inr (d, e) ↦
      ap pred (difference-negsuc a b d e)
      ∙ sym (difference-negsuc a (suc b) (suc d) (omega (arith, e)))
]

pub is_zero-difference : (a b : ℕ) → (is_zero (difference a b) ≡ true) ↔ (a ≡ b)
is_zero-difference a b = elim (apart a b) [
  | inl (zero, e) ↦ (λ z. omega (arith, e), λ same. ap is_zero (difference-pos a b 0 e))
  | inl (suc d, e) ↦ (
    λ z. cc (z, ap is_zero (difference-pos a b (suc d) e)),
    λ same. absurd (omega (arith, e, same)),
  )
  | inr (d, e) ↦
      (λ z. cc (z, ap is_zero (difference-negsuc a b d e)), λ same. absurd (omega (arith, e, same)))
]

find_stop-ends :
    (step : Step) (n : ℤ) (t : Token) (ts : List Token)
    → ends t ≡ true
    → find_stop step n (t ∷ ts) ≡ (false, 0)
find_stop-ends step n t ts stops = rw stops refl

find_stop-here :
    (step : Step) (n : ℤ) (t : Token) (ts : List Token)
    → ends t ≡ false
    → (step t n).0 ≡ true
    → find_stop step n (t ∷ ts) ≡ (true, 0)
find_stop-here step n t ts goes leaves = rw goes (rw leaves refl)

find_stop-on :
    (step : Step) (n m : ℤ) (t : Token) (ts : List Token)
    → ends t ≡ false
    → (step t n).0 ≡ false
    → (step t n).1 ≡ m
    → find_stop step n (t ∷ ts) ≡ ((find_stop step m ts).0, suc (find_stop step m ts).1)
find_stop-on step n m t ts goes stays next = rw goes (rw stays (rw next refl))

-- The parentheses counted up to and with a token.
abbrev pub bumped : Bool → ℕ → ℕ
bumped b n = if b then suc n else n

-- A search whose count is the difference of the numbers of left and right parentheses.
module _ (step : Step) (left right : Token → Bool) (Stop : ℕ → ℕ → List Token → ℕ → Type 0)
    (counts : (t : Token) (a b : ℕ)
      → (step t (difference a b)).1 ≡ difference (bumped (left t) a) (bumped (right t) b))
    (here : (t : Token) (a b : ℕ) (ts : List Token)
      → (step t (difference a b)).0 ≡ true
      → Stop a b (t ∷ ts) 0)
    (not_here : (t : Token) (a b : ℕ) (ts : List Token)
      → (step t (difference a b)).0 ≡ false
      → ¬ Stop a b (t ∷ ts) 0)
    (shift : (t : Token) (a b : ℕ) (ts : List Token) (k : ℕ)
      → Stop (bumped (left t) a) (bumped (right t) b) ts k
      → Stop a b (t ∷ ts) (suc k))
    (unshift : (t : Token) (a b : ℕ) (ts : List Token) (k : ℕ)
      → Stop a b (t ∷ ts) (suc k)
      → Stop (bumped (left t) a) (bumped (right t) b) ts k) where
  Searched-past :
      (t : Token) (a b : ℕ) (ts : List Token) (found : Bool) (k : ℕ)
      → ends t ≡ false
      → (step t (difference a b)).0 ≡ false
      → Searched (Stop (bumped (left t) a) (bumped (right t) b) ts) ts (found, k)
      → Searched (Stop a b (t ∷ ts)) (t ∷ ts) (found, suc k)
  Searched-past t a b ts true k goes stays (there, before) = (
    (shift t a b ts k there.0, there.1),
    elim [
      | zero ↦ λ h. (not_here t a b ts stays, goes)
      | suc j ↦ λ h.
          let (still_no, on) = before j (omega (arith, h)) in
          (λ s. still_no (unshift t a b ts j s), on)
    ],
  )
  Searched-past t a b ts false k goes stays (there, before) = (
    there,
    elim [
      | zero ↦ λ h. (not_here t a b ts stays, goes)
      | suc j ↦ λ h.
          let (still_no, on) = before j (omega (arith, h)) in
          (λ s. still_no (unshift t a b ts j s), on)
    ],
  )

  pub find_stop-Searched :
      (ts : List Token) (a b : ℕ) → Searched (Stop a b ts) ts (find_stop step (difference a b) ts)
  find_stop-Searched [] a b = (refl, λ j h. absurd (omega arith))
  find_stop-Searched (t ∷ ts) a b =
      let n = difference a b in
      let P : Bool × ℕ → Type 0 = Searched (Stop a b (t ∷ ts)) (t ∷ ts) in
      elim (Bool-cases (ends t)) [
        | inl stops ↦
            subst P (sym (find_stop-ends step n t ts stops)) (stops, λ j h. absurd (omega arith))
        | inr goes ↦ elim (Bool-cases (step t n).0) [
          | inl leaves ↦
              subst P (sym (find_stop-here step n t ts goes leaves))
                ((here t a b ts leaves, goes), λ j h. absurd (omega arith))
          | inr stays ↦
              let a' = bumped (left t) a in
              let b' = bumped (right t) b in
              let r = find_stop step (difference a' b') ts in
              subst P (sym (find_stop-on step n (difference a' b') t ts goes stays (counts t a b)))
                (Searched-past t a b ts r.0 r.1 goes stays (find_stop-Searched ts a' b'))
        ]
      ]

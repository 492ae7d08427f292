-- ===== src/ParserState/Scan/Counts.antt =====
-- The position that `scanMatchingParens` finds, by the numbers of left and right parentheses.
use bosque_core.Prelude.{
  ℕ, zero, suc, ◌+◌, ◌≤◌, ◌<◌, String, Bool, true, false, ◌≡◌, refl, ap, ◌∙◌, subst, List, [], ◌∷◌,
  ◌==◌, length, ℤ, pos, arith, if◌then◌else◌, Bool-cases, inl, inr, eq_iff,
}
use bosque_core.ParserState.Syntax.{Token}
use bosque_core.ParserState.Scan.{ends, Step, matching_step}
use bosque_core.ParserState.Scan.Window.{find_stop}

-- How many of the first `k` tokens are of the kind.
abbrev pub count_kind : String → ℕ → List Token → ℕ
count_kind kind zero ts = 0
count_kind kind (suc k) [] = 0
count_kind kind (suc k) (t ∷ ts) =
    let rest = count_kind kind k ts in if t.kind == kind then suc rest else rest

-- At the token `k` the right parentheses outnumber the left ones by `suc m` for the first time.
abbrev pub Closes : String → String → ℕ → ℕ → List Token → Type 0
Closes lp rp m k ts =
    (k < length ts)
    × (count_kind rp (suc k) ts ≡ suc m + count_kind lp (suc k) ts)
    × ((j : ℕ) → j ≤ k → count_kind rp j ts < suc m + count_kind lp j ts)

module _ (lp rp : String) (t : Token) (ts : List Token) where
  Closes-left :
      (m k : ℕ)
      → (t.kind == lp) ≡ true
      → (t.kind == rp) ≡ false
      → Closes lp rp (suc m) k ts
      → Closes lp rp m (suc k) (t ∷ ts)
  Closes-left m k l r c = (
    omega (arith, c.0),
    rw l (rw r (omega (arith, c.1))),
    elim [
      | zero ↦ λ h. omega arith
      | suc j ↦ λ h. rw l (rw r (let before = c.2 j (omega arith) in omega arith))
    ],
  )

  Closes-right :
      (m k : ℕ)
      → (t.kind == lp) ≡ false
      → (t.kind == rp) ≡ true
      → Closes lp rp m k ts
      → Closes lp rp (suc m) (suc k) (t ∷ ts)
  Closes-right m k l r c = (
    omega (arith, c.0),
    rw l (rw r (omega (arith, c.1))),
    elim [
      | zero ↦ λ h. omega arith
      | suc j ↦ λ h. rw l (rw r (let before = c.2 j (omega arith) in omega arith))
    ],
  )

  Closes-other :
      (m k : ℕ)
      → (t.kind == lp) ≡ false
      → (t.kind == rp) ≡ false
      → Closes lp rp m k ts
      → Closes lp rp m (suc k) (t ∷ ts)
  Closes-other m k l r c = (
    omega (arith, c.0),
    rw l (rw r (c.1)),
    elim [ zero ↦ λ h. omega arith | suc j ↦ λ h. rw l (rw r (c.2 j (omega arith))) ],
  )

  Closes-here : (t.kind == lp) ≡ false → (t.kind == rp) ≡ true → Closes lp rp 0 0 (t ∷ ts)
  Closes-here l r = (
    omega arith,
    rw l (rw r refl),
    elim [ zero ↦ λ h. omega arith | suc j ↦ λ h. absurd (omega arith) ],
  )

-- A search that goes on past a token finds what the search in the rest finds.
find_stop-past :
    (step : Step) (t : Token) (ts : List Token) (n n' : ℤ) (k : ℕ)
    → ends t ≡ false
    → step t n ≡ (false, n')
    → find_stop step n (t ∷ ts) ≡ (true, k)
    → (k' : ℕ) × (suc k' ≡ k) × (find_stop step n' ts ≡ (true, k'))
find_stop-past step t ts n n' k goes stays e =
    let e' = rw goes at (rw stays at e) in
    let hit : (find_stop step n' ts).0 ≡ true = ap (λ (x : Bool × ℕ). x.0) e' in
    (
      (find_stop step n' ts).1,
      ap (λ (x : Bool × ℕ). x.1) e',
      λ i. (hit i, (find_stop step n' ts).1),
    )

-- A search from the count `suc m` that leaves the loop at a token does so at the first one at which
-- the right parentheses outnumber the left ones by `suc m`.
pub find_stop-matching_step :
    (lp rp : String) (m k : ℕ) (ts : List Token)
    → (lp == rp) ≡ false
    → find_stop (matching_step lp rp) (pos (suc m)) ts ≡ (true, k)
    → Closes lp rp m k ts
find_stop-matching_step lp rp m k [] differ e = cc
find_stop-matching_step lp rp m k (t ∷ ts) differ e = elim (Bool-cases (ends t)) [
  | inl stops ↦ cc (rw stops at e)
  | inr goes ↦ elim (Bool-cases (t.kind == lp)) [
    | inl l ↦
        let r : (t.kind == rp) ≡ false = ap (λ s. s == rp) ((eq_iff t.kind lp).0 l) ∙ differ in
        let (k', eq, found) =
          find_stop-past (matching_step lp rp) t ts (pos (suc m)) (pos (suc (suc m))) k goes
            (rw l refl) e in
        subst (λ x. Closes lp rp m x (t ∷ ts)) eq
          (Closes-left lp rp t ts m k' l r
            (find_stop-matching_step lp rp (suc m) k' ts differ found))
    | inr l ↦ elim (Bool-cases (t.kind == rp)) [
      | inl r ↦
          elim m
              as (λ m.
                find_stop (matching_step lp rp) (pos (suc m)) (t ∷ ts) ≡ (true, k)
                → Closes lp rp m k (t ∷ ts)) [
                  | zero ↦ λ e.
                      let e' = rw goes at (rw l at (rw r at e)) in
                      subst (λ x. Closes lp rp 0 x (t ∷ ts)) (ap (λ (x : Bool × ℕ). x.1) e')
                        (Closes-here lp rp t ts l r)
                  | suc m' ↦ λ e.
                      let (k', eq, found) =
                        find_stop-past (matching_step lp rp) t ts (pos (suc (suc m')))
                          (pos (suc m')) k goes (rw l (rw r refl)) e in
                      subst (λ x. Closes lp rp (suc m') x (t ∷ ts)) eq
                        (Closes-right lp rp t ts m' k' l r
                          (find_stop-matching_step lp rp m' k' ts differ found))
                ]
            e
      | inr r ↦
          let (k', eq, found) =
            find_stop-past (matching_step lp rp) t ts (pos (suc m)) (pos (suc m)) k goes
              (rw l (rw r refl)) e in
          subst (λ x. Closes lp rp m x (t ∷ ts)) eq
            (Closes-other lp rp t ts m k' l r (find_stop-matching_step lp rp m k' ts differ found))
    ]
  ]
]

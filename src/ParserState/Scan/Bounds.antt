-- ===== src/ParserState/Scan/Bounds.antt =====
-- Where a scan may end.
use bosque_core.Prelude.{
  ℕ, zero, suc, ◌+◌, ◌-◌, ◌≤◌, String, Bool, true, false, ◌≡◌, refl, sym, ◌∙◌, ap, Option, none,
  some, some-injective, List, [], ◌∷◌, ◌==◌, length, get_elem?, leb, ℤ, pos, arith, Bool-cases,
  Option-cases, inl, inr,
}
use bosque_core.ParserState.Syntax.{Token, skip_to_position}
use bosque_core.ParserState.{Parser}
use bosque_core.ParserState.Scan.{
  Loop, done, raised, out_of_fuel, ends, Step, scan_fuel, matching_step, kwopts_step,
  scan_matching_parens, scan_to_kw_opts_in_declaration,
}
use bosque_core.ParserState.Scan.Window.{
  IsOk, window, find_stop, advanced, scan_loop-scanned, IsOk-advanced, leb-yes,
}
use bosque_core.ParserState.Scan.Restores.{found_at, scan_matching_parens-find_stop}
use bosque_core.ParserState.Scan.Counts.{Closes, find_stop-matching_step}

length-window : (tokens : List Token) (c d : ℕ) → length (window tokens c d) ≤ d
unfolding window
length-window tokens c zero = omega arith
length-window tokens c (suc d) = elim (Option-cases (get_elem? tokens c)) [
  | inl absent ↦ rw (absent, window) (omega arith)
  | inr (t, there) ↦ rw (there, window) (let rest = length-window tokens (suc c) d in omega arith)
]

find_stop-bound : (step : Step) (n : ℤ) (ts : List Token) → (find_stop step n ts).1 ≤ length ts
find_stop-bound step n [] = omega arith
find_stop-bound step n (t ∷ ts) = elim (Bool-cases (ends t)) [
  | inl stops ↦ rw stops (omega arith)
  | inr goes ↦ elim (Bool-cases (step t n).0) [
    | inl leaves ↦ rw goes (rw leaves (omega arith))
    | inr stays ↦
        rw goes (rw stays (let rest = find_stop-bound step (step t n).1 ts in omega arith))
  ]
]

abbrev result : Loop (Option ℕ × Parser) → Option ℕ
result (done r) = r.0
result raised = none
result out_of_fuel = none

found_at-some :
    (c r : ℕ) (x : Bool × ℕ) → found_at c x ≡ some r → (x.0 ≡ true) × (r ≡ suc (c + x.1))
found_at-some c r (true, k) e = (refl, sym (some-injective _ _ e))
found_at-some c r (false, k) e = cc

-- With the parser inside its tokens, which end with an end of stream, and two kinds that differ: a
-- position that `scanMatchingParens` returns is past the current token and not past the end of the
-- current state. The token before it is the first, after the current one, at which the right
-- parentheses outnumber the left ones. So `skipToPosition` and a nested state with this end accept it.
pub scan_matching_parens-Closes :
    (p p' : Parser) (lp rp : String) (r : ℕ)
    → IsOk p
    → (lp == rp) ≡ false
    → scan_matching_parens p lp rp ≡ done (some r, p')
    → (k : ℕ) × (r ≡ suc (suc p.current.cpos + k))
      × (r ≤ p.current.epos)
      × Closes lp rp 0 k
          (window p.tokens (suc p.current.cpos) (p.current.epos - suc p.current.cpos))
      × (skip_to_position p.current (some r) ≡ some (record p.current { cpos = r }))
      × (leb p.current.cpos r ≡ true)
unfolding skip_to_position
scan_matching_parens-Closes p p' lp rp r ok differ e =
    let c = suc p.current.cpos in
    let d = p.current.epos - c in
    let ts = window p.tokens c d in
    let x = find_stop (matching_step lp rp) (pos 1) ts in
    let (hit, here) =
      found_at-some c r x (ap result (sym (scan_matching_parens-find_stop p lp rp ok) ∙ e)) in
    let closes = find_stop-matching_step lp rp 0 x.1 ts differ (λ i. (hit i, x.1)) in
    let inside : r ≤ p.current.epos =
      (let bound = length-window p.tokens c d in let first = closes.0 in omega arith) in
    (
      x.1,
      here,
      inside,
      closes,
      rw (leb-yes r p.current.epos inside, skip_to_position) refl,
      leb-yes p.current.cpos r (omega arith),
    )

-- With the parser inside its tokens, `scanToKWOptsInDeclaration` ends where the search in the tokens
-- stops.
pub scan_to_kw_opts_in_declaration-find_stop :
    (p : Parser) (kwopts : List String)
    → IsOk p
    → (k : ℕ) × (scan_to_kw_opts_in_declaration p kwopts ≡ done (advanced p k))
      × (k
          ≡ (find_stop
              (kwopts_step kwopts)
              (pos 0)
              (window p.tokens p.current.cpos (p.current.epos - p.current.cpos))).1)
      × IsOk (advanced p k)
unfolding scan_to_kw_opts_in_declaration
scan_to_kw_opts_in_declaration-find_stop p kwopts ok =
    let d = p.current.epos - p.current.cpos in
    let step = kwopts_step kwopts in
    let ts = window p.tokens p.current.cpos d in
    let ordered = ok.ordered in
    let went =
      scan_loop-scanned d (scan_fuel p) step (pos 0) p.current.cpos p ok (omega arith)
        (omega arith) in
    let k = (find_stop step (pos 0) ts).1 in
    let bound : p.current.cpos + k ≤ p.current.epos =
      (let first = find_stop-bound step (pos 0) ts in
        let last = length-window p.tokens p.current.cpos d in omega arith) in
    (k, rw (went, scan_to_kw_opts_in_declaration) refl, refl, IsOk-advanced p k ok bound)

-- ===== src/Lexer/Steps/Loop.antt =====
-- A pass of the lexer's loop is a step, on a macro line with a change of the scan modes.
use bosque_core.Prelude.{
  ℕ, zero, suc, ◌+◌, ◌-◌, ◌<◌, ◌≡◌, refl, sym, ◌∙◌, some, arith, Bool-cases, Option-cases, inl, inr,
  ◌⊎◌, subst, ltb,
}
use bosque_core.Lexer.Regex.{consumes}
use bosque_core.Lexer.Patterns.{macro_re}
use bosque_core.Lexer.State.{Lexer, trylex, update_position_info}
use bosque_core.Lexer.Trivia.{skip_to}
use bosque_core.Lexer.Literals.{first_of, matched, check_redundant_signs}
use bosque_core.Lexer.Loop.{
  MacroOp, macro_op, try_lex_macro_op, run_macro, first_attempts, last_attempts, unrecognized,
  lex_checked, lex_token, lex_step, lex_loop,
}
use bosque_core.Lexer.Steps.{
  IsValid, Stepped, Steps, Keeps-refl, Keeps-IsValid, Stepped-Keeps, Stepped-IsValid,
  record-Stepped, trylex_bounds,
}
use bosque_core.Lexer.Steps.Reading.{first_of-Steps, trivia-Steps, skip-Stepped}
use bosque_core.Lexer.Steps.Numbers.{
  date_like-Steps, number_like-Steps, byte_buffer-Steps, uuid-Steps, hash_code-Steps,
  check_redundant_signs-Keeps,
}
use bosque_core.Lexer.Steps.Quotes.{char_like-Steps, string_like-Steps, regex-Steps, path-Steps}
use bosque_core.Lexer.Steps.Words.{symbol-Steps}
use bosque_core.Lexer.Steps.Attributes.{attribute-Steps, name-Steps}

-- One pass: a token or trivia, or a macro line that changes the scan modes.
abbrev pub Passes : Lexer → Lexer → Type 0
Passes l l' =
    Stepped l l'
    ⊎ ((op : MacroOp) × (m : Lexer) × Stepped l m × (m.tokens ≡ l.tokens) × (l' ≡ run_macro op m))

first-Steps : Steps (first_of first_attempts)
first-Steps = first_of-Steps first_attempts (
  trivia-Steps.0,
  (
    trivia-Steps.1,
    (
      trivia-Steps.2,
      (
        trivia-Steps.3,
        (
          date_like-Steps,
          (
            char_like-Steps,
            (string_like-Steps, (byte_buffer-Steps, (uuid-Steps, (hash_code-Steps, tt)))),
          ),
        ),
      ),
    ),
  ),
)

last-Steps : Steps (first_of last_attempts)
last-Steps = first_of-Steps last_attempts (
  number_like-Steps,
  (attribute-Steps, (symbol-Steps, (name-Steps, (path-Steps, (regex-Steps, tt))))),
)

unrecognized-Stepped : (l : Lexer) → l.js_str_pos < l.js_str_end → Stepped l (unrecognized l)
unfolding unrecognized
unrecognized-Stepped l more =
    record-Stepped (l.js_str_pos + 1) "[ERROR]"
      (record {
        input = refl;
        js_str_end = refl;
        macrodefs = refl;
        scanmode = refl;
        js_str_pos = refl;
        tokens = refl;
      })
      (omega arith) (omega arith)

lex_checked-Stepped :
    (l : Lexer) → IsValid l → l.js_str_pos < l.js_str_end → Stepped l (lex_checked l)
unfolding lex_checked
lex_checked-Stepped l valid more = elim (Option-cases (first_of last_attempts l)) [
  | inl no_match ↦ rw (lex_checked, no_match) (unrecognized-Stepped l more)
  | inr (l', found) ↦ rw (lex_checked, found) (last-Steps l l' valid more found)
]

lex_token-Stepped : (l : Lexer) → IsValid l → l.js_str_pos < l.js_str_end → Stepped l (lex_token l)
unfolding lex_token
lex_token-Stepped l valid more = elim (Option-cases (first_of first_attempts l)) [
  | inr (l', found) ↦ rw (lex_token, found) (first-Steps l l' valid more found)
  | inl no_match ↦
      let k = check_redundant_signs-Keeps l more in
      rw (lex_token, no_match)
        (Stepped-Keeps k (
          lex_checked-Stepped (check_redundant_signs l) (Keeps-IsValid k valid)
            (omega (arith, k.js_str_pos, k.js_str_end))))
]

pub lex_step-Passes : (l : Lexer) → IsValid l → l.js_str_pos < l.js_str_end → Passes l (lex_step l)
unfolding lex_step try_lex_macro_op skip_to update_position_info consumes
lex_step-Passes l valid more = elim (Option-cases (trylex macro_re l)) [
  | inl no_macro ↦ inl (rw (lex_step, try_lex_macro_op, no_macro) (lex_token-Stepped l valid more))
  | inr (n, found) ↦
      let (later, inside) = trylex_bounds macro_re l n valid refl found in
      inr (
        macro_op (matched n l),
        skip_to (l.js_str_pos + n) l,
        skip-Stepped (l.js_str_pos + n) (Keeps-refl l) later inside,
        refl,
        rw (lex_step, try_lex_macro_op, found) refl,
      )
]

pub Passes-later : {l l' : Lexer} → Passes l l' → l.js_str_pos < l'.js_str_pos
Passes-later (inl h) = h.later
Passes-later {l} (inr (op, m, h, same, e)) =
    subst (λ x. l.js_str_pos < x.js_str_pos) (sym e) h.later

pub Passes-same :
    {l l' : Lexer} → Passes l l' → (l'.input ≡ l.input) × (l'.js_str_end ≡ l.js_str_end)
Passes-same (inl h) = (h.input, h.js_str_end)
Passes-same {l} (inr (op, m, h, same, e)) =
    subst (λ x. (x.input ≡ l.input) × (x.js_str_end ≡ l.js_str_end)) (sym e) (h.input, h.js_str_end)

run_macro-IsValid : (op : MacroOp) (m : Lexer) → IsValid m → IsValid (run_macro op m)
run_macro-IsValid op m v = record { ends = v.ends; inside = v.inside }

pub Passes-IsValid : {l l' : Lexer} → Passes l l' → IsValid l → IsValid l'
Passes-IsValid (inl h) v = Stepped-IsValid h v
Passes-IsValid (inr (op, m, h, same, e)) v =
    subst IsValid (sym e) (run_macro-IsValid op m (Stepped-IsValid h v))

-- With a pass for each character that is left and one more, the loop ends at the end of the input,
-- and keeps what every pass keeps.
pub lex_loop_inv :
    (P : Lexer → Type 0)
    → ((l l' : Lexer) → IsValid l → P l → Passes l l' → P l')
    → (fuel : ℕ) (l : Lexer) → IsValid l
    → P l
    → l.js_str_end - l.js_str_pos < fuel
    → (l' : Lexer) × (lex_loop fuel l ≡ some l')
      × IsValid l'
      × (l'.js_str_pos ≡ l'.js_str_end)
      × (l'.input ≡ l.input)
      × P l'
unfolding lex_loop
lex_loop_inv P keep zero l valid p enough = absurd (omega arith)
lex_loop_inv P keep (suc fuel) l valid p enough =
    elim (Bool-cases (ltb l.js_str_pos l.js_str_end)) [
      | inr done_ ↦ (l, rw done_ refl, valid, ground (arith, valid.inside), refl, p)
      | inl more ↦
          let passes = lex_step-Passes l valid (ground arith) in
          let same = Passes-same passes in
          let (l', ran, valid', at_end, input, p') =
            lex_loop_inv P keep fuel (lex_step l) (Passes-IsValid passes valid)
              (keep l (lex_step l) valid p passes)
              (ground (arith, Passes-later passes, same.1, valid.inside, enough)) in
          (l', rw more ran, valid', at_end, input ∙ same.0, p')
    ]

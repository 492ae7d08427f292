-- ===== src/Lexer/Steps/Reading.antt =====
-- The attempts on literals and trivia are steps.
use Prim.Native.String.{String}
use bosque_core.Prelude.{
  ℕ, suc, ◌+◌, ◌-◌, ◌≤◌, ◌<◌, true, ◌≡◌, refl, ◌∙◌, some, List, [], ◌∷◌, arith, Bool-cases,
  Option-cases, inl, inr, some-injective, subst, All,
}
use bosque_core.Lexer.Text.{size, slice, starts_with, index_of}
use bosque_core.Lexer.Text.Sizes.{size-drop, starts_with-size, index_of_bounds}
use bosque_core.Lexer.Regex.{Regex, consumes}
use bosque_core.Lexer.Words.{space_required_symbols, space_front_symbols}
use bosque_core.Lexer.Patterns.{whitespace_re, front_suffix_re}
use bosque_core.Lexer.State.{Lexer, ahead, trylex, trylex_ws_plus, here}
use bosque_core.Lexer.Trivia.{
  skip_to, try_lex_ws, where_starts, line_comment, try_lex_line_comment, doc_comment,
  try_lex_doc_comment, span_comment, try_lex_span_comment,
}
use bosque_core.Lexer.Literals.{Attempt, first_of, matched, lex_with, lex_zero_denominator}
use bosque_core.Lexer.Steps.{
  IsValid, Keeps, Stepped, Steps, Keeps-refl, Keeps-trans, push_error-Keeps,
  update_position_info-Keeps, advance-Stepped, record_w_data-Stepped, trylex_bounds,
}

pub first_of-Steps : (attempts : List Attempt) → All Steps attempts → Steps (first_of attempts)
unfolding first_of
first_of-Steps [] h l l' v more e = cc
first_of-Steps (attempt ∷ attempts) h l l' v more e = elim (Option-cases (attempt l)) [
  | inl no_match ↦ first_of-Steps attempts h.1 l l' v more (rw (first_of, no_match) at e)
  | inr (m, found) ↦ h.0 l l' v more (found ∙ rw (first_of, found) at e)
]

pub lex_with-Steps :
    (text : String → String) (re : Regex) (kind : String)
    → consumes re ≡ true
    → Steps (lex_with text re kind)
unfolding lex_with
lex_with-Steps text re kind c l l' v more e = elim (Option-cases (trylex re l)) [
  | inl no_match ↦ cc (rw (lex_with, no_match) at e)
  | inr (n, found) ↦
      let (later, inside) = trylex_bounds re l n v c found in
      subst (Stepped l) (some-injective _ l' (rw (lex_with, found) at e)) (
        record_w_data-Stepped (l.js_str_pos + n) kind (text (matched n l)) (Keeps-refl l) later
          inside)
]

pub zero_denominator-Steps :
    (re : Regex) (kind : String) → consumes re ≡ true → Steps (lex_zero_denominator re kind)
unfolding lex_zero_denominator
zero_denominator-Steps re kind c l l' v more e = elim (Option-cases (trylex re l)) [
  | inl no_match ↦ cc (rw (lex_zero_denominator, no_match) at e)
  | inr (n, found) ↦
      let (later, inside) = trylex_bounds re l n v c found in
      subst (Stepped l) (some-injective _ l' (rw (lex_zero_denominator, found) at e)) (
        record_w_data-Stepped (l.js_str_pos + n) kind (matched n l)
          (push_error-Keeps (here n l) "Zero denominator in rational number" l) later inside)
]

-- After an opening text `v`.
abbrev pub StepsAfter : String → Attempt → Type 0
StepsAfter v attempt =
    (l l' : Lexer)
    → IsValid l
    → l.js_str_pos + size v ≤ l.js_str_end
    → attempt l ≡ some l'
    → Stepped l l'

pub where_starts-Steps :
    (v : String) (attempt : Attempt) → StepsAfter v attempt → Steps (where_starts v attempt)
unfolding where_starts
where_starts-Steps v attempt h l l' valid more e = elim (Bool-cases (starts_with v (ahead l))) [
  | inl opens ↦
      h l l' valid
        (omega (
          arith,
          starts_with-size v (ahead l) opens,
          size-drop l.js_str_pos l.input,
          valid.ends,
          valid.inside,
        ))
        (rw opens at e)
  | inr other ↦ cc (rw other at e)
]

pub skip-Stepped :
    {l m : Lexer} (j : ℕ)
    → Keeps l m
    → l.js_str_pos < j
    → j ≤ l.js_str_end
    → Stepped l (skip_to j m)
unfolding skip_to
skip-Stepped {l} {m} j k later inside =
    advance-Stepped j (Keeps-trans k (update_position_info-Keeps m.js_str_pos j m)) later inside

pub try_lex_ws-Steps : Steps try_lex_ws
unfolding try_lex_ws consumes
try_lex_ws-Steps l l' v more e =
    elim (Option-cases (trylex_ws_plus space_required_symbols whitespace_re l)) [
      | inr (n, symbol) ↦ cc (rw (try_lex_ws, symbol) at e)
      | inl no_symbol ↦ elim (Option-cases (trylex_ws_plus space_front_symbols front_suffix_re l)) [
        | inr (n, symbol) ↦ cc (rw (try_lex_ws, no_symbol, symbol) at e)
        | inl no_front ↦ elim (Option-cases (trylex whitespace_re l)) [
          | inl no_space ↦ cc (rw (try_lex_ws, no_symbol, no_front, no_space) at e)
          | inr (n, found) ↦
              let (later, inside) = trylex_bounds whitespace_re l n v refl found in
              subst (Stepped l)
                (some-injective _ l' (rw (try_lex_ws, no_symbol, no_front, found) at e))
                (skip-Stepped (l.js_str_pos + n) (Keeps-refl l) later inside)
        ]
      ]
    ]

-- Where a search after an opening finds.
pub index_of_inside :
    (v : String) (l : Lexer) (k j : ℕ)
    → IsValid l
    → l.js_str_pos + k ≤ l.js_str_end
    → index_of v l.input (l.js_str_pos + k) ≡ some j
    → (l.js_str_pos + k ≤ j) × (j + size v ≤ l.js_str_end)
index_of_inside v l k j valid low found =
    let (after, inside) =
      index_of_bounds v l.input (l.js_str_pos + k) j (omega (arith, valid.ends)) found in
    (after, omega (arith, valid.ends))

line_comment-StepsAfter : StepsAfter "%%" line_comment
unfolding line_comment size
line_comment-StepsAfter l l' valid low e =
    elim (Option-cases (index_of "\n" l.input l.js_str_pos)) [
      | inl no_mark ↦
          subst (Stepped l) (some-injective _ l' (rw (line_comment, no_mark) at e))
            (skip-Stepped l.js_str_end (Keeps-refl l) (omega arith) (omega arith))
      | inr (j, found) ↦
          let (after, inside) =
            index_of_bounds "\n" l.input l.js_str_pos j (omega (arith, valid.ends, valid.inside))
              found in
          subst (Stepped l) (some-injective _ l' (rw (line_comment, found) at e))
            (skip-Stepped (suc j) (Keeps-refl l) (omega arith) (omega (arith, valid.ends)))
    ]

doc_comment-StepsAfter : StepsAfter "%** " doc_comment
unfolding doc_comment size
doc_comment-StepsAfter l l' valid low e =
    elim (Option-cases (index_of " **%" l.input (l.js_str_pos + 4))) [
      | inl no_mark ↦ cc (rw (doc_comment, no_mark) at e)
      | inr (j, found) ↦
          let (after, inside) = index_of_inside " **%" l 4 j valid low found in
          subst (Stepped l) (some-injective _ l' (rw (doc_comment, found) at e)) (
            record_w_data-Stepped (j + 4) "[DOC_COMMENT]" (slice l.input l.js_str_pos (j + 4))
              (update_position_info-Keeps l.js_str_pos (j + 4) l) (omega arith) (omega arith))
    ]

span_comment-StepsAfter : StepsAfter "%*" span_comment
unfolding span_comment size
span_comment-StepsAfter l l' valid low e =
    elim (Option-cases (index_of "*%" l.input (l.js_str_pos + 2))) [
      | inl no_mark ↦ subst (Stepped l) (some-injective _ l' (rw (span_comment, no_mark) at e)) (
          skip-Stepped l.js_str_end
            (push_error-Keeps (here (l.js_str_end - l.js_str_pos) l) "Unterminated span comment" l)
            (omega arith) (omega arith))
      | inr (j, found) ↦
          let (after, inside) = index_of_inside "*%" l 2 j valid low found in
          subst (Stepped l) (some-injective _ l' (rw (span_comment, found) at e))
            (skip-Stepped (j + 2) (Keeps-refl l) (omega arith) (omega arith))
    ]

pub trivia-Steps :
    Steps try_lex_ws
    × Steps try_lex_line_comment
    × Steps try_lex_doc_comment
    × Steps try_lex_span_comment
unfolding try_lex_line_comment try_lex_doc_comment try_lex_span_comment
trivia-Steps = (
  try_lex_ws-Steps,
  where_starts-Steps "%%" line_comment line_comment-StepsAfter,
  where_starts-Steps "%** " doc_comment doc_comment-StepsAfter,
  where_starts-Steps "%*" span_comment span_comment-StepsAfter,
)

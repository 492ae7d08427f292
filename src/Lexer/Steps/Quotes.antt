-- ===== src/Lexer/Steps/Quotes.antt =====
-- The attempts on literals between marks are steps.
use Prim.Native.String.{String}
use bosque_core.Prelude.{
  ℕ, suc, ◌+◌, ◌-◌, ◌≤◌, ◌<◌, true, ◌≡◌, refl, Option, none, some, arith, Bool-cases, Option-cases,
  inl, inr, some-injective, subst, ltb,
}
use bosque_core.Lexer.Text.{size, drop, slice, starts_with, index_of}
use bosque_core.Lexer.Text.Sizes.{size-drop, starts_with-size}
use bosque_core.Lexer.Regex.{consumes}
use bosque_core.Lexer.Patterns.{path_re, valid_cstring_char, valid_regex_char}
use bosque_core.Lexer.State.{Lexer, trylex, here}
use bosque_core.Lexer.Quoted.{
  all_chars, some_char, error_to, unterminated, quoted_to, unicode_char, try_lex_unicode_char,
  unicode_string, try_lex_unicode_string, cchar_to, cchar, try_lex_cchar, cstring_to, cstring,
  try_lex_cstring, try_lex_char_like, try_lex_string_like, after_flag, regex_to, regex,
  try_lex_regex, path_to, try_lex_path,
}
use bosque_core.Lexer.Steps.{
  IsValid, Stepped, Steps, push_error-Keeps, update_position_info-Keeps, record_w_data-Stepped,
  record-Stepped, trylex_bounds,
}
use bosque_core.Lexer.Steps.Reading.{
  first_of-Steps, StepsAfter, where_starts-Steps, index_of_inside,
}

pub error_to-Stepped :
    (j span : ℕ) (message : String) (l : Lexer)
    → l.js_str_pos < j
    → j ≤ l.js_str_end
    → Stepped l (error_to j span message l)
unfolding error_to
error_to-Stepped j span message l later inside =
    record-Stepped j "[ERROR]" (push_error-Keeps (here span l) message l) later inside

quoted_to-Stepped :
    (j : ℕ) (kind : String) (l : Lexer)
    → l.js_str_pos < j
    → j ≤ l.js_str_end
    → Stepped l (quoted_to j kind l)
unfolding quoted_to
quoted_to-Stepped j kind l later inside =
    record_w_data-Stepped j kind (slice l.input l.js_str_pos j)
      (update_position_info-Keeps l.js_str_pos j l) later inside

-- Every answer to a search for the mark behind the opening is a step.
abbrev StepsFrom : ℕ → String → (Lexer → Option ℕ → Option Lexer) → Type 0
StepsFrom k mark answer =
    (l l' : Lexer) (o : Option ℕ)
    → IsValid l
    → l.js_str_pos + k ≤ l.js_str_end
    → ((j : ℕ) → o ≡ some j → (l.js_str_pos + k ≤ j) × (j + size mark ≤ l.js_str_end))
    → answer l o ≡ some l'
    → Stepped l l'

module _ (k : ℕ) (pos_k : 0 < k) where
  unterminated-Stepped :
      (message : String) (l : Lexer)
      → l.js_str_pos + k ≤ l.js_str_end
      → Stepped l (unterminated message l)
  unterminated-Stepped message l low =
      error_to-Stepped l.js_str_end (l.js_str_end - l.js_str_pos) message l (omega arith)
        (omega arith)

  quoted-StepsFrom :
      (message kind : String)
      → StepsFrom k "\"" (λ l o. elim o [
        | none ↦ some (unterminated message l)
        | some j ↦ some (quoted_to (suc j) kind l)
      ])
  unfolding size
  quoted-StepsFrom message kind l l' none valid low found e =
      subst (Stepped l) (some-injective _ l' e) (unterminated-Stepped message l low)
  quoted-StepsFrom message kind l l' (some j) valid low found e =
      let (after, inside) = found j refl in
      subst (Stepped l) (some-injective _ l' e)
        (quoted_to-Stepped (suc j) kind l (omega arith) (omega arith))

  cstring_to-Stepped :
      (j : ℕ) (kind : String) (l : Lexer)
      → l.js_str_pos + k ≤ j
      → j + 1 ≤ l.js_str_end
      → Stepped l (cstring_to (l.js_str_pos + k) j kind l)
  unfolding cstring_to
  cstring_to-Stepped j kind l after inside =
      elim (Bool-cases (all_chars valid_cstring_char (slice l.input (l.js_str_pos + k) j))) [
        | inl ok ↦ rw ok (quoted_to-Stepped (suc j) kind l (omega arith) (omega arith))
        | inr bad ↦ rw bad (
            error_to-Stepped j (j - l.js_str_pos) "Invalid chacaters in CString literal" l
              (omega arith) (omega arith))
      ]

  cchar_to-Stepped :
      (j : ℕ) (l : Lexer)
      → l.js_str_pos + k ≤ j
      → j + 1 ≤ l.js_str_end
      → Stepped l (cchar_to (l.js_str_pos + k) j l)
  unfolding cchar_to
  cchar_to-Stepped j l after inside =
      elim (Bool-cases (all_chars valid_cstring_char (slice l.input (l.js_str_pos + k) j))) [
        | inr bad ↦ rw bad (
            error_to-Stepped j (j - l.js_str_pos) "Invalid chacaters in CChar literal" l
              (omega arith) (omega arith))
        | inl ok ↦ elim (Bool-cases (ltb 1 (j - (l.js_str_pos + k)))) [
          | inl long ↦
              rw (ok, long)
                (unterminated-Stepped "More than one character in CChar literal" l (omega arith))
          | inr short ↦
              rw (ok, short)
                (quoted_to-Stepped (suc j) "[LITERAL_CCHAR]" l (omega arith) (omega arith))
        ]
      ]

unicode_char-StepsAfter : StepsAfter "c\"" unicode_char
unfolding unicode_char size
unicode_char-StepsAfter l l' valid low e =
    quoted-StepsFrom 2 (omega arith) "Unterminated UnicodeChar literal" "[LITERAL_UNICODECHAR]" l l'
      (index_of "\"" l.input (l.js_str_pos + 2)) valid low
      (λ j found. index_of_inside "\"" l 2 j valid low found) e

unicode_string-StepsAfter :
    (v : String) (k : ℕ) (kind : String) → 0 < k → size v ≡ k → StepsAfter v (unicode_string k kind)
unfolding unicode_string
unicode_string-StepsAfter v k kind pos_k same l l' valid low e =
    let low_k : l.js_str_pos + k ≤ l.js_str_end = omega arith in
    quoted-StepsFrom k pos_k "Unterminated string literal" kind l l'
      (index_of "\"" l.input (l.js_str_pos + k)) valid low_k
      (λ j found. index_of_inside "\"" l k j valid low_k found) e

cchar-StepsAfter : StepsAfter "c'" cchar
unfolding cchar size
cchar-StepsAfter l l' valid low e = elim (Option-cases (index_of "'" l.input (l.js_str_pos + 2))) [
  | inl no_mark ↦
      subst (Stepped l) (some-injective _ l' (rw (cchar, no_mark) at e))
        (unterminated-Stepped 2 (omega arith) "Unterminated CChar literal" l low)
  | inr (j, found) ↦
      let (after, inside) = index_of_inside "'" l 2 j valid low found in
      subst (Stepped l) (some-injective _ l' (rw (cchar, found) at e))
        (cchar_to-Stepped 2 (omega arith) j l after inside)
]

cstring-StepsAfter :
    (v : String) (k : ℕ) (kind : String) → 0 < k → size v ≡ k → StepsAfter v (cstring k kind)
unfolding cstring size
cstring-StepsAfter v k kind pos_k same l l' valid low e =
    let low_k : l.js_str_pos + k ≤ l.js_str_end = omega arith in
    elim (Option-cases (index_of "'" l.input (l.js_str_pos + k))) [
      | inl no_mark ↦
          subst (Stepped l) (some-injective _ l' (rw (cstring, no_mark) at e))
            (unterminated-Stepped k pos_k "Unterminated CString literal" l low_k)
      | inr (j, found) ↦
          let (after, inside) = index_of_inside "'" l k j valid low_k found in
          subst (Stepped l) (some-injective _ l' (rw (cstring, found) at e))
            (cstring_to-Stepped k pos_k j kind l after inside)
    ]

pub char_like-Steps : Steps try_lex_char_like
unfolding try_lex_char_like try_lex_cchar try_lex_unicode_char
char_like-Steps = first_of-Steps _ (
  where_starts-Steps "c'" cchar cchar-StepsAfter,
  (where_starts-Steps "c\"" unicode_char unicode_char-StepsAfter, tt),
)

pub string_like-Steps : Steps try_lex_string_like
unfolding try_lex_string_like try_lex_unicode_string try_lex_cstring size
string_like-Steps = first_of-Steps _ (
  first_of-Steps _ (
    where_starts-Steps "$\"" _ (unicode_string-StepsAfter "$\"" 2 _ (omega arith) refl),
    (where_starts-Steps "\"" _ (unicode_string-StepsAfter "\"" 1 _ (omega arith) refl), tt),
  ),
  (
    first_of-Steps _ (
      where_starts-Steps "$'" _ (cstring-StepsAfter "$'" 2 _ (omega arith) refl),
      (where_starts-Steps "'" _ (cstring-StepsAfter "'" 1 _ (omega arith) refl), tt),
    ),
    tt,
  ),
)

-- A text that is seen at a position lies inside the input.
seen_inside :
    (v : String) (j : ℕ) (l : Lexer)
    → IsValid l
    → 0 < size v
    → starts_with v (drop j l.input) ≡ true
    → j + size v ≤ l.js_str_end
seen_inside v j l valid some_size seen =
    omega (arith, starts_with-size v (drop j l.input) seen, size-drop j l.input, valid.ends)

after_flag_bounds :
    (j : ℕ) (l : Lexer)
    → IsValid l
    → j ≤ l.js_str_end
    → (j ≤ after_flag j l) × (after_flag j l ≤ l.js_str_end)
unfolding size
after_flag_bounds j l valid inside = elim (Bool-cases (starts_with "c" (drop j l.input))) [
  | inl flag ↦ rw flag (omega arith, omega (arith, seen_inside "c" j l valid (omega arith) flag))
  | inr no_c ↦ elim (Bool-cases (starts_with "p" (drop j l.input))) [
    | inl flag ↦
        rw (no_c, flag) (omega arith, omega (arith, seen_inside "p" j l valid (omega arith) flag))
    | inr no_p ↦ rw (no_c, no_p) (omega arith, inside)
  ]
]

regex_to-Stepped :
    (j : ℕ) (l : Lexer)
    → IsValid l
    → l.js_str_pos + 1 ≤ j
    → j + 1 ≤ l.js_str_end
    → Stepped l (regex_to j l)
unfolding regex_to
regex_to-Stepped j l valid after inside =
    elim (Bool-cases (some_char valid_regex_char (slice l.input (l.js_str_pos + 1) j))) [
      | inr bad ↦ rw bad (
          error_to-Stepped j (j - l.js_str_pos) "Invalid characters in (or empty) Regex literal" l
            (omega arith) (omega arith))
      | inl ok ↦
          let (low, high) = after_flag_bounds (suc j) l valid (omega arith) in
          rw ok
            (quoted_to-Stepped (after_flag (suc j) l) "[LITERAL_REGEX]" l (omega (arith, low)) high)
    ]

regex-StepsAfter : StepsAfter "/" regex
unfolding regex size
regex-StepsAfter l l' valid low e = elim (Option-cases (index_of "/" l.input (l.js_str_pos + 1))) [
  | inl no_mark ↦
      subst (Stepped l) (some-injective _ l' (rw (regex, no_mark) at e))
        (unterminated-Stepped 1 (omega arith) "Unterminated Regex literal" l low)
  | inr (j, found) ↦
      let (after, inside) = index_of_inside "/" l 1 j valid low found in
      subst (Stepped l) (some-injective _ l' (rw (regex, found) at e))
        (regex_to-Stepped j l valid after inside)
]

pub regex-Steps : Steps try_lex_regex
unfolding try_lex_regex
regex-Steps = where_starts-Steps "/" regex regex-StepsAfter

pub path-Steps : Steps try_lex_path
unfolding try_lex_path path_to consumes
path-Steps l l' v more e = elim (Option-cases (trylex path_re l)) [
  | inl no_match ↦ cc (rw (try_lex_path, no_match) at e)
  | inr (n, found) ↦
      let (later, inside) = trylex_bounds path_re l n v refl found in
      subst (Stepped l) (some-injective _ l' (rw (try_lex_path, found) at e)) (
        record_w_data-Stepped (l.js_str_pos + n) _ _
          (update_position_info-Keeps l.js_str_pos (l.js_str_pos + n) l) later inside)
]

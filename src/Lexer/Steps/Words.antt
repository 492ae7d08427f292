-- ===== src/Lexer/Steps/Words.antt =====
-- The attempts on symbols, attributes and names are steps.
use Prim.Native.String.{String, ◌++◌}
use bosque_core.Prelude.{
  ℕ, ◌+◌, ◌-◌, ◌≤◌, ◌<◌, true, ◌≡◌, refl, some, List, [], ◌∷◌, arith, Bool-cases, Option-cases, inl,
  inr, some-injective, subst, All,
}
use bosque_core.Lexer.Text.{size, drop, starts_with, trim}
use bosque_core.Lexer.Text.Sizes.{size-drop, starts_with-size}
use bosque_core.Lexer.Regex.{Regex, consumes, match_length}
use bosque_core.Lexer.Regex.Bounds.{match_length_bounds}
use bosque_core.Lexer.Words.{
  standard_symbols, space_required_symbols, space_front_symbols, paren_symbols,
}
use bosque_core.Lexer.Patterns.{whitespace_re, front_suffix_re}
use bosque_core.Lexer.State.{Lexer, ahead, trylex_ws_plus, find_prefix}
use bosque_core.Lexer.Literals.{matched}
use bosque_core.Lexer.Names.{without_last, space_symbol, front_symbol, word_of, try_lex_symbol}
use bosque_core.Lexer.Steps.{IsValid, Stepped, Steps, Keeps-refl, record-Stepped}
use bosque_core.Lexer.Steps.Reading.{first_of-Steps, lex_with-Steps}

-- No word of the list is empty.
abbrev pub AreWords : List String → Type 0
AreWords = All (λ (w : String). 0 < size w)

find_prefix_bounds :
    (words : List String) (s w : String)
    → AreWords words
    → find_prefix words s ≡ some w
    → (0 < size w) × (size w ≤ size s)
unfolding find_prefix
find_prefix_bounds [] s w h e = cc
find_prefix_bounds (v ∷ words) s w h e = elim (Bool-cases (starts_with v s)) [
  | inl hit ↦
      subst (λ w. (0 < size w) × (size w ≤ size s)) (some-injective v w (rw hit at e))
        (h.0, starts_with-size v s hit)
  | inr miss ↦ find_prefix_bounds words s w h.1 (rw miss at e)
]

-- A match with leading space and a trailing character.
trylex_ws_plus_bounds :
    (options : List String) (suffix : Regex) (l : Lexer) (n : ℕ)
    → IsValid l
    → AreWords options
    → consumes suffix ≡ true
    → trylex_ws_plus options suffix l ≡ some n
    → (2 < n) × (l.js_str_pos + n ≤ l.js_str_end)
unfolding trylex_ws_plus consumes
trylex_ws_plus_bounds options suffix l n valid words c e =
    elim (Option-cases (match_length whitespace_re (ahead l))) [
      | inl no_space ↦ cc (rw (trylex_ws_plus, no_space) at e)
      | inr (pre, at_pre) ↦
          elim (Option-cases (find_prefix options (drop (l.js_str_pos + pre) l.input))) [
            | inl no_option ↦ cc (rw (trylex_ws_plus, at_pre, no_option) at e)
            | inr (opt, at_opt) ↦
                let next = l.js_str_pos + pre + size opt in
                elim (Option-cases (match_length suffix (drop next l.input))) [
                  | inl no_suffix ↦ cc (rw (trylex_ws_plus, at_pre, at_opt, no_suffix) at e)
                  | inr (suf, at_suf) ↦
                      let p = match_length_bounds whitespace_re (ahead l) pre refl at_pre in
                      let o =
                        find_prefix_bounds options (drop (l.js_str_pos + pre) l.input) opt words
                          at_opt in
                      let f = match_length_bounds suffix (drop next l.input) suf c at_suf in
                      let same =
                        some-injective (pre + size opt + suf) n
                          (rw (trylex_ws_plus, at_pre, at_opt, at_suf) at e) in
                      (
                        omega (arith, p, o, f),
                        omega (arith, p, o, f, size-drop next l.input, valid.ends),
                      )
                ]
          ]
    ]

space_symbol-Steps : Steps space_symbol
unfolding space_symbol consumes size
space_symbol-Steps l l' v more e =
    elim (Option-cases (trylex_ws_plus space_required_symbols whitespace_re l)) [
      | inl no_match ↦ cc (rw (space_symbol, no_match) at e)
      | inr (n, found) ↦
          let (low, high) =
            trylex_ws_plus_bounds space_required_symbols whitespace_re l n v (omega arith) refl
              found in
          subst (Stepped l) (some-injective _ l' (rw (space_symbol, found) at e)) (
            record-Stepped (l.js_str_pos + n) (" " ++ trim (matched n l) ++ " ") (Keeps-refl l)
              (omega arith) high)
    ]

front_symbol-Steps : Steps front_symbol
unfolding front_symbol consumes size
front_symbol-Steps l l' v more e =
    elim (Option-cases (trylex_ws_plus space_front_symbols front_suffix_re l)) [
      | inl no_match ↦ cc (rw (front_symbol, no_match) at e)
      | inr (n, found) ↦
          let (low, high) =
            trylex_ws_plus_bounds space_front_symbols front_suffix_re l n v (omega arith) refl
              found in
          subst (Stepped l) (some-injective _ l' (rw (front_symbol, found) at e)) (
            record-Stepped (l.js_str_pos + n - 1) (" " ++ without_last (trim (matched n l)))
              (Keeps-refl l) (omega arith) (omega arith))
    ]

-- A word that stands at the position lies inside the input.
pub word_bounds :
    (words : List String) (l : Lexer) (w : String)
    → IsValid l
    → AreWords words
    → find_prefix words (ahead l) ≡ some w
    → (l.js_str_pos < l.js_str_pos + size w) × (l.js_str_pos + size w ≤ l.js_str_end)
word_bounds words l w valid h found =
    let (low, high) = find_prefix_bounds words (ahead l) w h found in
    (omega arith, omega (arith, size-drop l.js_str_pos l.input, valid.ends, valid.inside))

word_of-Steps : (words : List String) → AreWords words → Steps (word_of words)
unfolding word_of
word_of-Steps words h l l' v more e = elim (Option-cases (find_prefix words (ahead l))) [
  | inl no_word ↦ cc (rw (word_of, no_word) at e)
  | inr (w, found) ↦
      let (later, inside) = word_bounds words l w v h found in
      subst (Stepped l) (some-injective _ l' (rw (word_of, found) at e))
        (record-Stepped (l.js_str_pos + size w) w (Keeps-refl l) later inside)
]

pub symbol-Steps : Steps try_lex_symbol
unfolding try_lex_symbol consumes size
symbol-Steps = first_of-Steps _ (
  lex_with-Steps _ _ _ refl,
  (
    space_symbol-Steps,
    (
      front_symbol-Steps,
      (
        word_of-Steps paren_symbols (omega arith),
        (word_of-Steps standard_symbols (omega arith), tt),
      ),
    ),
  ),
)

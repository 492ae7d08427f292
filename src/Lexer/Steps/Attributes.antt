-- ===== src/Lexer/Steps/Attributes.antt =====
-- The attempts on attributes and names are steps.
use Prim.Native.Char.{code}
use Prim.Native.String.{String}
use bosque_core.Prelude.{
  ℕ, suc, ◌+◌, ◌-◌, ◌≤◌, ◌<◌, ◌≡◌, refl, Option, none, some, List, [], ◌∷◌, arith, Bool-cases,
  Option-cases, inl, inr, some-injective, subst, ltb, nat_eq,
}
use bosque_core.Lexer.Text.{size, drop, slice, starts_with, index_of}
use bosque_core.Lexer.Text.Sizes.{size-drop, index_of_bounds}
use bosque_core.Lexer.Regex.{Next, one_char, exec, match_length, seq, text}
use bosque_core.Lexer.Words.{keyword_strings, all_attributes, core_only_attributes}
use bosque_core.Lexer.Regex.{consumes}
use bosque_core.Lexer.Patterns.{attribute_suffix_re, identifier_name_re}
use bosque_core.Lexer.State.{Lexer, ahead, trylex, find_prefix}
use bosque_core.Lexer.Names.{
  find_attribute, attribute_to, any_attribute, core_attribute, try_lex_attribute,
  process_identifier_options, name_of, try_lex_name,
}
use bosque_core.Lexer.Steps.{
  IsValid, Stepped, Steps, Keeps-refl, record_w_data-Stepped, record-Stepped, trylex_bounds,
}
use bosque_core.Lexer.Steps.Reading.{first_of-Steps}
use bosque_core.Lexer.Steps.Quotes.{error_to-Stepped}
use bosque_core.Lexer.Steps.Words.{AreWords, word_bounds}

exec-text-size :
    (w s : String) (k : Next) (t : String) → exec (text w) s k ≡ some t → size w ≤ size s
unfolding exec one_char size
exec-text-size String.[] s k t h = omega arith
exec-text-size (String.◌∷◌ c w) String.[] k t h = cc
exec-text-size (String.◌∷◌ c w) (String.◌∷◌ d s) k t h =
    elim (Bool-cases (nat_eq (code d) (code c))) [
      | inl hit ↦ omega (arith, exec-text-size w s k t (rw hit at h))
      | inr miss ↦ cc (rw miss at h)
    ]

attribute_size :
    (w s : String) (n : ℕ)
    → match_length (seq (text w) attribute_suffix_re) s ≡ some n
    → size w ≤ size s
unfolding match_length exec
attribute_size w s n h = elim (Option-cases (exec (seq (text w) attribute_suffix_re) s some)) [
  | inl no_match ↦ cc (rw (match_length, no_match) at h)
  | inr (t, ran) ↦ exec-text-size w s (λ s'. exec attribute_suffix_re s' some) t ran
]

find_attribute_bounds :
    (values : List String) (l : Lexer) (w : String)
    → IsValid l
    → AreWords values
    → find_attribute values l ≡ some w
    → (l.js_str_pos < l.js_str_pos + size w) × (l.js_str_pos + size w ≤ l.js_str_end)
unfolding find_attribute trylex
find_attribute_bounds [] l w valid h e = cc
find_attribute_bounds (v ∷ values) l w valid h e =
    elim (Option-cases (trylex (seq (text v) attribute_suffix_re) l)) [
      | inl miss ↦ find_attribute_bounds values l w valid h.1 (rw (find_attribute, miss) at e)
      | inr (n, hit) ↦
          let low = attribute_size v (ahead l) n hit in
          subst
            (λ w. (l.js_str_pos < l.js_str_pos + size w) × (l.js_str_pos + size w ≤ l.js_str_end))
            (some-injective v w (rw (find_attribute, hit) at e))
            (
              omega (arith, h.0),
              omega (arith, low, size-drop l.js_str_pos l.input, valid.ends, valid.inside),
            )
    ]

attribute_to-Stepped :
    (j : ℕ) (l : Lexer)
    → IsValid l
    → l.js_str_pos < j
    → j ≤ l.js_str_end
    → Stepped l (attribute_to j l)
unfolding attribute_to size
attribute_to-Stepped j l valid later inside = elim (Bool-cases (starts_with "[" (drop j l.input))) [
  | inr plain ↦ rw plain (
      record_w_data-Stepped j "[ATTRIBUTE]" (slice l.input l.js_str_pos j) (Keeps-refl l) later
        inside)
  | inl tagged ↦ elim (Option-cases (index_of "]" l.input j)) [
    | inl no_mark ↦
        rw (attribute_to, tagged, no_mark)
          (error_to-Stepped l.js_str_end (l.js_str_end - l.js_str_pos) "Unterminated attribute" l
            (omega arith) (omega arith))
    | inr (close, found) ↦
        let (after, within) =
          index_of_bounds "]" l.input j close (omega (arith, valid.ends)) found in
        rw (attribute_to, tagged, found)
          (record_w_data-Stepped (suc close) "[ATTRIBUTE]" (slice l.input l.js_str_pos (suc close))
            (Keeps-refl l) (omega arith) (omega (arith, valid.ends)))
  ]
]

any_attribute-Steps : Steps any_attribute
unfolding any_attribute size
any_attribute-Steps l l' v more e = elim (Option-cases (find_attribute all_attributes l)) [
  | inl no_word ↦ cc (rw (any_attribute, no_word) at e)
  | inr (w, found) ↦
      let (later, inside) = find_attribute_bounds all_attributes l w v (omega arith) found in
      subst (Stepped l) (some-injective _ l' (rw (any_attribute, found) at e))
        (attribute_to-Stepped (l.js_str_pos + size w) l v later inside)
]

core_attribute-Steps : Steps core_attribute
unfolding core_attribute size
core_attribute-Steps l l' v more e = elim (Bool-cases l.iscore) [
  | inr off ↦ cc (rw off at e)
  | inl core ↦ elim (Option-cases (find_prefix core_only_attributes (ahead l))) [
    | inl no_word ↦ cc (rw (core_attribute, core, no_word) at e)
    | inr (w, found) ↦
        let (later, inside) = word_bounds core_only_attributes l w v (omega arith) found in
        subst (Stepped l) (some-injective _ l' (rw (core_attribute, core, found) at e)) (
          record_w_data-Stepped (l.js_str_pos + size w) "[ATTRIBUTE]" w (Keeps-refl l) later inside)
  ]
]

pub attribute-Steps : Steps try_lex_attribute
unfolding try_lex_attribute
attribute-Steps = first_of-Steps _ (any_attribute-Steps, (core_attribute-Steps, tt))

name_of-Stepped :
    (id : Option ℕ) (kw : Option String) (l l' : Lexer)
    → ((n : ℕ)
        → id ≡ some n
        → (l.js_str_pos < l.js_str_pos + n) × (l.js_str_pos + n ≤ l.js_str_end))
    → ((w : String)
        → kw ≡ some w
        → (l.js_str_pos < l.js_str_pos + size w) × (l.js_str_pos + size w ≤ l.js_str_end))
    → name_of id kw l ≡ some l'
    → Stepped l l'
unfolding name_of process_identifier_options
name_of-Stepped none none l l' at_id at_kw e = cc
name_of-Stepped (some n) none l l' at_id at_kw e =
    subst (Stepped l) (some-injective _ l' e) (
      record_w_data-Stepped (l.js_str_pos + n) _ _ (Keeps-refl l) (at_id n refl).0 (at_id n refl).1)
name_of-Stepped none (some w) l l' at_id at_kw e =
    subst (Stepped l) (some-injective _ l' e)
      (record-Stepped (l.js_str_pos + size w) w (Keeps-refl l) (at_kw w refl).0 (at_kw w refl).1)
name_of-Stepped (some n) (some w) l l' at_id at_kw e = elim (Bool-cases (ltb (size w) n)) [
  | inl longer ↦ subst (Stepped l) (some-injective _ l' (rw longer at e)) (
      record_w_data-Stepped (l.js_str_pos + n) _ _ (Keeps-refl l) (at_id n refl).0 (at_id n refl).1)
  | inr keyword ↦
      subst (Stepped l) (some-injective _ l' (rw keyword at e))
        (record-Stepped (l.js_str_pos + size w) w (Keeps-refl l) (at_kw w refl).0 (at_kw w refl).1)
]

pub name-Steps : Steps try_lex_name
unfolding try_lex_name consumes size
name-Steps l l' v more e =
    name_of-Stepped (trylex identifier_name_re l) (find_prefix keyword_strings (ahead l)) l l'
      (λ n found. trylex_bounds identifier_name_re l n v refl found)
      (λ w found. word_bounds keyword_strings l w v (omega arith) found) e

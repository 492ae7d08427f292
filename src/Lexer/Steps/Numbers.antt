-- ===== src/Lexer/Steps/Numbers.antt =====
-- The attempts on numbers, dates and the like are steps, and the check of the signs moves nothing.
use bosque_core.Prelude.{
  ℕ, ◌+◌, ◌-◌, ◌<◌, not, ◌&&◌, ◌||◌, ◌≡◌, refl, arith, Bool-cases, Option-cases, inl, inr,
  if◌then◌else◌, nat_eq, leb,
}
use bosque_core.Lexer.Text.{starts_with}
use bosque_core.Lexer.Regex.{consumes}
use bosque_core.Lexer.Patterns.{redundant_sign_re}
use bosque_core.Lexer.State.{Lexer, ahead, trylex}
use bosque_core.Lexer.Literals.{
  check_redundant_signs, try_lex_number_like_token, try_lex_byte_buffer, try_lex_uuid,
  try_lex_hash_code, try_lex_date_time, try_lex_date_time_delta, try_lex_date_like,
}
use bosque_core.Lexer.Steps.{Keeps, Steps, Keeps-refl}
use bosque_core.Lexer.Steps.Reading.{first_of-Steps, lex_with-Steps, zero_denominator-Steps}

pub date_like-Steps : Steps try_lex_date_like
unfolding try_lex_date_like try_lex_date_time_delta try_lex_date_time consumes
date_like-Steps = first_of-Steps _ (
  first_of-Steps _ (
    lex_with-Steps _ _ _ refl,
    (lex_with-Steps _ _ _ refl, (lex_with-Steps _ _ _ refl, (lex_with-Steps _ _ _ refl, tt))),
  ),
  (
    first_of-Steps _ (
      lex_with-Steps _ _ _ refl,
      (
        lex_with-Steps _ _ _ refl,
        (lex_with-Steps _ _ _ refl, (lex_with-Steps _ _ _ refl, (lex_with-Steps _ _ _ refl, tt))),
      ),
    ),
    tt,
  ),
)

pub number_like-Steps : Steps try_lex_number_like_token
unfolding try_lex_number_like_token consumes
number_like-Steps = first_of-Steps _ (
  first_of-Steps _ (lex_with-Steps _ _ _ refl, (lex_with-Steps _ _ _ refl, tt)),
  (
    first_of-Steps _ (
      lex_with-Steps _ _ _ refl,
      (
        lex_with-Steps _ _ _ refl,
        (lex_with-Steps _ _ _ refl, (lex_with-Steps _ _ _ refl, (lex_with-Steps _ _ _ refl, tt))),
      ),
    ),
    (
      first_of-Steps _ (
        zero_denominator-Steps _ _ refl,
        (
          lex_with-Steps _ _ _ refl,
          (zero_denominator-Steps _ _ refl, (lex_with-Steps _ _ _ refl, tt)),
        ),
      ),
      (
        first_of-Steps _ (
          lex_with-Steps _ _ _ refl,
          (
            lex_with-Steps _ _ _ refl,
            (
              lex_with-Steps _ _ _ refl,
              (
                lex_with-Steps _ _ _ refl,
                (
                  lex_with-Steps _ _ _ refl,
                  (lex_with-Steps _ _ _ refl, (lex_with-Steps _ _ _ refl, tt)),
                ),
              ),
            ),
          ),
        ),
        tt,
      ),
    ),
  ),
)

pub byte_buffer-Steps : Steps try_lex_byte_buffer
unfolding try_lex_byte_buffer consumes
byte_buffer-Steps = lex_with-Steps _ _ _ refl

pub uuid-Steps : Steps try_lex_uuid
unfolding try_lex_uuid consumes
uuid-Steps = lex_with-Steps _ _ _ refl

pub hash_code-Steps : Steps try_lex_hash_code
unfolding try_lex_hash_code consumes
hash_code-Steps = lex_with-Steps _ _ _ refl

position-kept : (p e : ℕ) → p < e → (if leb e (p + 1 - 1) then e else p + 1 - 1) ≡ p
position-kept p e h = ground arith

pub check_redundant_signs-Keeps :
    (l : Lexer) → l.js_str_pos < l.js_str_end → Keeps l (check_redundant_signs l)
unfolding check_redundant_signs
check_redundant_signs-Keeps l more =
    elim (Bool-cases (
      not (nat_eq l.js_str_pos l.js_str_end)
      && (starts_with "+" (ahead l) || starts_with "-" (ahead l)))) [
        | inr other ↦ rw other (Keeps-refl l)
        | inl signed ↦ elim (Option-cases (trylex redundant_sign_re l)) [
          | inl single ↦ rw (signed, single) (Keeps-refl l)
          | inr (n, found) ↦
              rw (signed, found)
                (record {
                  input = refl;
                  js_str_end = refl;
                  macrodefs = refl;
                  scanmode = refl;
                  js_str_pos = position-kept l.js_str_pos l.js_str_end more;
                  tokens = refl;
                })
        ]
      ]

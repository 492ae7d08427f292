-- ===== src/Lexer/Regex.antt =====
-- JavaScript's regular expressions, as far as src/frontend/parser.ts uses them: sticky, matched from
-- a position by trying the alternatives in order, with the longest repetition first.
pub mod Bounds
pub mod Continues
use Prim.Native.Char.{code}
use Prim.Native.String.{String}
use bosque_core.Prelude.{
  ℕ, zero, suc, ◌-◌, Bool, true, false, not, ◌&&◌, ◌||◌, Option, none, some, List, [], ◌∷◌, any,
  leb, ltb, nat_eq, if◌then◌else◌,
}
use bosque_core.Lexer.Text.{size}

pub data Regex : Type 0 where
  nothing : Regex
  chars : (ℕ → Bool) → Regex
  seq : Regex → Regex → Regex
  alt : Regex → Regex → Regex
  star : Regex → Regex

-- What is left of a text after a match, handed to what must match next.
abbrev pub Next : Type 0
Next = String → Option String

unfoldable pub one_char : (ℕ → Bool) → String → Next → Option String
one_char p String.[] k = none
one_char p (String.◌∷◌ c s) k = if p (code c) then k s else none

-- Greedy: another round first, and an empty round is no match. The rounds are at most the characters.
unfoldable pub rounds : (String → Next → Option String) → ℕ → String → Next → Option String
rounds m zero s k = k s
rounds m (suc n) s k =
    elim (m s (λ s'. elim (ltb (size s') (size s)) [ true ↦ rounds m n s' k | false ↦ none ])) [
      | some t ↦ some t
      | none ↦ k s
    ]

unfoldable pub exec : Regex → String → Next → Option String
exec nothing s k = k s
exec (chars p) s k = one_char p s k
exec (seq a b) s k = exec a s (λ s'. exec b s' k)
exec (alt a b) s k = elim (exec a s k) [ some t ↦ some t | none ↦ exec b s k ]
exec (star a) s k = rounds (exec a) (size s) s k

-- The length of the match at the start of a text.
unfoldable pub match_length : Regex → String → Option ℕ
match_length r s = elim (exec r s some) [ none ↦ none | some t ↦ some (size s - size t) ]

-- Every match has a character.
unfoldable pub consumes : Regex → Bool
consumes nothing = false
consumes (chars p) = true
consumes (seq a b) = consumes a || consumes b
consumes (alt a b) = consumes a && consumes b
consumes (star a) = false

-- `[…]` from ranges, `[^…]`, a character, and the quantifiers
abbrev pub between : List (ℕ × ℕ) → ℕ → Bool
between ranges c = any (λ (r : ℕ × ℕ). leb r.0 c && leb c r.1) ranges

abbrev pub one : ℕ → Regex
one d = chars (λ c. nat_eq c d)

abbrev pub opt : Regex → Regex
opt r = alt r nothing

abbrev pub plus : Regex → Regex
plus r = seq r (star r)

-- `r{n}`
abbrev pub times : ℕ → Regex → Regex
times zero r = nothing
times (suc n) r = seq r (times n r)

-- `r{1,n}` as `r(r(…)?)?`
abbrev pub up_to : ℕ → Regex → Regex
up_to zero r = nothing
up_to (suc zero) r = r
up_to (suc (suc n)) r = seq r (opt (up_to (suc n) r))

-- a text, character by character
abbrev pub text : String → Regex
text String.[] = nothing
text (String.◌∷◌ c s) = seq (one (code c)) (text s)

-- ===== src/Lexer/Text.antt =====
-- The string methods that the lexer of src/frontend/parser.ts calls. A character stands for one
-- UTF-16 code unit, so that the size is JavaScript's `length`.
pub mod Sizes
use Prim.Native.Char.{Char, code}
use Prim.Native.String.{String}
use bosque_core.Prelude.{
  ℕ, zero, suc, ◌+◌, ◌-◌, Bool, true, false, ◌&&◌, ◌||◌, Option, none, some, List, [], ◌∷◌, nat_eq,
  leb, if◌then◌else◌,
}

unfoldable pub size : String → ℕ
size String.[] = 0
size (String.◌∷◌ c s) = suc (size s)

unfoldable pub drop : ℕ → String → String
drop zero s = s
drop (suc n) String.[] = String.[]
drop (suc n) (String.◌∷◌ c s) = drop n s

unfoldable pub take : ℕ → String → String
take zero s = String.[]
take (suc n) String.[] = String.[]
take (suc n) (String.◌∷◌ c s) = String.◌∷◌ c (take n s)

-- `s.slice(start, end)`, where `start` is at most `end`
unfoldable pub slice : String → ℕ → ℕ → String
slice s start end = take (end - start) (drop start s)

-- `s.startsWith(v)`
unfoldable pub starts_with : String → String → Bool
starts_with String.[] s = true
starts_with (String.◌∷◌ c v) String.[] = false
starts_with (String.◌∷◌ c v) (String.◌∷◌ d s) = nat_eq (code c) (code d) && starts_with v s

-- `s.indexOf(v)`, `none` for -1
unfoldable pub find : String → String → Option ℕ
find v String.[] = if starts_with v String.[] then some 0 else none
find v (String.◌∷◌ c s) =
    let rest = find v s in
    if starts_with v (String.◌∷◌ c s)
    then some 0
    else elim rest [ none ↦ none | some i ↦ some (suc i) ]

-- `s.indexOf(v, from)`, where `from` is at most the size
unfoldable pub index_of : String → String → ℕ → Option ℕ
index_of v s from = elim (find v (drop from s)) [ none ↦ none | some i ↦ some (from + i) ]

-- `\s`, which is also what `trim` removes
unfoldable pub is_space : ℕ → Bool
is_space c =
    (leb 0x09 c && leb c 0x0d)
    || nat_eq c 0x20
    || nat_eq c 0xa0
    || nat_eq c 0x1680
    || (leb 0x2000 c && leb c 0x200a)
    || nat_eq c 0x2028
    || nat_eq c 0x2029
    || nat_eq c 0x202f
    || nat_eq c 0x205f
    || nat_eq c 0x3000
    || nat_eq c 0xfeff

unfoldable pub trim_start : String → String
trim_start String.[] = String.[]
trim_start (String.◌∷◌ c s) =
    let rest = trim_start s in if is_space (code c) then rest else String.◌∷◌ c s

-- `c` before the end of a text whose end is trimmed
unfoldable pub cons_trimmed : Char → String → String
cons_trimmed c String.[] = if is_space (code c) then String.[] else String.◌∷◌ c String.[]
cons_trimmed c (String.◌∷◌ d s) = String.◌∷◌ c (String.◌∷◌ d s)

unfoldable pub trim_end : String → String
trim_end String.[] = String.[]
trim_end (String.◌∷◌ c s) = cons_trimmed c (trim_end s)

unfoldable pub trim : String → String
trim s = trim_end (trim_start s)

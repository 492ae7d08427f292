-- ===== src/Lexer/Regex/Bounds.antt =====
-- A match ends inside the text, and past its start where the expression consumes.
use Prim.Native.Char.{code}
use Prim.Native.String.{String}
use bosque_core.Prelude.{
  ℕ, zero, suc, ◌-◌, ◌≤◌, ◌<◌, Bool, true, false, ◌≡◌, Option, none, some, arith, ltb, Bool-cases,
  Option-cases, and_true, some-injective, inl, inr,
}
use bosque_core.Lexer.Text.{size}
use bosque_core.Lexer.Regex.{
  Regex, nothing, chars, seq, alt, star, Next, one_char, rounds, exec, match_length, consumes,
}

-- The rest that is handed on is no longer than the text, and shorter where `b` holds.
abbrev Hands : Bool → String → Next → String → Type 0
Hands b s k t = (s' : String) × (size s' ≤ size s) × (b ≡ true → size s' < size s) × (k s' ≡ some t)

abbrev HandsOn : (String → Next → Option String) → Bool → Type 0
HandsOn m b = (s : String) (k : Next) (t : String) → m s k ≡ some t → Hands b s k t

rounds-HandsOn :
    (m : String → Next → Option String) (b : Bool)
    → HandsOn m b
    → (n : ℕ) → HandsOn (rounds m n) false
unfolding rounds
rounds-HandsOn m b hm zero s k t h = (s, omega arith, λ e. cc, h)
rounds-HandsOn m b hm (suc n) s k t h =
    let again : Next =
      λ s'. elim (ltb (size s') (size s)) [ true ↦ rounds m n s' k | false ↦ none ] in
    elim (Option-cases (m s again)) [
      | inl stop ↦ (s, omega arith, λ e. cc, rw (rounds, stop) at h)
      | inr (u, ran) ↦
          let (s1, low1, _, next) = hm s again u ran in
          elim (Bool-cases (ltb (size s1) (size s))) [
            | inl shorter ↦
                let same : u ≡ t = some-injective u t (rw (rounds, ran) at h) in
                let (s2, low2, _, last) = rounds-HandsOn m b hm n s1 k u (rw shorter at next) in
                (s2, omega arith, λ e. cc, rw (← same) last)
            | inr not_shorter ↦ cc (rw not_shorter at next)
          ]
    ]

exec-HandsOn : (r : Regex) → HandsOn (exec r) (consumes r)
unfolding exec consumes one_char size
exec-HandsOn nothing s k t h = (s, omega arith, λ e. cc, h)
exec-HandsOn (chars p) String.[] k t h = cc
exec-HandsOn (chars p) (String.◌∷◌ c s) k t h = elim (Bool-cases (p (code c))) [
  | inl hit ↦ (s, omega arith, λ e. omega arith, rw hit at h)
  | inr miss ↦ cc (rw miss at h)
]
exec-HandsOn (seq a b) s k t h =
    let (s1, low1, less1, next) = exec-HandsOn a s (λ s'. exec b s' k) t h in
    let (s2, low2, less2, last) = exec-HandsOn b s1 k t next in
    (
      s2,
      omega arith,
      λ e. elim (Bool-cases (consumes a)) [
        | inl e1 ↦ omega (arith, less1 e1)
        | inr e1 ↦ omega (arith, less2 (rw e1 at e))
      ],
      last,
    )
exec-HandsOn (alt a b) s k t h = elim (Option-cases (exec a s k)) [
  | inl absent ↦
      let (s1, low, less, next) = exec-HandsOn b s k t (rw (exec, absent) at h) in
      (s1, low, λ e. less (and_true (consumes a) (consumes b) e).1, next)
  | inr (u, ran) ↦
      let (s1, low, less, next) = exec-HandsOn a s k u ran in
      let same : u ≡ t = some-injective u t (rw (exec, ran) at h) in
      (s1, low, λ e. less (and_true (consumes a) (consumes b) e).0, rw (← same) next)
]
exec-HandsOn (star a) s k t h =
    rounds-HandsOn (exec a) (consumes a) (exec-HandsOn a) (size s) s k t h

-- A match of a consuming expression has a character, and it lies inside the text.
pub match_length_bounds :
    (r : Regex) (s : String) (n : ℕ)
    → consumes r ≡ true
    → match_length r s ≡ some n
    → (0 < n) × (n ≤ size s)
unfolding match_length
match_length_bounds r s n e h = elim (Option-cases (exec r s some)) [
  | inl absent ↦ cc (rw (match_length, absent) at h)
  | inr (t, ran) ↦
      let (s1, low, less, same) = exec-HandsOn r s some t ran in
      let at_n = some-injective (size s - size t) n (rw (match_length, ran) at h) in
      let shorter : size t < size s = rw (← some-injective s1 t same) (less e) in
      (omega arith, omega arith)
]

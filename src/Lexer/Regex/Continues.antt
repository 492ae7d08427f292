-- ===== src/Lexer/Regex/Continues.antt =====
-- A match that succeeds still succeeds where what must follow is asked for less.
use Prim.Native.Char.{code}
use Prim.Native.String.{String}
use bosque_core.Prelude.{
  ℕ, zero, suc, ◌-◌, true, false, ◌≡◌, refl, Option, none, some, ltb, Bool-cases, Option-cases, inl,
  inr,
}
use bosque_core.Lexer.Text.{size}
use bosque_core.Lexer.Regex.{
  Regex, nothing, chars, seq, alt, star, Next, one_char, rounds, exec, match_length,
}

abbrev pub Succeeds : Option String → Type 0
Succeeds o = (t : String) × (o ≡ some t)

abbrev pub Weaker : Next → Next → Type 0
Weaker k k' = (s : String) → Succeeds (k s) → Succeeds (k' s)

abbrev Continues : (String → Next → Option String) → Type 0
Continues m = (s : String) (k k' : Next) → Weaker k k' → Succeeds (m s k) → Succeeds (m s k')

rounds-Continues :
    (m : String → Next → Option String) → Continues m → (n : ℕ) → Continues (rounds m n)
unfolding rounds
rounds-Continues m hm zero s k k' w h = w s h
rounds-Continues m hm (suc n) s k k' w h =
    let again : Next → Next =
      λ k s'. elim (ltb (size s') (size s)) [ true ↦ rounds m n s' k | false ↦ none ] in
    let weaker : Weaker (again k) (again k') = λ s' ok. elim (Bool-cases (ltb (size s') (size s))) [
      | inl e ↦ rw e (rounds-Continues m hm n s' k k' w (rw e at ok))
      | inr e ↦ cc (rw e at ok.1)
    ] in
    elim (Option-cases (m s (again k'))) [
      | inr (u, ran) ↦ (u, rw (rounds, ran) refl)
      | inl absent ↦ elim (Option-cases (m s (again k))) [
        | inr (v, old) ↦ cc (absent, (hm s (again k) (again k') weaker (v, old)).1)
        | inl stop ↦ rw (rounds, absent) (w s (rw (rounds, stop) at h))
      ]
    ]

-- Where a match succeeds before `k`, it succeeds before every `k'` that succeeds wherever `k` does.
pub exec-Continues : (r : Regex) → Continues (exec r)
unfolding exec one_char
exec-Continues nothing s k k' w h = w s h
exec-Continues (chars p) String.[] k k' w h = cc h.1
exec-Continues (chars p) (String.◌∷◌ c s) k k' w h = elim (Bool-cases (p (code c))) [
  | inl hit ↦ rw hit (w s (rw hit at h))
  | inr miss ↦ cc (rw miss at h.1)
]
exec-Continues (seq a b) s k k' w h =
    exec-Continues a s (λ s'. exec b s' k) (λ s'. exec b s' k') (λ s'. exec-Continues b s' k k' w) h
exec-Continues (alt a b) s k k' w h = elim (Option-cases (exec a s k')) [
  | inr (u, ran) ↦ (u, rw (exec, ran) refl)
  | inl absent ↦ elim (Option-cases (exec a s k)) [
    | inr (v, old) ↦ cc (absent, (exec-Continues a s k k' w (v, old)).1)
    | inl stop ↦ rw (exec, absent) (exec-Continues b s k k' w (rw (exec, stop) at h))
  ]
]
exec-Continues (star a) s k k' w h =
    rounds-Continues (exec a) (exec-Continues a) (size s) s k k' w h

-- An expression matches wherever one with the same start and a longer rest does, if its own rest asks
-- for less.
pub match_length-seq :
    (a b b' : Regex) (s : String) (n : ℕ)
    → ((s' : String) → Succeeds (exec b s' some) → Succeeds (exec b' s' some))
    → match_length (seq a b) s ≡ some n
    → (m : ℕ) × (match_length (seq a b') s ≡ some m)
unfolding match_length exec
match_length-seq a b b' s n w h = elim (Option-cases (exec (seq a b) s some)) [
  | inl absent ↦ cc (rw (match_length, absent) at h)
  | inr old ↦
      let new = exec-Continues a s (λ s'. exec b s' some) (λ s'. exec b' s' some) w old in
      (size s - size new.0, rw (match_length, new.1) refl)
]

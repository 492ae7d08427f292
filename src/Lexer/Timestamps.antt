-- ===== src/Lexer/Timestamps.antt =====
-- `tryLexDateTime` and `tryLexDateTimeDelta` of src/frontend/parser.ts try an expression that matches
-- a prefix of every timestamp before the one for timestamps.
use Prim.Native.String.{String, ◌++◌}
use bosque_core.Prelude.{ℕ, ◌+◌, ◌≡◌, refl, some, List, [], ◌∷◌, Option-cases, inl, inr}
use bosque_core.Lexer.Regex.{Regex, exec, seq, times, up_to, one, opt}
use bosque_core.Lexer.Regex.Continues.{Succeeds, exec-Continues, match_length-seq}
use bosque_core.Lexer.Patterns.{
  ◌⨟◌, digit, sign, date_value, time_value, time_value_opt, taitime_re, timestamp_re, milliseconds,
  datetime_re, plaindate_re, plaintime_re, delta_date_value, delta_time_value, delta_time_value_opt,
  datetime_delta_re, timestamp_delta_re, plaindate_delta_re, plaintime_delta_re,
}
use bosque_core.Lexer.State.{Lexer, ahead, trylex, record_lex_token_w_data}
use bosque_core.Lexer.Literals.{
  Attempt, first_of, lex_as, lex_with, matched, try_lex_date_time, try_lex_date_time_delta,
}

-- An optional end matches after anything.
opt-Succeeds : (r : Regex) (s : String) → Succeeds (exec (opt r) s some)
unfolding exec
opt-Succeeds r s = elim (Option-cases (exec r s some)) [
  | inl no_match ↦ (s, rw (exec, no_match) refl)
  | inr (t, found) ↦ (t, rw (exec, found) refl)
]

-- Two expressions that share their start.
after :
    (a b b' : Regex)
    → ((s : String) → Succeeds (exec b s some) → Succeeds (exec b' s some))
    → (s : String) → Succeeds (exec (seq a b) s some)
    → Succeeds (exec (seq a b') s some)
unfolding exec
after a b b' w s h = exec-Continues a s (λ s'. exec b s' some) (λ s'. exec b' s' some) w h

-- The parts of a time before its last one, then an optional last one.
time-Succeeds :
    (d r rest : Regex) (s : String)
    → Succeeds (exec (one 0x54 ⨟ (d ⨟ one 0x3a ⨟ d ⨟ one 0x3a ⨟ r) ⨟ rest) s some)
    → Succeeds (exec (one 0x54 ⨟ d ⨟ one 0x3a ⨟ d ⨟ one 0x3a ⨟ opt r) s some)
unfolding exec
time-Succeeds d r rest s h =
    after (one 0x54) (d ⨟ one 0x3a ⨟ d ⨟ one 0x3a ⨟ r ⨟ rest) (d ⨟ one 0x3a ⨟ d ⨟ one 0x3a ⨟ opt r)
      (after d (one 0x3a ⨟ d ⨟ one 0x3a ⨟ r ⨟ rest) (one 0x3a ⨟ d ⨟ one 0x3a ⨟ opt r) (
        after (one 0x3a) (d ⨟ one 0x3a ⨟ r ⨟ rest) (d ⨟ one 0x3a ⨟ opt r) (
          after d (one 0x3a ⨟ r ⨟ rest) (one 0x3a ⨟ opt r)
            (after (one 0x3a) (r ⨟ rest) (opt r) (λ s' _. opt-Succeeds r s')))))
      s h

timestamp-taitime :
    (l : Lexer) (n : ℕ) → trylex timestamp_re l ≡ some n → (m : ℕ) × (trylex taitime_re l ≡ some m)
unfolding trylex
timestamp-taitime l n h =
    match_length-seq date_value (one 0x54 ⨟ time_value ⨟ milliseconds) (one 0x54 ⨟ time_value_opt)
      (ahead l) n (time-Succeeds (times 2 digit) (times 2 digit) milliseconds) h

delta-datetime :
    (l : Lexer) (n : ℕ)
    → trylex timestamp_delta_re l ≡ some n
    → (m : ℕ) × (trylex datetime_delta_re l ≡ some m)
unfolding trylex
delta-datetime l n h =
    match_length-seq sign (delta_date_value ⨟ one 0x54 ⨟ delta_time_value ⨟ milliseconds)
      (delta_date_value ⨟ one 0x54 ⨟ delta_time_value_opt) (ahead l) n
      (after delta_date_value (one 0x54 ⨟ delta_time_value ⨟ milliseconds)
        (one 0x54 ⨟ delta_time_value_opt)
        (time-Succeeds (up_to 2 digit) (up_to 2 digit) milliseconds))
      h

-- An attempt that succeeds only where the one before it does is never reached.
unreached :
    (a b : Attempt) (attempts : List Attempt) (l : Lexer)
    → ((l' : Lexer) → b l ≡ some l' → (m : Lexer) × (a l ≡ some m))
    → first_of (a ∷ b ∷ attempts) l ≡ first_of (a ∷ attempts) l
unfolding first_of
unreached a b attempts l h = elim (Option-cases (a l)) [
  | inr (m, found) ↦ rw (first_of, found) refl
  | inl no_a ↦ elim (Option-cases (b l)) [
    | inr (l', found) ↦ cc (h l' found).1
    | inl no_b ↦ rw (first_of, no_a, no_b) refl
  ]
]

lex_as-match :
    (re : Regex) (kind : String) (l l' : Lexer)
    → lex_as re kind l ≡ some l'
    → (n : ℕ) × (trylex re l ≡ some n)
unfolding lex_with
lex_as-match re kind l l' e = elim (Option-cases (trylex re l)) [
  | inl no_match ↦ cc (rw (lex_with, no_match) at e)
  | inr found ↦ found
]

match-lex_as :
    (re : Regex) (kind : String) (l : Lexer)
    → (n : ℕ) × (trylex re l ≡ some n)
    → (l' : Lexer) × (lex_as re kind l ≡ some l')
unfolding lex_with
match-lex_as re kind l (n, found) =
    (record_lex_token_w_data (l.js_str_pos + n) kind (matched n l) l, rw (lex_with, found) refl)

first_of-under :
    (a : Attempt) (xs ys : List Attempt) (l : Lexer)
    → first_of xs l ≡ first_of ys l
    → first_of (a ∷ xs) l ≡ first_of (a ∷ ys) l
unfolding first_of
first_of-under a xs ys l e = elim (Option-cases (a l)) [
  | inr (m, found) ↦ rw (first_of, found) refl
  | inl no_a ↦ rw (first_of, no_a) e
]

-- At every position, `tryLexDateTime` without its attempt on timestamps and `tryLexDateTimeDelta`
-- without its attempt on timestamp deltas give what they give with it.
pub timestamps_unreached :
    (l : Lexer)
    → (try_lex_date_time l
        ≡ first_of
            (lex_as datetime_re "[LITERAL_TZTIME]"
              ∷ lex_as taitime_re "[LITERAL_TAI_TIME]"
              ∷ lex_as plaindate_re "[LITERAL_PLAIN_DATE]"
              ∷ lex_as plaintime_re "[LITERAL_PLAIN_TIME]"
              ∷ [])
            l)
      × (try_lex_date_time_delta l
          ≡ first_of
              (lex_as datetime_delta_re "[LITERAL_DELTA_DATETIME]"
                ∷ lex_with (λ m. m ++ "T00:00:00") plaindate_delta_re "[LITERAL_DELTA_DATETIME]"
                ∷ lex_with (λ m. "0000-00-00T" ++ m) plaintime_delta_re "[LITERAL_DELTA_DATETIME]"
                ∷ [])
              l)
unfolding try_lex_date_time try_lex_date_time_delta
timestamps_unreached l = (
  first_of-under _ _ _ l (
      unreached _ _ _ l (λ l' e.
        let (n, h) = lex_as-match timestamp_re _ l l' e in
        match-lex_as taitime_re _ l (timestamp-taitime l n h))),
  unreached _ _ _ l (λ l' e.
      let (n, h) = lex_as-match timestamp_delta_re _ l l' e in
      match-lex_as datetime_delta_re _ l (delta-datetime l n h)),
)

-- ===== src/ParserState/Stack.antt =====
-- The stack of parser states.
use bosque_core.Prelude.{
  ℕ, suc, ◌≤◌, ◌<◌, String, true, ◌≡◌, refl, ◌∙◌, subst, some-injective, Option-cases, Option, none,
  some, List, [], ◌∷◌, ◌++◌, length, leb, ltb, arith, Bool-cases, inl, inr,
}
use bosque_core.ParserState.Syntax.{
  Token, ParserError, ParserState, clone_for_nested, create_file_toplevel_state,
  move_state_into_parent, skip_to_position,
}
use bosque_core.ParserState.{
  Parser, with_current, prep_state_stack_for_nested, pop_state_into_parent_ok, pop_state_reset,
  consume_token, push_error,
}

-- A state is inside the tokens, and inside the state below it on the stack.
abbrev pub StateOk : List Token → ParserState → Type 0
StateOk tokens s = (s.cpos ≤ s.epos) × (s.epos ≤ length tokens) × (s.tokens ≡ tokens)

abbrev pub StackOk : List Token → ParserState → List ParserState → Type 0
StackOk tokens s [] = StateOk tokens s
StackOk tokens s (parent ∷ rest) =
    StateOk tokens s × (s.epos ≤ parent.epos) × (parent.cpos ≤ s.cpos) × StackOk tokens parent rest

abbrev pub IsWellNested : Parser → Type 0
IsWellNested p = StackOk p.tokens p.current p.below

top-StateOk :
    (tokens : List Token) (s : ParserState) (below : List ParserState)
    → StackOk tokens s below
    → StateOk tokens s
top-StateOk tokens s [] ok = ok
top-StateOk tokens s (parent ∷ rest) ok = ok.0

-- A state of the same end that has not moved back may take the place of the top.
StackOk-forward :
    (tokens : List Token) (s s' : ParserState) (below : List ParserState)
    → StackOk tokens s below
    → s'.epos ≡ s.epos
    → s'.tokens ≡ s.tokens
    → s.cpos ≤ s'.cpos
    → s'.cpos ≤ s'.epos
    → StackOk tokens s' below
StackOk-forward tokens s s' [] (h, b, e) epos shared on inside = (inside, omega arith, shared ∙ e)
StackOk-forward tokens s s' (parent ∷ rest) ((h, b, e), outer, before, below) epos shared on
      inside =
    ((inside, omega arith, shared ∙ e), omega arith, omega arith, below)

pub toplevel-IsWellNested :
    (file : String) (tokens : List Token)
    → IsWellNested (record {
      current_file = file;
      tokens = tokens;
      current = create_file_toplevel_state tokens;
      below = [];
    })
unfolding create_file_toplevel_state
toplevel-IsWellNested file tokens = (omega arith, omega arith, refl)

less-ltb : (a b : ℕ) → ltb a b ≡ true → a < b
less-ltb a b h = ground (arith, h)

le-leb : (a b : ℕ) → leb a b ≡ true → a ≤ b
le-leb a b h = ground (arith, h)

consume_token-IsWellNested : (p : Parser) → IsWellNested p → IsWellNested (consume_token p)
unfolding consume_token
consume_token-IsWellNested p ok = elim (Bool-cases (ltb p.current.cpos p.current.epos)) [
  | inl inside ↦
      rw (inside, consume_token)
        (StackOk-forward p.tokens p.current (record p.current { cpos = suc p.current.cpos }) p.below
          ok refl refl (omega arith) (less-ltb p.current.cpos p.current.epos inside))
  | inr at_end ↦ rw (at_end, consume_token) ok
]

-- A nested state whose end, where one is given, is not past the end of the current state.
abbrev pub Within : Parser → Option ℕ → Type 0
Within p none = Unit
Within p (some e) = e ≤ p.current.epos

-- A position that is not behind the current one.
abbrev pub Ahead : Parser → Option ℕ → Type 0
Ahead p none = Unit
Ahead p (some c) = p.current.cpos ≤ c

clone-StackOk :
    (p : Parser) (mode : String) (e : ℕ) {s : ParserState}
    → IsWellNested p
    → e ≤ p.current.epos
    → clone_for_nested p.current mode e ≡ some s
    → StackOk p.tokens s (p.current ∷ p.below)
unfolding clone_for_nested
clone-StackOk p mode e ok within eq = elim (Bool-cases (leb p.current.cpos e)) [
  | inl ordered ↦
      let (h, b, shared) = top-StateOk p.tokens p.current p.below ok in
      subst (λ s. StackOk p.tokens s (p.current ∷ p.below))
        (some-injective _ _ (rw (ordered, clone_for_nested) at eq))
        ((le-leb p.current.cpos e ordered, omega arith, shared), within, omega arith, ok)
  | inr past ↦ cc (rw (past, clone_for_nested) at eq)
]

prep-end :
    (p : Parser) (epos : Option ℕ)
    → Within p epos
    → elim epos [ none ↦ p.current.epos | some e ↦ e ] ≤ p.current.epos
prep-end p none h = omega arith
prep-end p (some e) h = h

prep-IsWellNested :
    (p q : Parser) (mode : String) (epos : Option ℕ)
    → IsWellNested p
    → Within p epos
    → prep_state_stack_for_nested p mode epos ≡ some q
    → IsWellNested q
unfolding prep_state_stack_for_nested
prep-IsWellNested p q mode epos ok within eq =
    let e : ℕ = elim epos [ none ↦ p.current.epos | some e ↦ e ] in
    elim (Option-cases (clone_for_nested p.current mode e)) [
      | inl failed ↦ cc (rw (failed, prep_state_stack_for_nested) at eq)
      | inr (s, cloned) ↦
          subst IsWellNested (some-injective _ _ (rw (cloned, prep_state_stack_for_nested) at eq))
            (clone-StackOk p mode e ok (prep-end p epos within) cloned)
    ]

joined-IsWellNested :
    (p : Parser) (below : List ParserState) (q : Parser)
    → p.below ≡ below
    → IsWellNested p
    → pop_state_into_parent_ok p ≡ some q
    → IsWellNested q
unfolding pop_state_into_parent_ok
joined-IsWellNested p [] q e ok eq = cc (rw (e, pop_state_into_parent_ok) at eq)
joined-IsWellNested p (parent ∷ rest) q e ok eq =
    let ok' = rw e at ok in
    let (h, b, shared) = ok'.0 in
    subst IsWellNested (some-injective _ _ (rw (e, pop_state_into_parent_ok) at eq)) (
      StackOk-forward p.tokens parent (move_state_into_parent parent p.current) rest ok'.3 refl refl
        ok'.2 (omega (arith, ok'.1, h)))

reset-IsWellNested :
    (p : Parser) (below : List ParserState) (q : Parser)
    → p.below ≡ below
    → IsWellNested p
    → pop_state_reset p ≡ some q
    → IsWellNested q
unfolding pop_state_reset
reset-IsWellNested p [] q e ok eq = cc (rw (e, pop_state_reset) at eq)
reset-IsWellNested p (parent ∷ rest) q e ok eq =
    let ok' = rw e at ok in
    subst IsWellNested (some-injective _ _ (rw (e, pop_state_reset) at eq)) ok'.3

skipped-IsWellNested :
    (p : Parser) (to : Option ℕ) (s : ParserState)
    → IsWellNested p
    → Ahead p to
    → skip_to_position p.current to ≡ some s
    → IsWellNested (with_current p s)
unfolding skip_to_position
skipped-IsWellNested p none s ok ahead eq =
    let (h, b, shared) = top-StateOk p.tokens p.current p.below ok in
    subst (λ s. IsWellNested (with_current p s)) (some-injective _ _ eq)
      (StackOk-forward p.tokens p.current (record p.current { cpos = p.current.epos }) p.below ok
        refl refl h (omega arith))
skipped-IsWellNested p (some e) s ok ahead eq = elim (Bool-cases (leb e p.current.epos)) [
  | inl inside ↦
      subst (λ s. IsWellNested (with_current p s))
        (some-injective _ _ (rw (inside, skip_to_position) at eq))
        (StackOk-forward p.tokens p.current (record p.current { cpos = e }) p.below ok refl refl
          ahead (le-leb e p.current.epos inside))
  | inr past ↦ cc (rw (past, skip_to_position) at eq)
]

reported :
    (p : Parser) (e : ParserError) (below : List ParserState)
    → p.below ≡ below
    → IsWellNested p
    → IsWellNested (push_error p e)
reported p e below same ok =
    let (h, b, shared) = top-StateOk p.tokens p.current p.below ok in
    StackOk-forward p.tokens p.current (record p.current { errors = p.current.errors ++ e ∷ [] })
      p.below ok refl refl (omega arith) h

-- What the parser does to its stack: a step raises no exception. That a nested state does not end past
-- the current one and that a skip goes forward is assumed of the callers, since the code does not
-- check it.
pub data ParserStep : Parser → Parser → Type 0 where
  consumes : (p : Parser) → ParserStep p (consume_token p)
  reports : (p : Parser) (e : ParserError) → ParserStep p (push_error p e)
  skips :
      (p : Parser) (to : Option ℕ) (s : ParserState)
      → Ahead p to
      → skip_to_position p.current to ≡ some s
      → ParserStep p (with_current p s)
  nests :
      (p q : Parser) (mode : String) (epos : Option ℕ)
      → Within p epos
      → prep_state_stack_for_nested p mode epos ≡ some q
      → ParserStep p q
  joins : (p q : Parser) → pop_state_into_parent_ok p ≡ some q → ParserStep p q
  resets : (p q : Parser) → pop_state_reset p ≡ some q → ParserStep p q

pub data Reachable : Parser → Type 0 where
  starts :
      (file : String) (tokens : List Token)
      → Reachable (record {
        current_file = file;
        tokens = tokens;
        current = create_file_toplevel_state tokens;
        below = [];
      })
  goes_on : (p q : Parser) → Reachable p → ParserStep p q → Reachable q

step-IsWellNested : (p q : Parser) → ParserStep p q → IsWellNested p → IsWellNested q
step-IsWellNested _ _ (consumes p) ok = consume_token-IsWellNested p ok
step-IsWellNested _ _ (reports p e) ok = reported p e p.below refl ok
step-IsWellNested _ _ (skips p to s ahead eq) ok = skipped-IsWellNested p to s ok ahead eq
step-IsWellNested _ _ (nests p q mode epos within eq) ok =
    prep-IsWellNested p q mode epos ok within eq
step-IsWellNested _ _ (joins p q eq) ok = joined-IsWellNested p p.below q refl ok eq
step-IsWellNested _ _ (resets p q eq) ok = reset-IsWellNested p p.below q refl ok eq

-- The steps raise no exception, nest no state whose end is past that of the current one, and skip no
-- token backwards: the last two the code does not check. In every parser that such steps reach from
-- the start of a file, each state of the stack is inside the tokens of the file, ends no later than
-- the state below it, and is not behind the position of that state. So no step leads past the end of
-- the tokens, and joining a nested state with its parent never moves the parent back.
pub Reachable-IsWellNested : (p : Parser) → Reachable p → IsWellNested p
Reachable-IsWellNested _ (starts file tokens) = toplevel-IsWellNested file tokens
Reachable-IsWellNested _ (goes_on p q before step) =
    step-IsWellNested p q step (Reachable-IsWellNested p before)

-- ===== src/Relations/Subtype/Remembers.antt =====
-- The memo table of `isSubtypeOf` answers for every constraint scope.
use bosque_core.Prelude.{
  ℕ, zero, suc, String, Bool, ◌||◌, ◌≡◌, refl, ap, Option, none, some, some-injective, ◌∷◌,
  Bool-cases, Option-cases, inl, inr, str_eq_refl, subst,
}
use bosque_core.Types.Syntax.{TypeSignature}
use bosque_core.Types.Constraints.{TemplateConstraintScope}
use bosque_core.Assembly.{Declarations}
use bosque_core.Relations.Outcome.{
  lookup, RelState, Outcome, done, asserted, out_of_fuel, Rel, bind,
}
use bosque_core.Relations.Same.{is_error_or_auto}
use bosque_core.Relations.Subtype.{
  subtype_key, memoize_subtype, through_subtype_memo, is_subtype_of,
}

abbrev answer : Outcome Bool → Option (Bool × RelState)
answer (done b s) = some (b, s)
answer asserted = none
answer out_of_fuel = none

-- The table after an answer has been put into it.
memoize_subtype-lookup :
    (kstr : String) (o : Outcome Bool) (s' : RelState) (b : Bool)
    → bind o (memoize_subtype kstr) ≡ done b s'
    → lookup kstr s'.subtype ≡ some b
unfolding memoize_subtype lookup
memoize_subtype-lookup kstr (done c s) s' b e =
    let hit : lookup kstr ((kstr, c) ∷ s.subtype) ≡ some c = rw (str_eq_refl kstr, lookup) refl in
    subst (λ (x : Bool × RelState). lookup kstr x.1.subtype ≡ some x.0)
      (some-injective _ _ (ap answer e)) hit
memoize_subtype-lookup kstr asserted s' b e = cc
memoize_subtype-lookup kstr out_of_fuel s' b e = cc

through_subtype_memo-lookup :
    (kstr : String) (compute : Rel Bool) (s s' : RelState) (b : Bool)
    → through_subtype_memo kstr compute s ≡ done b s'
    → lookup kstr s'.subtype ≡ some b
unfolding through_subtype_memo
through_subtype_memo-lookup kstr compute s s' b e = elim (Option-cases (lookup kstr s.subtype)) [
  | inl absent ↦
      memoize_subtype-lookup kstr (compute s) s' b (rw (absent, through_subtype_memo) at e)
  | inr (m, found) ↦
      subst (λ (x : Bool × RelState). lookup kstr x.1.subtype ≡ some x.0)
        (some-injective _ _ (ap answer (rw (found, through_subtype_memo) at e))) found
]

through_subtype_memo-hit :
    (kstr : String) (compute : Rel Bool) (s : RelState) (b : Bool)
    → lookup kstr s.subtype ≡ some b
    → through_subtype_memo kstr compute s ≡ done b s
unfolding through_subtype_memo
through_subtype_memo-hit kstr compute s b found = rw (found, through_subtype_memo) refl

-- Once `isSubtypeOf` has answered, it gives the same answer for the same two types under every
-- constraint scope, and looks at nothing else.
pub is_subtype_of-remembers :
    (fuel fuel' : ℕ) (ds : Declarations) (tconstrain tconstrain' : TemplateConstraintScope)
    (t1 t2 : TypeSignature) (s s' : RelState) (b : Bool)
    → is_subtype_of fuel ds tconstrain t1 t2 s ≡ done b s'
    → is_subtype_of (suc fuel') ds tconstrain' t1 t2 s' ≡ done b s'
unfolding is_subtype_of
is_subtype_of-remembers zero fuel' ds tconstrain tconstrain' t1 t2 s s' b e = cc
is_subtype_of-remembers (suc fuel) fuel' ds tconstrain tconstrain' t1 t2 s s' b e =
    elim (Bool-cases (is_error_or_auto t1 || is_error_or_auto t2)) [
      | inl excluded ↦ cc (rw excluded at e)
      | inr plain ↦
          let known = through_subtype_memo-lookup (subtype_key ds t1 t2) _ s s' b (rw plain at e) in
          rw plain (through_subtype_memo-hit (subtype_key ds t1 t2) _ s' b known)
    ]

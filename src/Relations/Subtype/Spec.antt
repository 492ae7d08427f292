-- ===== src/Relations/Subtype/Spec.antt =====
-- Subtyping in a constraint scope, without memo tables or fuel.
use bosque_core.Prelude.{
  ℕ, ◌<◌, String, Bool, true, false, ◌≡◌, Option, some, List, [], ◌∷◌, inl, inr, ◌⊎◌, ◌↔◌, All,
}
use bosque_core.Types.Syntax.{
  FullyQualifiedNamespace, TypeSignature, error, void, auto, template, nominal, elist, lambda,
  format_string, TypeSignatures,
}
use bosque_core.Types.Constraints.{TemplateConstraintScope, resolve_constraint}
use bosque_core.Assembly.{TemplateTermDecl, Declarations}
use bosque_core.Relations.Outcome.{RelState}
use bosque_core.Relations.Same.Spec.{same}
use bosque_core.Relations.Same.Memoized.{Within, Faithful, MemoOk}
use bosque_core.Relations.Subtype.{subtype_key, is_none_decl, is_option_type, provided_types}

abbrev pub Member : TypeSignature → List TypeSignature → Type 0
Member p [] = ⊥
Member p (t ∷ ts) = (p ≡ t) ⊎ Member p ts

pub data IsSubtype (ds : Declarations) (tconstrain : TemplateConstraintScope)
    : TypeSignature → TypeSignature → Type 0 where
  by_same : (t u : TypeSignature) → same t u ≡ true → IsSubtype ds tconstrain t u
  by_constraint :
      (name : String) (d : TemplateTermDecl) (t u : TypeSignature)
      → resolve_constraint tconstrain name ≡ some d
      → d.tconstraint ≡ some t
      → IsSubtype ds tconstrain t u
      → IsSubtype ds tconstrain (template name) u
  none_option :
      (decl : ℕ) (altns : Option FullyQualifiedNamespace) (args : TypeSignatures)
      (u : TypeSignature)
      → is_none_decl (ds decl) ≡ true
      → is_option_type ds u ≡ true
      → IsSubtype ds tconstrain (nominal decl altns args) u
  by_provides :
      (decl : ℕ) (altns : Option FullyQualifiedNamespace) (args : TypeSignatures)
      (p u : TypeSignature)
      → is_none_decl (ds decl) ≡ false
      → Member p (provided_types ds (nominal decl altns args) tconstrain)
      → IsSubtype ds tconstrain p u
      → IsSubtype ds tconstrain (nominal decl altns args) u

module _ (ds : Declarations) (c : TemplateConstraintScope) where
  -- The subtypes that are not the same type, by their last step.
  abbrev pub Widens : TypeSignature → TypeSignature → Type 0
  Widens (template name) u =
      (d : TemplateTermDecl) × (t : TypeSignature) × (resolve_constraint c name ≡ some d)
      × (d.tconstraint ≡ some t)
      × IsSubtype ds c t u
  Widens (nominal decl altns args) u =
      ((is_none_decl (ds decl) ≡ true) × (is_option_type ds u ≡ true))
      ⊎ ((is_none_decl (ds decl) ≡ false)
          × (p : TypeSignature) × Member p (provided_types ds (nominal decl altns args) c)
          × IsSubtype ds c p u)
  Widens _ u = ⊥

  by_cases : (t u : TypeSignature) → IsSubtype ds c t u → (same t u ≡ true) ⊎ Widens t u
  by_cases _ _ (by_same t u h) = inl h
  by_cases _ _ (by_constraint name d t u found bound h) = inr (d, t, found, bound, h)
  by_cases _ _ (none_option decl altns args u none_ option) = inr (inl (none_, option))
  by_cases _ _ (by_provides decl altns args p u other there h) = inr (inr (other, p, there, h))

  by_widening : (t u : TypeSignature) → Widens t u → IsSubtype ds c t u
  by_widening (template name) u (d, t, found, bound, h) = by_constraint name d t u found bound h
  by_widening (nominal decl altns args) u (inl (none_, option)) =
      none_option decl altns args u none_ option
  by_widening (nominal decl altns args) u (inr (other, p, there, h)) =
      by_provides decl altns args p u other there h
  by_widening (error ns) u h = absurd h
  by_widening void u h = absurd h
  by_widening auto u h = absurd h
  by_widening (elist ts) u h = absurd h
  by_widening (lambda r n ps t) u h = absurd h
  by_widening (format_string o t ts) u h = absurd h

  pub IsSubtype-iff : (t u : TypeSignature) → ((same t u ≡ true) ⊎ Widens t u) ↔ IsSubtype ds c t u
  IsSubtype-iff t u = (elim [ inl h ↦ by_same t u h | inr h ↦ by_widening t u h ], by_cases t u)

-- A universe of signatures that contains what its members lead to, with keys that tell the two
-- relations apart, and in which constraints and provided concepts lead to signatures of lower rank.
pub record Closed (ds : Declarations) (c : TemplateConstraintScope) (U : TypeSignature → Type 0)
    (rank : TypeSignature → ℕ) : Type 0 where
  pub faithful : Faithful ds U
  pub faithful_subtype :
      (t u t' u' : TypeSignature)
      → Within U t
      → Within U u
      → Within U t'
      → Within U u'
      → subtype_key ds t u ≡ subtype_key ds t' u'
      → IsSubtype ds c t u ↔ IsSubtype ds c t' u'
  pub constraint :
      (name : String) (d : TemplateTermDecl) (t : TypeSignature)
      → Within U (template name)
      → resolve_constraint c name ≡ some d
      → d.tconstraint ≡ some t
      → Within U t × (rank t < rank (template name))
  pub provides :
      (t : TypeSignature)
      → Within U t
      → All (λ p. Within U p × (rank p < rank t)) (provided_types ds t c)

module _ (ds : Declarations) (c : TemplateConstraintScope) (U : TypeSignature → Type 0) where
  abbrev pub SubtypeEntryOk : String × Bool → Type 0
  SubtypeEntryOk e =
      (t u : TypeSignature)
      → Within U t
      → Within U u
      → subtype_key ds t u ≡ e.0
      → (e.1 ≡ true) ↔ IsSubtype ds c t u

  -- Both tables hold right answers only.
  abbrev pub StateOk : RelState → Type 0
  StateOk s = MemoOk ds U s.equal × All SubtypeEntryOk s.subtype

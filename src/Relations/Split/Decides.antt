-- ===== src/Relations/Split/Decides.antt =====
-- The two tests of `splitOnTypeDecomposedSet`, where `is_sub` decides subtyping on a universe of
-- signatures.
use bosque_core.Prelude.{
  Bool, true, false, not, ◌||◌, ◌≡◌, refl, Option, none, some, List, [], ◌∷◌, inl, inr, ◌↔◌, All,
  Bool-cases, subst,
}
use bosque_core.Types.Syntax.{TypeSignature}
use bosque_core.Types.Constraints.{TemplateConstraintScope}
use bosque_core.Assembly.{Declarations}
use bosque_core.Relations.Outcome.{Rel}
use bosque_core.Relations.Same.Memoized.{Within}
use bosque_core.Relations.Subtype.Spec.{IsSubtype, Member}
use bosque_core.Relations.Subtype.Decides.{
  Decides, Decides-pure, Decides-false, Decides-bind, Decides-iff, Decides-or_rest,
}
use bosque_core.Relations.Split.{
  is_unique_split_check_type, split_bound, neither_is_subtype, must_disjoint_bounds,
  must_disjoint_check_for_split, some_may_overlap, some_is_supertype,
}

pub not-refutes : {P : Type 0} (b : Bool) → ((b ≡ true) ↔ P) → (not b ≡ true) ↔ (P → ⊥)
not-refutes true h = (λ e. cc, λ f. absurd (f (h.0 refl)))
not-refutes false h = (λ e p. cc (h.1 p), λ f. refl)

module _ (ds : Declarations) (c : TemplateConstraintScope) where
  -- Two bounds of which one at least is an atomic type or a datatype, and neither is below the other.
  abbrev pub DisjointBounds : Option TypeSignature → Option TypeSignature → Type 0
  DisjointBounds (some a) (some b) =
      ((is_unique_split_check_type ds a || is_unique_split_check_type ds b) ≡ true)
      × (IsSubtype ds c a b → ⊥)
      × (IsSubtype ds c b a → ⊥)
  DisjointBounds _ _ = ⊥

  abbrev pub MustDisjoint : TypeSignature → TypeSignature → Type 0
  MustDisjoint t u = DisjointBounds (split_bound c t) (split_bound c u)

  -- A refining type that need not be disjoint from `t`.
  abbrev pub MayOverlap : TypeSignature → List TypeSignature → Type 0
  MayOverlap t refine = (r : TypeSignature) × Member r refine × (MustDisjoint t r → ⊥)

  -- A refining type that `t` is below.
  abbrev pub BelowSome : TypeSignature → List TypeSignature → Type 0
  BelowSome t refine = (r : TypeSignature) × Member r refine × IsSubtype ds c t r

module _ (ds : Declarations) (c : TemplateConstraintScope) (U : TypeSignature → Type 0)
    (is_sub : TypeSignature → TypeSignature → Rel Bool)
    (sub-Decides : (t u : TypeSignature)
      → Within U t
      → Within U u
      → Decides ds c U (is_sub t u) (IsSubtype ds c t u))
    (bound-Within : (t b : TypeSignature)
      → Within U t
      → split_bound c t ≡ some b
      → Within U b) where
  Decides-neither :
      (a b : TypeSignature)
      → Within U a
      → Within U b
      → Decides ds c U
          (neither_is_subtype is_sub a b)
          ((IsSubtype ds c a b → ⊥) × (IsSubtype ds c b a → ⊥))
  unfolding neither_is_subtype
  Decides-neither a b ha hb = Decides-bind ds c U (is_sub a b) _ (sub-Decides a b ha hb) (elim [
    | true ↦ λ h. Decides-false ds c U (λ p. p.0 (h.0 refl))
    | false ↦ λ h. Decides-bind ds c U (is_sub b a) _ (sub-Decides b a hb ha) (λ above g.
        Decides-pure ds c U (not above)
          ((λ e. (λ p. cc (h.1 p), (not-refutes above g).0 e)), λ p. (not-refutes above g).1 p.1))
  ])

  Decides-bounds :
      (t u : Option TypeSignature)
      → ((a : TypeSignature) → t ≡ some a → Within U a)
      → ((b : TypeSignature) → u ≡ some b → Within U b)
      → Decides ds c U (must_disjoint_bounds is_sub ds t u) (DisjointBounds ds c t u)
  unfolding must_disjoint_bounds
  Decides-bounds none none ht hu = Decides-false ds c U (λ h. h)
  Decides-bounds none (some b) ht hu = Decides-false ds c U (λ h. h)
  Decides-bounds (some a) none ht hu = Decides-false ds c U (λ h. h)
  Decides-bounds (some a) (some b) ht hu =
      elim (Bool-cases (is_unique_split_check_type ds a || is_unique_split_check_type ds b)) [
        | inl unique ↦ rw unique (
            Decides-iff ds c U _ ((λ h. (refl, h.0, h.1)), λ h. (h.1, h.2))
              (Decides-neither a b (ht a refl) (hu b refl)))
        | inr other ↦ rw other (Decides-false ds c U (λ h. cc h.0))
      ]

  pub Decides-some_may_overlap :
      (t : TypeSignature) (refine : List TypeSignature)
      → Within U t
      → All (Within U) refine
      → Decides ds c U (some_may_overlap is_sub ds c t refine) (MayOverlap ds c t refine)
  unfolding some_may_overlap must_disjoint_check_for_split
  Decides-some_may_overlap t [] ht hr = Decides-false ds c U (λ h. h.1)
  Decides-some_may_overlap t (r ∷ refine) ht hr =
      Decides-bind ds c U _ _
        (Decides-bounds (split_bound c t) (split_bound c r) (λ a. bound-Within t a ht)
          (λ b. bound-Within r b hr.0))
        (λ disjoint h.
          Decides-iff ds c U _
            (
              elim [ inl f ↦ (r, inl refl, f) | inr g ↦ (g.0, inr g.1, g.2) ],
              λ g. elim g.1 [
                | inl e ↦ inl (subst (λ x. MustDisjoint ds c t x → ⊥) e g.2)
                | inr m ↦ inr (g.0, m, g.2)
              ],
            )
            (Decides-or_rest ds c U (not disjoint) (some_may_overlap is_sub ds c t refine)
              (not-refutes disjoint h) (Decides-some_may_overlap t refine ht hr.1)))

  pub Decides-some_is_supertype :
      (t : TypeSignature) (refine : List TypeSignature)
      → Within U t
      → All (Within U) refine
      → Decides ds c U (some_is_supertype is_sub t refine) (BelowSome ds c t refine)
  unfolding some_is_supertype
  Decides-some_is_supertype t [] ht hr = Decides-false ds c U (λ h. h.1)
  Decides-some_is_supertype t (r ∷ refine) ht hr =
      Decides-bind ds c U _ _ (sub-Decides t r ht hr.0) (λ above h.
        Decides-iff ds c U _
          (
            elim [ inl f ↦ (r, inl refl, f) | inr g ↦ (g.0, inr g.1, g.2) ],
            λ g. elim g.1 [
              | inl e ↦ inl (subst (λ x. IsSubtype ds c t x) e g.2)
              | inr m ↦ inr (g.0, m, g.2)
            ],
          )
          (Decides-or_rest ds c U above (some_is_supertype is_sub t refine) h
            (Decides-some_is_supertype t refine ht hr.1)))

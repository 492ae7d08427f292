-- ===== src/Relations/Subtype/Correct.antt =====
-- `isSubtypeOf` with its memo tables decides subtyping.
use bosque_core.Prelude.{
  ℕ, zero, suc, ◌<◌, ◌≤◌, String, Bool, true, false, ◌≡◌, refl, sym, ◌∙◌, ap, Option, none, some,
  some-injective, List, [], ◌∷◌, Bool-cases, Option-cases, inl, inr, ◌⊎◌, ◌↔◌, subst, All, All-map,
  arith,
}
use bosque_core.Types.Syntax.{
  TypeSignature, error, void, auto, template, nominal, elist, lambda, format_string,
}
use bosque_core.Types.Constraints.{TemplateConstraintScope, resolve_constraint}
use bosque_core.Assembly.{TemplateTermDecl, NominalTypeDecl, Declarations}
use bosque_core.Relations.Outcome.{RelState, done, Rel, pure}
use bosque_core.Relations.Same.{is_error_or_auto, are_same_types}
use bosque_core.Relations.Same.Spec.{same}
use bosque_core.Relations.Same.Memoized.{Within}
use bosque_core.Relations.Same.Correct.{are_same_types_lem}
use bosque_core.Relations.Subtype.{
  is_none_decl, is_option_type, provided_types, or_rest, some_is_subtype_of, template_is_subtype_of,
  nominal_is_subtype_of, widened, is_subtype_of,
}
use bosque_core.Relations.Subtype.Spec.{
  Member, IsSubtype, Widens, IsSubtype-iff, Closed, SubtypeEntryOk, StateOk,
}
use bosque_core.Relations.Subtype.Decides.{
  Decides, Decides-pure, Decides-false, Decides-bind, Decides-iff, Decides-or_rest,
  Decides-through_subtype_memo,
}

-- No signature of the universe is an error or auto.
not_excluded :
    (U : TypeSignature → Type 0) (t : TypeSignature) → Within U t → is_error_or_auto t ≡ false
unfolding is_error_or_auto
not_excluded U (error ns) h = absurd h
not_excluded U auto h = absurd h
not_excluded U void h = refl
not_excluded U (template name) h = refl
not_excluded U (nominal decl altns args) h = refl
not_excluded U (elist ts) h = refl
not_excluded U (lambda r n ps t) h = refl
not_excluded U (format_string o t ts) h = refl

Member-cases :
    (ds : Declarations) (c : TemplateConstraintScope) (t : TypeSignature) (ts : List TypeSignature)
    (p u : TypeSignature)
    → Member p (t ∷ ts)
    → IsSubtype ds c p u
    → IsSubtype ds c t u ⊎ ((p : TypeSignature) × Member p ts × IsSubtype ds c p u)
Member-cases ds c t ts p u (inl e) h = inl (subst (λ x. IsSubtype ds c x u) e h)
Member-cases ds c t ts p u (inr there) h = inr (p, there, h)

below : (a b n : ℕ) → a < b → b ≤ n → a < n
below a b n h k = omega arith

-- A template has one constraint.
one_bound :
    (c : TemplateConstraintScope) (name : String) (d d' : TemplateTermDecl)
    (o : Option TypeSignature)
    → resolve_constraint c name ≡ some d
    → resolve_constraint c name ≡ some d'
    → d.tconstraint ≡ o
    → d'.tconstraint ≡ o
one_bound c name d d' o found found' bound =
    ap (λ (x : TemplateTermDecl). x.tconstraint) (sym (some-injective d d' (sym found ∙ found')))
    ∙ bound

module _ (is_sub : TypeSignature → TypeSignature → Rel Bool) (c : TemplateConstraintScope)
    (name : String) (u : TypeSignature) where
  template-absent :
      resolve_constraint c name ≡ none → template_is_subtype_of is_sub c name u ≡ pure false
  unfolding template_is_subtype_of
  template-absent absent = rw (absent, template_is_subtype_of) refl

  template-free :
      (d : TemplateTermDecl)
      → resolve_constraint c name ≡ some d
      → d.tconstraint ≡ none
      → template_is_subtype_of is_sub c name u ≡ pure false
  unfolding template_is_subtype_of
  template-free d found free = rw (found, template_is_subtype_of) (rw free refl)

  template-bound :
      (d : TemplateTermDecl) (t : TypeSignature)
      → resolve_constraint c name ≡ some d
      → d.tconstraint ≡ some t
      → template_is_subtype_of is_sub c name u ≡ is_sub t u
  unfolding template_is_subtype_of
  template-bound d t found bound = rw (found, template_is_subtype_of) (rw bound refl)

module _ (is_sub : TypeSignature → TypeSignature → Rel Bool) (ds : Declarations)
    (c : TemplateConstraintScope) (d : NominalTypeDecl) (t u : TypeSignature) where
  nominal-none :
      is_none_decl d ≡ true → nominal_is_subtype_of is_sub ds c d t u ≡ pure (is_option_type ds u)
  unfolding nominal_is_subtype_of
  nominal-none none_ = rw (none_, nominal_is_subtype_of) refl

  nominal-other :
      is_none_decl d ≡ false
      → nominal_is_subtype_of is_sub ds c d t u
        ≡ some_is_subtype_of is_sub (provided_types ds t c) u
  unfolding nominal_is_subtype_of
  nominal-other other = rw (other, nominal_is_subtype_of) refl

module _ (ds : Declarations) (c : TemplateConstraintScope) (U : TypeSignature → Type 0)
    (rank : TypeSignature → ℕ) (closed : Closed ds c U rank) where
  Decides-are_same_types :
      (t u : TypeSignature)
      → Within U t
      → Within U u
      → Decides ds c U (are_same_types ds t u) (same t u ≡ true)
  Decides-are_same_types t u ht hu = record {
    run = λ s ok.
        let (s', ran, ok', kept) = are_same_types_lem ds U closed.faithful t u s ht hu ok.0 in
        (
          same t u,
          s',
          ran,
          (ok', subst (All (SubtypeEntryOk ds c U)) (sym kept) ok.1),
          (λ e. e, λ e. e),
        );
  }

  -- The recursive calls are on signatures of a rank below `n`.
  module _ (n : ℕ) (is_sub : TypeSignature → TypeSignature → Rel Bool)
      (decides : (t u : TypeSignature)
        → Within U t
        → rank t < n
        → Within U u
        → Decides ds c U (is_sub t u) (IsSubtype ds c t u)) where
    Decides-some :
        (ts : List TypeSignature) (u : TypeSignature)
        → All (λ t. Within U t × (rank t < n)) ts
        → Within U u
        → Decides ds c U
            (some_is_subtype_of is_sub ts u)
            ((p : TypeSignature) × Member p ts × IsSubtype ds c p u)
    unfolding some_is_subtype_of
    Decides-some [] u ht hu = Decides-false ds c U (λ h. h.1)
    Decides-some (t ∷ ts) u ht hu =
        Decides-iff ds c U _
          (
            (elim [ inl h ↦ (t, inl refl, h) | inr (p, there, h) ↦ (p, inr there, h) ]),
            (λ (p, there, h). Member-cases ds c t ts p u there h),
          )
          (Decides-bind ds c U (is_sub t u)
            (λ found. or_rest found (some_is_subtype_of is_sub ts u)) (decides t u ht.0.0 ht.0.1 hu)
            (λ b yields.
              Decides-or_rest ds c U b (some_is_subtype_of is_sub ts u) yields
                (Decides-some ts u ht.1 hu)))

    Decides-template :
        (name : String) (u : TypeSignature)
        → Within U (template name)
        → rank (template name) ≤ n
        → Within U u
        → Decides ds c U (template_is_subtype_of is_sub c name u) (Widens ds c (template name) u)
    Decides-template name u ht low hu = elim (Option-cases (resolve_constraint c name)) [
      | inl absent ↦
          subst (λ m. Decides ds c U m (Widens ds c (template name) u))
            (sym (template-absent is_sub c name u absent))
            (Decides-false ds c U (λ (d, t, found, _, _). cc (absent, found)))
      | inr (d, found) ↦ elim (Option-cases d.tconstraint) [
        | inl free ↦
            subst (λ m. Decides ds c U m (Widens ds c (template name) u))
              (sym (template-free is_sub c name u d found free))
              (Decides-false ds c U (λ (d', t, found', bound', _).
                cc (one_bound c name d d' none found found' free, bound')))
        | inr (t, bound) ↦
            let (within, lower) = closed.constraint name d t ht found bound in
            subst (λ m. Decides ds c U m (Widens ds c (template name) u))
              (sym (template-bound is_sub c name u d t found bound))
              (Decides-iff ds c U (is_sub t u)
                (
                  (λ h. (d, t, found, bound, h)),
                  (λ (d', t', found', bound', h).
                      subst (λ x. IsSubtype ds c x u)
                        (some-injective _ _
                          (sym bound' ∙ one_bound c name d d' (some t) found found' bound))
                        h),
                )
                (decides t u within (below (rank t) (rank (template name)) n lower low) hu))
      ]
    ]

    Decides-widened :
        (t u : TypeSignature)
        → Within U t
        → rank t ≤ n
        → Within U u
        → Decides ds c U (widened is_sub ds c t u) (Widens ds c t u)
    unfolding widened
    Decides-widened (template name) u ht low hu = Decides-template name u ht low hu
    Decides-widened (nominal decl altns args) u ht low hu =
        elim (Bool-cases (is_none_decl (ds decl))) [
          | inl none_ ↦
              subst (λ m. Decides ds c U m (Widens ds c (nominal decl altns args) u))
                (sym (nominal-none is_sub ds c (ds decl) (nominal decl altns args) u none_))
                (Decides-pure ds c U (is_option_type ds u)
                  ((λ e. inl (none_, e)), elim [ inl h ↦ h.1 | inr h ↦ cc (none_, h.0) ]))
          | inr other ↦
              let provides : All (λ p. Within U p × (rank p < n))
                  (provided_types ds (nominal decl altns args) c) =
                All-map
                  (λ (p : TypeSignature)
                      (h : Within U p × (rank p < rank (nominal decl altns args))).
                    (h.0, below (rank p) (rank (nominal decl altns args)) n h.1 low))
                  (provided_types ds (nominal decl altns args) c)
                  (closed.provides (nominal decl altns args) ht) in
              subst (λ m. Decides ds c U m (Widens ds c (nominal decl altns args) u))
                (sym (nominal-other is_sub ds c (ds decl) (nominal decl altns args) u other))
                (Decides-iff ds c U
                  (some_is_subtype_of is_sub (provided_types ds (nominal decl altns args) c) u)
                  (
                    (λ h. inr (other, h.0, h.1, h.2)),
                    elim [ inl h ↦ cc (other, h.0) | inr h ↦ (h.1, h.2, h.3) ],
                  )
                  (Decides-some (provided_types ds (nominal decl altns args) c) u provides hu))
        ]
    Decides-widened void u ht low hu = Decides-false ds c U (λ h. h)
    Decides-widened (error ns) u ht low hu = Decides-false ds c U (λ h. h)
    Decides-widened auto u ht low hu = Decides-false ds c U (λ h. h)
    Decides-widened (elist ts) u ht low hu = Decides-false ds c U (λ h. h)
    Decides-widened (lambda r n' ps t) u ht low hu = Decides-false ds c U (λ h. h)
    Decides-widened (format_string o t ts) u ht low hu = Decides-false ds c U (λ h. h)

  pub is_subtype_of-Decides :
      (fuel : ℕ) (t u : TypeSignature)
      → Within U t
      → rank t < fuel
      → Within U u
      → Decides ds c U (is_subtype_of fuel ds c t u) (IsSubtype ds c t u)
  unfolding is_subtype_of
  is_subtype_of-Decides zero t u ht low hu = absurd (omega arith)
  is_subtype_of-Decides (suc fuel) t u ht low hu =
      let compared = Decides-iff ds c U _ (IsSubtype-iff ds c t u) (
        Decides-bind ds c U (are_same_types ds t u)
          (λ same. or_rest same (widened (is_subtype_of fuel ds c) ds c t u))
          (Decides-are_same_types t u ht hu)
          (λ b yields.
            Decides-or_rest ds c U b (widened (is_subtype_of fuel ds c) ds c t u) yields (
              Decides-widened fuel (is_subtype_of fuel ds c) (is_subtype_of-Decides fuel) t u ht
                (omega arith) hu))) in
      rw (not_excluded U t ht, not_excluded U u hu)
        (Decides-through_subtype_memo ds c U t u _
          (λ t' u'. closed.faithful_subtype t u t' u' ht hu) ht hu compared)

-- On a closed ranked universe of signatures, from sound tables and with more fuel than the rank of the
-- first type, `isSubtypeOf` returns. It leaves sound tables, and it answers true exactly when the first
-- type is a subtype of the second in the constraint scope.
pub is_subtype_of_lem :
    (fuel : ℕ) (ds : Declarations) (c : TemplateConstraintScope) (U : TypeSignature → Type 0)
    (rank : TypeSignature → ℕ) (t u : TypeSignature) (s : RelState)
    → Closed ds c U rank
    → Within U t
    → Within U u
    → rank t < fuel
    → StateOk ds c U s
    → (b : Bool) × (s' : RelState) × (is_subtype_of fuel ds c t u s ≡ done b s')
      × StateOk ds c U s'
      × ((b ≡ true) ↔ IsSubtype ds c t u)
is_subtype_of_lem fuel ds c U rank t u s closed ht hu low ok =
    (is_subtype_of-Decides ds c U rank closed fuel t u ht low hu).run s ok

-- ===== src/Relations/Split/Covers.antt =====
-- A type test loses no constituent of the type that it refines.
use bosque_core.Prelude.{
  String, Bool, true, false, ◌≡◌, refl, sym, ◌∙◌, some, some-injective, List, inl, inr, All, subst,
  eq_iff, Option-cases, ap,
}
use bosque_core.Types.Syntax.{
  TypeSignature, error, void, auto, template, nominal, elist, lambda, format_string,
}
use bosque_core.Types.Constraints.{TemplateConstraintScope, resolve_constraint}
use bosque_core.Assembly.{TemplateTermDecl, Declarations}
use bosque_core.Relations.Outcome.{RelState, done, Rel}
use bosque_core.Relations.Same.Spec.{same, IsComparable}
use bosque_core.Relations.Same.Erasure.{same_self}
use bosque_core.Relations.Same.Memoized.{Within}
use bosque_core.Relations.Subtype.{is_option_type}
use bosque_core.Relations.Subtype.Spec.{
  IsSubtype, by_same, by_constraint, none_option, by_provides, StateOk, Member,
}
use bosque_core.Relations.Subtype.Decides.{Decides}
use bosque_core.Relations.Split.{
  Split, CoreTypes, split_bound, decompose_type, is_error, refine_match_type, refine_type,
}
use bosque_core.Relations.Split.Decides.{MustDisjoint, DisjointBounds}
use bosque_core.Relations.Split.Correct.{split_on_type_decomposed_set_lem}

module _ (ds : Declarations) (c : TemplateConstraintScope) where
  same-template :
      (t : TypeSignature) (name : String) → same t (template name) ≡ true → t ≡ template name
  unfolding same
  same-template (template a) name e = rw ((eq_iff a name).0 e) refl
  same-template (error ns) name e = cc
  same-template void name e = cc
  same-template auto name e = cc
  same-template (nominal d alt ts) name e = cc
  same-template (elist ts) name e = cc
  same-template (lambda r n ps t) name e = cc
  same-template (format_string o t ts) name e = cc

  template-same :
      (name : String) (t : TypeSignature) → same (template name) t ≡ true → t ≡ template name
  unfolding same
  template-same name (template a) e = rw ((eq_iff name a).0 e) refl
  template-same name (error ns) e = cc
  template-same name void e = cc
  template-same name auto e = cc
  template-same name (nominal d alt ts) e = cc
  template-same name (elist ts) e = cc
  template-same name (lambda r n ps t) e = cc
  template-same name (format_string o t ts) e = cc

  resolved :
      (name : String) (b : TypeSignature)
      → split_bound c (template name) ≡ some b
      → (d : TemplateTermDecl) × (resolve_constraint c name ≡ some d) × (d.tconstraint ≡ some b)
  unfolding split_bound
  resolved name b e = elim (Option-cases (resolve_constraint c name)) [
    | inl absent ↦ cc (rw (split_bound, absent) at e)
    | inr (d, found) ↦ (d, found, rw (split_bound, found) at e)
  ]

  -- What is below a template is below its bound.
  below_template :
      (t u : TypeSignature) (name : String) (b : TypeSignature)
      → IsSubtype ds c t u
      → u ≡ template name
      → split_bound c (template name) ≡ some b
      → IsComparable b
      → IsSubtype ds c t b
  unfolding is_option_type
  below_template _ _ name b (by_same t u h) e bound ok =
      let (d, found, at_d) = resolved name b bound in
      subst (λ x. IsSubtype ds c x b) (sym (same-template t name (rw e at h)))
        (by_constraint name d b b found at_d (by_same b b (same_self b ok)))
  below_template _ _ name b (by_constraint n d t u found bound' h) e bound ok =
      by_constraint n d t b found bound' (below_template t u name b h e bound ok)
  below_template _ _ name b (none_option decl altns args u none_ option) e bound ok =
      cc (rw e at option)
  below_template _ _ name b (by_provides decl altns args p u other there h) e bound ok =
      by_provides decl altns args p b other there (below_template p u name b h e bound ok)

  below_bound :
      (t u b : TypeSignature)
      → IsSubtype ds c t u
      → split_bound c u ≡ some b
      → IsComparable b
      → IsSubtype ds c t b
  unfolding split_bound
  below_bound t (template name) b h e ok = below_template t (template name) name b h refl e ok
  below_bound t (error ns) b h e ok = rw (sym (some-injective _ _ e)) h
  below_bound t void b h e ok = rw (sym (some-injective _ _ e)) h
  below_bound t auto b h e ok = rw (sym (some-injective _ _ e)) h
  below_bound t (nominal d alt ts) b h e ok = rw (sym (some-injective _ _ e)) h
  below_bound t (elist ts) b h e ok = rw (sym (some-injective _ _ e)) h
  below_bound t (lambda r n ps u) b h e ok = rw (sym (some-injective _ _ e)) h
  below_bound t (format_string o u ts) b h e ok = rw (sym (some-injective _ _ e)) h

  template_below :
      (t u : TypeSignature) (name : String) (a b : TypeSignature)
      → IsSubtype ds c t u
      → t ≡ template name
      → split_bound c (template name) ≡ some a
      → split_bound c u ≡ some b
      → IsComparable b
      → IsSubtype ds c a b
  template_below _ _ name a b (by_same t u h) e at_a at_b ok =
      let same_bound =
        sym at_a ∙ ap (split_bound c) (sym (template-same name u (rw e at h))) ∙ at_b in
      subst (λ x. IsSubtype ds c x b) (sym (some-injective a b same_bound))
        (by_same b b (same_self b ok))
  template_below _ _ name a b (by_constraint n d t u found bound h) e at_a at_b ok =
      let (d', found', at_d) = resolved name a at_a in
      let t_is_a : t ≡ a = cc in
      subst (λ x. IsSubtype ds c x b) t_is_a (below_bound t u b h at_b ok)
  template_below _ _ name a b (none_option decl altns args u none_ option) e at_a at_b ok = cc
  template_below _ _ name a b (by_provides decl altns args p u other there h) e at_a at_b ok = cc

  bounds_below :
      (t u a b : TypeSignature)
      → IsSubtype ds c t u
      → split_bound c t ≡ some a
      → split_bound c u ≡ some b
      → IsComparable b
      → IsSubtype ds c a b
  unfolding split_bound
  bounds_below (template name) u a b h at_a at_b ok =
      template_below (template name) u name a b h refl at_a at_b ok
  bounds_below (error ns) u a b h at_a at_b ok =
      rw (sym (some-injective _ _ at_a)) (below_bound (error ns) u b h at_b ok)
  bounds_below void u a b h at_a at_b ok =
      rw (sym (some-injective _ _ at_a)) (below_bound void u b h at_b ok)
  bounds_below auto u a b h at_a at_b ok =
      rw (sym (some-injective _ _ at_a)) (below_bound auto u b h at_b ok)
  bounds_below (nominal d alt ts) u a b h at_a at_b ok =
      rw (sym (some-injective _ _ at_a)) (below_bound (nominal d alt ts) u b h at_b ok)
  bounds_below (elist ts) u a b h at_a at_b ok =
      rw (sym (some-injective _ _ at_a)) (below_bound (elist ts) u b h at_b ok)
  bounds_below (lambda r n ps t) u a b h at_a at_b ok =
      rw (sym (some-injective _ _ at_a)) (below_bound (lambda r n ps t) u b h at_b ok)
  bounds_below (format_string o t ts) u a b h at_a at_b ok =
      rw (sym (some-injective _ _ at_a)) (below_bound (format_string o t ts) u b h at_b ok)

  below-MayOverlap :
      (t u : TypeSignature)
      → IsSubtype ds c t u
      → ((b : TypeSignature) → split_bound c u ≡ some b → IsComparable b)
      → MustDisjoint ds c t u
      → ⊥
  below-MayOverlap t u h ok disjoint = elim (Option-cases (split_bound c t)) [
    | inl absent ↦ rw absent at disjoint
    | inr (a, at_a) ↦ elim (Option-cases (split_bound c u)) [
      | inl absent ↦ rw (at_a, absent) at disjoint
      | inr (b, at_b) ↦
          let parts : DisjointBounds ds c (some a) (some b) = rw (at_a, at_b) at disjoint in
          parts.1 (bounds_below t u a b h at_a at_b (ok b at_b))
    ]
  ]

decomposed-not_error :
    (ds : Declarations) (core : CoreTypes) (t : TypeSignature) (ts : List TypeSignature)
    → decompose_type ds core t ≡ some ts
    → is_error t ≡ false
unfolding decompose_type is_error
decomposed-not_error ds core (template name) ts e = refl
decomposed-not_error ds core (nominal d alt args) ts e = refl
decomposed-not_error ds core (error ns) ts e = cc
decomposed-not_error ds core void ts e = refl
decomposed-not_error ds core auto ts e = refl
decomposed-not_error ds core (elist es) ts e = refl
decomposed-not_error ds core (lambda r n ps t) ts e = refl
decomposed-not_error ds core (format_string o t es) ts e = refl

-- Where `is_sub` decides subtyping on a universe that has the constituents of both types and the bounds
-- of its templates, and the bounds of the refining constituents are comparable, `refineType` of two
-- types that decompose returns from sound tables, and it loses nothing: every constituent of the
-- refined type is one that is in the overlap or else one that remains.
pub refine_type-covers :
    (ds : Declarations) (c : TemplateConstraintScope) (core : CoreTypes)
    (U : TypeSignature → Type 0) (is_sub : TypeSignature → TypeSignature → Rel Bool)
    (src refine : TypeSignature) (dcs dcr : List TypeSignature) (s : RelState)
    → ((t u : TypeSignature)
        → Within U t
        → Within U u
        → Decides ds c U (is_sub t u) (IsSubtype ds c t u))
    → ((t b : TypeSignature) → Within U t → split_bound c t ≡ some b → Within U b)
    → decompose_type ds core src ≡ some dcs
    → decompose_type ds core refine ≡ some dcr
    → All (Within U) dcs
    → All (Within U) dcr
    → ((r b : TypeSignature) → Member r dcr → split_bound c r ≡ some b → IsComparable b)
    → StateOk ds c U s
    → (r : Split) × (s' : RelState) × (refine_type is_sub ds core c src refine s ≡ done r s')
      × StateOk ds c U s'
      × ((t : TypeSignature) → Member t dcs → (Member t r.overlap → ⊥) → Member t r.remain)
unfolding refine_type refine_match_type
refine_type-covers ds c core U is_sub src refine dcs dcr s decides bounds at_src at_refine hd hr ok
      sound =
    let (r, s', ran, ok', overlap, remain) =
      split_on_type_decomposed_set_lem ds c U is_sub dcs dcr s decides bounds hd hr sound in
    (
      r,
      s',
      rw
          (
            decomposed-not_error ds core src dcs at_src,
            decomposed-not_error ds core refine dcr at_refine,
            at_src,
            refine_match_type,
            at_refine,
          )
          ran,
      ok',
      λ t there missed. (remain t).1 (
        there,
        λ below. missed (
            (overlap t).1 (
              there,
              (
                below.0,
                below.1,
                λ disjoint.
                    below-MayOverlap ds c t below.0 below.2 (λ b. ok below.0 b below.1) disjoint,
              ),
            )),
      ),
    )

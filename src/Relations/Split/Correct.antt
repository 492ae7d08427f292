-- ===== src/Relations/Split/Correct.antt =====
-- What `splitOnTypeDecomposedSet` puts in each of its two sets, and that it loses no constituent.
use bosque_core.Prelude.{
  Bool, true, false, not, ◌≡◌, refl, some, List, [], ◌∷◌, inl, inr, ◌↔◌, All, subst, sym,
}
use bosque_core.Types.Syntax.{TypeSignature}
use bosque_core.Types.Constraints.{TemplateConstraintScope}
use bosque_core.Assembly.{Declarations}
use bosque_core.Relations.Outcome.{RelState, done, Rel}
use bosque_core.Relations.Same.Memoized.{Within}
use bosque_core.Relations.Subtype.Spec.{IsSubtype, StateOk, Member}
use bosque_core.Relations.Subtype.Decides.{Decides}
use bosque_core.Relations.Split.{Split, keep_if, split_bound, split_on_type_decomposed_set}
use bosque_core.Relations.Split.Decides.{
  MayOverlap, BelowSome, not-refutes, Decides-some_may_overlap, Decides-some_is_supertype,
}

-- Exactly the members of `ts` that satisfy `P`.
abbrev pub Selects : (TypeSignature → Type 0) → List TypeSignature → List TypeSignature → Type 0
Selects P ts kept = (t : TypeSignature) → Member t kept ↔ (Member t ts × P t)

Selects-keep_if :
    (P : TypeSignature → Type 0) (b : Bool) (u : TypeSignature) (ts kept : List TypeSignature)
    → ((b ≡ true) ↔ P u)
    → Selects P ts kept
    → Selects P (u ∷ ts) (keep_if b u kept)
Selects-keep_if P true u ts kept h rest t = (
  elim [
    | inl e ↦ (inl e, subst P (sym e) (h.0 refl))
    | inr m ↦ let (there, p) = (rest t).0 m in (inr there, p)
  ],
  λ q. elim q.0 [ inl e ↦ inl e | inr m ↦ inr ((rest t).1 (m, q.1)) ],
)
Selects-keep_if P false u ts kept h rest t = (
  λ m. let (there, p) = (rest t).0 m in (inr there, p),
  λ q. elim q.0 [ inl e ↦ cc (h.1 (subst P e q.1)) | inr m ↦ (rest t).1 (m, q.1) ],
)

-- Where `is_sub` decides subtyping on a universe of signatures that has the constituents, the refining
-- types and the bounds of its templates, splitting returns from sound tables. It leaves sound tables,
-- the overlap is exactly the constituents that need not be disjoint from some refining type, and what
-- remains is exactly the constituents that are below no refining type.
pub split_on_type_decomposed_set_lem :
    (ds : Declarations) (c : TemplateConstraintScope) (U : TypeSignature → Type 0)
    (is_sub : TypeSignature → TypeSignature → Rel Bool) (dcs refine : List TypeSignature)
    (s : RelState)
    → ((t u : TypeSignature)
        → Within U t
        → Within U u
        → Decides ds c U (is_sub t u) (IsSubtype ds c t u))
    → ((t b : TypeSignature) → Within U t → split_bound c t ≡ some b → Within U b)
    → All (Within U) dcs
    → All (Within U) refine
    → StateOk ds c U s
    → (r : Split) × (s' : RelState) × (split_on_type_decomposed_set is_sub ds c dcs refine s
        ≡ done r s')
      × StateOk ds c U s'
      × Selects (λ t. MayOverlap ds c t refine) dcs r.overlap
      × Selects (λ t. BelowSome ds c t refine → ⊥) dcs r.remain
unfolding split_on_type_decomposed_set
split_on_type_decomposed_set_lem ds c U is_sub [] refine s decides bounds hd hr ok = (
  record { overlap = []; remain = [] },
  s,
  refl,
  ok,
  (λ t. (λ h. absurd h, λ h. h.0)),
  λ t. (λ h. absurd h, λ h. h.0),
)
split_on_type_decomposed_set_lem ds c U is_sub (dct ∷ dcs) refine s decides bounds hd hr ok =
    let (b1, s1, e1, ok1, over) =
      (Decides-some_may_overlap ds c U is_sub decides bounds dct refine hd.0 hr).run s ok in
    let (b2, s2, e2, ok2, below) =
      (Decides-some_is_supertype ds c U is_sub decides bounds dct refine hd.0 hr).run s1 ok1 in
    let (rest, s3, e3, ok3, overlap, remain) =
      split_on_type_decomposed_set_lem ds c U is_sub dcs refine s2 decides bounds hd.1 hr ok2 in
    (
      record { overlap = keep_if b1 dct rest.overlap; remain = keep_if (not b2) dct rest.remain },
      s3,
      rw (e1, e2, e3) refl,
      ok3,
      Selects-keep_if (λ t. MayOverlap ds c t refine) b1 dct dcs rest.overlap over overlap,
      Selects-keep_if (λ t. BelowSome ds c t refine → ⊥) (not b2) dct dcs rest.remain
          (not-refutes b2 below) remain,
    )

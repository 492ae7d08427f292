-- ===== src/Tests/SplitTests.antt =====
-- The type test of `Foo` and `Bar` by `Foo`, where `Foo` provides `Bar`.
use bosque_core.Prelude.{
  ◌<◌, ◌≡◌, refl, sym, ◌∙◌, Bool, true, false, some, some-injective, [], ◌∷◌, arith, inl, inr, none,
}
use bosque_core.Types.Syntax.{TypeSignature, nominal, no_types}
use bosque_core.Relations.Outcome.{RelState, done, Rel}
use bosque_core.Relations.Same.Spec.{IsComparable}
use bosque_core.Relations.Same.Memoized.{Within}
use bosque_core.Relations.Subtype.{is_subtype_of}
use bosque_core.Relations.Subtype.Spec.{IsSubtype, StateOk, Member}
use bosque_core.Relations.Subtype.Decides.{Decides}
use bosque_core.Relations.Subtype.Correct.{is_subtype_of-Decides}
use bosque_core.Relations.Split.{
  Split, CoreTypes, split_bound, decompose_type, decompose_nominal, split_on_type_decomposed_set,
  refine_type,
}
use bosque_core.Relations.Split.Decides.{MayOverlap, BelowSome}
use bosque_core.Relations.Split.Correct.{Selects, split_on_type_decomposed_set_lem}
use bosque_core.Relations.Split.Covers.{refine_type-covers}
use bosque_core.Tests.SubtypeTests.{
  foo, bar, foo_decls, no_constraints, IsNamed, named, rank, Within-holds, IsNamed-Closed,
  no_answers,
}

abbrev is_sub : TypeSignature → TypeSignature → Rel Bool
is_sub = is_subtype_of 2 foo_decls no_constraints

named-low : (b : Bool) → rank (named b) < 2
named-low true = omega arith
named-low false = omega arith

is_sub-Decides :
    (t u : TypeSignature)
    → Within IsNamed t
    → Within IsNamed u
    → Decides foo_decls no_constraints IsNamed (is_sub t u) (IsSubtype foo_decls no_constraints t u)
is_sub-Decides t u ht hu =
    let (b, e) = Within-holds IsNamed t ht in
    is_subtype_of-Decides foo_decls no_constraints IsNamed rank IsNamed-Closed 2 t u ht
      (rw e (named-low b)) hu

named-bound : (b : Bool) → split_bound no_constraints (named b) ≡ some (named b)
unfolding split_bound
named-bound true = refl
named-bound false = refl

named-Within : (b : Bool) → Within IsNamed (named b)
named-Within true = ((true, refl), tt)
named-Within false = ((false, refl), tt)

bound-Within :
    (t b : TypeSignature)
    → Within IsNamed t
    → split_bound no_constraints t ≡ some b
    → Within IsNamed b
bound-Within t b ht e =
    let (n, en) = Within-holds IsNamed t ht in
    let bound_is = sym (named-bound n) ∙ rw en at e in
    rw (sym (some-injective _ _ bound_is)) (named-Within n)

split_on_type_decomposed_set_lem_example :
    (r : Split) × (s' : RelState) × (split_on_type_decomposed_set is_sub foo_decls no_constraints
        (foo ∷ bar ∷ [])
        (foo ∷ [])
        no_answers
      ≡ done r s')
    × StateOk foo_decls no_constraints IsNamed s'
    × Selects (λ t. MayOverlap foo_decls no_constraints t (foo ∷ [])) (foo ∷ bar ∷ []) r.overlap
    × Selects (λ t. BelowSome foo_decls no_constraints t (foo ∷ []) → ⊥) (foo ∷ bar ∷ []) r.remain
split_on_type_decomposed_set_lem_example =
    split_on_type_decomposed_set_lem foo_decls no_constraints IsNamed is_sub (foo ∷ bar ∷ [])
      (foo ∷ []) no_answers is_sub-Decides bound-Within
      (named-Within true, (named-Within false, tt)) (named-Within true, tt) (tt, tt)

abbrev core_types : CoreTypes
core_types = record {
  some_decl = 2;
  ok_decl = 3;
  fail_decl = 4;
  none_type = nominal 5 none no_types;
}

bar-alone : decompose_type foo_decls core_types bar ≡ some (bar ∷ [])
unfolding decompose_type decompose_nominal
bar-alone = refl

foo-alone : decompose_type foo_decls core_types foo ≡ some (foo ∷ [])
unfolding decompose_type decompose_nominal
foo-alone = refl

foo-IsComparable :
    (r b : TypeSignature)
    → Member r (foo ∷ [])
    → split_bound no_constraints r ≡ some b
    → IsComparable b
foo-IsComparable r b there e = elim there [
  | inl is_foo ↦
      let bound_is = sym (named-bound true) ∙ rw is_foo at e in
      rw (sym (some-injective foo b bound_is)) tt
  | inr m ↦ absurd m
]

refine_type-covers_example :
    (r : Split) × (s' : RelState) × (refine_type is_sub foo_decls core_types no_constraints bar foo
        no_answers
      ≡ done r s')
    × StateOk foo_decls no_constraints IsNamed s'
    × ((t : TypeSignature) → Member t (bar ∷ []) → (Member t r.overlap → ⊥) → Member t r.remain)
refine_type-covers_example =
    refine_type-covers foo_decls no_constraints core_types IsNamed is_sub bar foo (bar ∷ [])
      (foo ∷ []) no_answers is_sub-Decides bound-Within bar-alone foo-alone (named-Within false, tt)
      (named-Within true, tt) foo-IsComparable (tt, tt)

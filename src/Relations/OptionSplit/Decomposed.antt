-- ===== src/Relations/OptionSplit/Decomposed.antt =====
-- What `splitOnNone` finds in an option type and in a `Some`.
use bosque_core.Prelude.{
  ℕ, Bool, true, false, ◌≡◌, refl, sym, Option, none, some, inl, inr, Bool-cases, and_true, nat_eq,
  nat_eq_iff, nat_eq_refl,
}
use bosque_core.Types.Syntax.{
  FullyQualifiedNamespace, TypeSignatures, ty, no_types, TypeSignature, nominal,
}
use bosque_core.Types.Constraints.{TemplateConstraintScope}
use bosque_core.Assembly.{
  DeclKind, some_decl, option_decl, primitive_entity, NominalTypeDecl, Declarations,
}
use bosque_core.Relations.Outcome.{RelState, done, Rel}
use bosque_core.Relations.Same.Spec.{same, same_entries}
use bosque_core.Relations.Same.Memoized.{Within}
use bosque_core.Relations.Provides.{arg_at}
use bosque_core.Relations.Subtype.{
  is_none_decl, is_primitive_entity, is_option_type, is_option_decl, or_rest,
}
use bosque_core.Relations.Subtype.Spec.{IsSubtype, IsSubtype-iff, StateOk}
use bosque_core.Relations.Subtype.Decides.{Decides}
use bosque_core.Relations.Split.{CoreTypes, decompose_nominal, decompose_type, is_error}
use bosque_core.Relations.ResultSplit.{unset_or_same}
use bosque_core.Relations.OptionSplit.{
  has_some, every_option, take_some, scan_options, none_result, split_on_none_decomposed_set,
  split_on_none,
}

kind-no_some : (k : DeclKind) → is_primitive_entity k ≡ true → has_some k ≡ false
unfolding has_some is_primitive_entity
kind-no_some primitive_entity h = refl
kind-no_some _ h = cc

none-has_no_some : (d : NominalTypeDecl) → is_none_decl d ≡ true → has_some d.kind ≡ false
unfolding is_none_decl
none-has_no_some d h = kind-no_some d.kind (and_true _ _ h).0

module _ (ds : Declarations) (c : TemplateConstraintScope) (n : ℕ)
    (none_ : is_none_decl (ds n) ≡ true) where
  none-below_none :
      (alt : Option FullyQualifiedNamespace)
      → IsSubtype ds c (nominal n alt no_types) (nominal n alt no_types)
  unfolding same same_entries
  none-below_none alt = (IsSubtype-iff ds c _ _).0 (inl (rw nat_eq_refl refl))

  some-not_none : (decl : ℕ) → (ds decl).kind ≡ some_decl → nat_eq n decl ≡ true → ⊥
  unfolding is_none_decl is_primitive_entity
  some-not_none decl is_some e =
      let hit : is_none_decl (ds decl) ≡ true = rw (sym ((nat_eq_iff n decl).0 e)) none_ in
      cc (rw is_some at hit)

  none-not_below_some :
      (alt altns : Option FullyQualifiedNamespace) (decl : ℕ) (args : TypeSignatures)
      → (ds decl).kind ≡ some_decl
      → IsSubtype ds c (nominal n alt no_types) (nominal decl altns args)
      → ⊥
  unfolding is_option_type is_option_decl same
  none-not_below_some alt altns decl args is_some h = elim ((IsSubtype-iff ds c _ _).1 h) [
    | inl e ↦ some-not_none decl is_some (and_true _ _ e).0
    | inr (inl (_, option)) ↦ cc (rw is_some at option)
    | inr (inr (other, _, _, _)) ↦ cc (none_, other)
  ]

-- Where `is_sub` decides subtyping on a universe that has `None` and `Some` of the argument, and the
-- core declarations are of their kinds, `splitOnNone` returns from sound tables and leaves sound
-- tables. Of an option type it finds a none and the argument; of the `Some` type it finds no none and
-- the argument.
pub split_on_none_lem :
    (ds : Declarations) (c : TemplateConstraintScope) (core : CoreTypes)
    (U : TypeSignature → Type 0) (is_sub : TypeSignature → TypeSignature → Rel Bool) (n decl : ℕ)
    (altns : Option FullyQualifiedNamespace) (t : TypeSignature) (s : RelState)
    → ((t u : TypeSignature)
        → Within U t
        → Within U u
        → Decides ds c U (is_sub t u) (IsSubtype ds c t u))
    → core.none_type ≡ nominal n none no_types
    → is_none_decl (ds n) ≡ true
    → (ds core.some_decl).kind ≡ some_decl
    → (ds decl).kind ≡ option_decl
    → Within U (nominal n none no_types)
    → Within U (nominal core.some_decl none (ty t no_types))
    → StateOk ds c U s
    → ((s' : RelState) × (split_on_none is_sub ds core (nominal decl altns (ty t no_types)) s
          ≡ done (some (record { has_none = true; remain_some_t = some t })) s')
        × StateOk ds c U s')
      × ((s' : RelState) × (split_on_none is_sub ds core
              (nominal core.some_decl none (ty t no_types))
              s
            ≡ done (some (record { has_none = false; remain_some_t = some t })) s')
          × StateOk ds c U s')
unfolding split_on_none split_on_none_decomposed_set decompose_type decompose_nominal is_error
    every_option has_some scan_options take_some or_rest unset_or_same arg_at none_result
split_on_none_lem ds c core U is_sub n decl altns t s decides none_is none_ some_is option_is hn hs
      ok =
    let some_type : TypeSignature = nominal core.some_decl none (ty t no_types) in
    let (b1, s1, ran1, ok1, below1) =
      (decides (nominal n none no_types) (nominal n none no_types) hn hn).run s ok in
    let (b2, s2, ran2, ok2, below2) =
      (decides (nominal n none no_types) some_type hn hs).run s ok in
    let found : b1 ≡ true = below1.1 (none-below_none ds c n none_ none) in
    let missed : b2 ≡ false = elim (Bool-cases b2) [
      | inl hit ↦ absurd (
          none-not_below_some ds c n none_ none none core.some_decl (ty t no_types) some_is
            (below2.0 hit))
      | inr miss ↦ miss
    ] in
    let is_some : has_some (ds core.some_decl).kind ≡ true = rw some_is refl in
    let no_some : has_some (ds n).kind ≡ false = none-has_no_some (ds n) none_ in
    (
      (s1, rw (option_is, none_is, none_, no_some, is_some, none_is, ran1, found) refl, ok1),
      (s2, rw (some_is, is_some, none_is, ran2, missed) refl, ok2),
    )

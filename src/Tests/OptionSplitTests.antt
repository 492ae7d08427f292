-- ===== src/Tests/OptionSplitTests.antt =====
-- `splitOnNone` of an option and of a `Some` whose argument is `None`. No two of these types are in
-- the relation but by being the same, so that equality decides it.
use bosque_core.Prelude.{ℕ, zero, suc, Bool, true, false, ◌≡◌, refl, some, none, [], ◌∷◌, inl, inr}
use bosque_core.Types.Syntax.{TypeSignature, nominal, ty, no_types}
use bosque_core.Assembly.{DeclKind, Declarations, some_decl, option_decl, primitive_entity, entity}
use bosque_core.Relations.Outcome.{RelState, done, Rel, pure}
use bosque_core.Relations.Same.Spec.{same}
use bosque_core.Relations.Same.Memoized.{Within}
use bosque_core.Relations.Provides.{
  resolve_direct_provides_decls, provided_by, provided_each,
  resolve_template_as_needed_for_name_lookup,
}
use bosque_core.Relations.Subtype.{
  is_none_decl, is_primitive_entity, is_option_type, is_option_decl, provided_types,
}
use bosque_core.Relations.Subtype.Spec.{IsSubtype, IsSubtype-iff, Widens, StateOk}
use bosque_core.Relations.Subtype.Decides.{Decides, Decides-pure}
use bosque_core.Relations.Split.{CoreTypes}
use bosque_core.Relations.OptionSplit.{split_on_none}
use bosque_core.Relations.OptionSplit.Decomposed.{split_on_none_lem}
use bosque_core.Tests.SubtypeTests.{no_constraints, no_answers, Within-holds}

abbrev kind_of : ℕ → DeclKind
kind_of zero = primitive_entity
kind_of (suc zero) = some_decl
kind_of (suc (suc zero)) = option_decl
kind_of _ = entity

abbrev option_decls : Declarations
option_decls n = record {
  kind = kind_of n;
  attributes = [];
  ns = record { ns = "Core" ∷ [] };
  name = "None";
  terms = [];
  provides = [];
}

abbrev none_type : TypeSignature
none_type = nominal 0 none no_types

abbrev some_type : TypeSignature
some_type = nominal 1 none (ty none_type no_types)

abbrev option_core : CoreTypes
option_core = record { some_decl = 1; ok_decl = 3; fail_decl = 4; none_type = none_type }

abbrev part : Bool → TypeSignature
part true = none_type
part false = some_type

abbrev IsPart : TypeSignature → Type 0
IsPart t = (b : Bool) × (t ≡ part b)

abbrev same_type : TypeSignature → TypeSignature → Rel Bool
same_type t u = pure (same t u)

part-Widens : (a b : Bool) → Widens option_decls no_constraints (part a) (part b) → ⊥
unfolding is_none_decl is_primitive_entity is_option_type is_option_decl provided_types
    resolve_direct_provides_decls provided_by provided_each
    resolve_template_as_needed_for_name_lookup
part-Widens true true (inl (_, option)) = cc
part-Widens true false (inl (_, option)) = cc
part-Widens true _ (inr (other, _, _, _)) = cc
part-Widens false _ (inl (none_, _)) = cc
part-Widens false _ (inr (_, _, there, _)) = absurd there

same_type-Decides :
    (t u : TypeSignature)
    → Within IsPart t
    → Within IsPart u
    → Decides option_decls no_constraints IsPart
        (same_type t u)
        (IsSubtype option_decls no_constraints t u)
same_type-Decides t u ht hu = Decides-pure option_decls no_constraints IsPart (same t u) (
  λ e. (IsSubtype-iff option_decls no_constraints t u).0 (inl e),
  λ h. elim ((IsSubtype-iff option_decls no_constraints t u).1 h) [
    | inl e ↦ e
    | inr w ↦
        let (a, ea) = Within-holds IsPart t ht in
        let (b, eb) = Within-holds IsPart u hu in absurd (part-Widens a b (rw (ea, eb) at w))
  ],
)

split_on_none_lem_example :
    ((s' : RelState) × (split_on_none same_type option_decls option_core
          (nominal 2 none (ty none_type no_types))
          no_answers
        ≡ done (some (record { has_none = true; remain_some_t = some none_type })) s')
      × StateOk option_decls no_constraints IsPart s')
    × ((s' : RelState) × (split_on_none same_type option_decls option_core some_type no_answers
          ≡ done (some (record { has_none = false; remain_some_t = some none_type })) s')
        × StateOk option_decls no_constraints IsPart s')
unfolding is_none_decl is_primitive_entity
split_on_none_lem_example =
    split_on_none_lem option_decls no_constraints option_core IsPart same_type 0 2 none none_type
      no_answers same_type-Decides refl refl refl refl ((true, refl), tt)
      ((false, refl), (((true, refl), tt), tt)) (tt, tt)

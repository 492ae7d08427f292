-- ===== src/Relations/Same/Spec.antt =====
-- The relation that `areSameTypes` computes: equality of signatures but for the alternative
-- namespaces, the recursive annotations and the parameter names; no format string is the same as any.
use bosque_core.Prelude.{Bool, true, false, ◌==◌, nat_eq, ◌&&◌}
use bosque_core.Types.Syntax.{
  TypeSignature, void, template, nominal, elist, lambda, TypeSignatures, no_types, ty, Params,
  no_params, param,
}
use bosque_core.Relations.Same.{name_eq, bool_eq}

unfoldable mutual
  pub same : TypeSignature → TypeSignature → Bool
  same void void = true
  same (template a) (template b) = a == b
  same (nominal d alt1 as1) (nominal e alt2 as2) = nat_eq d e && same_entries as1 as2
  same (elist es1) (elist es2) = same_entries es1 es2
  same (lambda r1 n1 ps1 res1) (lambda r2 n2 ps2 res2) =
      name_eq n1 n2 && (same_params ps1 ps2 && same res1 res2)
  same t1 t2 = false

  pub same_entries : TypeSignatures → TypeSignatures → Bool
  same_entries no_types no_types = true
  same_entries (ty t ts) (ty u us) = same t u && same_entries ts us
  same_entries ts us = false

  pub same_params : Params → Params → Bool
  same_params no_params no_params = true
  same_params (param n t r s ps) (param m u r' s' qs) =
      bool_eq r r' && bool_eq s s' && (same t u && same_params ps qs)
  same_params ps qs = false

-- A signature that `areSameTypes` accepts at every place that it looks at, and no format string.
abbrev mutual
  pub IsComparable : TypeSignature → Type 0
  IsComparable void = Unit
  IsComparable (template name) = Unit
  IsComparable (nominal d alt ts) = AreComparable ts
  IsComparable (elist ts) = AreComparable ts
  IsComparable (lambda r n ps t) = AreComparableParams ps × IsComparable t
  IsComparable _ = ⊥

  pub AreComparable : TypeSignatures → Type 0
  AreComparable no_types = Unit
  AreComparable (ty t ts) = IsComparable t × AreComparable ts

  pub AreComparableParams : Params → Type 0
  AreComparableParams no_params = Unit
  AreComparableParams (param n t r s ps) = IsComparable t × AreComparableParams ps

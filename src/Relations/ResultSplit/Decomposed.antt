-- ===== src/Relations/ResultSplit/Decomposed.antt =====
-- What `splitOnOk` finds in a result type.
use bosque_core.Prelude.{ℕ, ◌≡◌, refl, ◌∙◌, Option, some}
use bosque_core.Types.Syntax.{FullyQualifiedNamespace, ty, no_types, TypeSignature, nominal}
use bosque_core.Assembly.{ok_decl, fail_decl, result_decl, Declarations}
use bosque_core.Relations.Outcome.{RelState, done}
use bosque_core.Relations.Same.Spec.{IsComparable}
use bosque_core.Relations.Same.Memoized.{Within, Faithful, MemoOk}
use bosque_core.Relations.Same.Correct.{are_same_types_lem}
use bosque_core.Relations.Same.Erasure.{same_self}
use bosque_core.Relations.Provides.{arg_at}
use bosque_core.Relations.Split.{CoreTypes, decompose_nominal, decompose_type, is_error}
use bosque_core.Relations.ResultSplit.{
  is_result_decl, every_result, ok_flags, unset_or_same, scan_parts, ok_result,
  split_on_ok_decomposed_set, split_on_ok,
}

-- On a universe whose keys tell apart what the relation tells apart, where the core declarations `Ok` and
-- `Fail` are of their kinds, `splitOnOk` of a result type returns from any sound table when both
-- arguments are comparable. The overlap is the first argument and the rest is the second.
pub split_on_ok_lem :
    (ds : Declarations) (core : CoreTypes) (U : TypeSignature → Type 0) (decl : ℕ)
    (altns : Option FullyQualifiedNamespace) (t e : TypeSignature) (s : RelState)
    → Faithful ds U
    → (ds decl).kind ≡ result_decl
    → (ds core.ok_decl).kind ≡ ok_decl
    → (ds core.fail_decl).kind ≡ fail_decl
    → Within U t
    → Within U e
    → IsComparable t
    → IsComparable e
    → MemoOk ds U s.equal
    → (s' : RelState) × (split_on_ok ds core (nominal decl altns (ty t (ty e no_types))) s
        ≡ done (some (record { overlap_ok_t = some t; remain_err_e = some e })) s')
      × MemoOk ds U s'.equal
      × (s'.subtype ≡ s.subtype)
unfolding split_on_ok split_on_ok_decomposed_set decompose_type decompose_nominal is_error
    every_result is_result_decl scan_parts unset_or_same arg_at ok_flags ok_result
split_on_ok_lem ds core U decl altns t e s faithful result ok fails ht he comparable_t comparable_e
      h =
    let (s1, ran1, ok1, kept1) = are_same_types_lem ds U faithful t t s ht ht h in
    let (s2, ran2, ok2, kept2) = are_same_types_lem ds U faithful e e s1 he he ok1 in
    (
      s2,
      rw (result, ok, fails, ran1, same_self t comparable_t, ran2, same_self e comparable_e) refl,
      ok2,
      kept2 ∙ kept1,
    )

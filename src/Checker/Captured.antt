-- ===== src/Checker/Captured.antt =====
-- A binder that refines a variable of an enclosing function: the report of `checkFlowRebinder` and
-- the exception of the merge after it, in src/frontend/checker.ts.
use bosque_core.Prelude.{ℕ, true, ◌≡◌, refl, none, some, List, Option-cases, inl, inr}
use bosque_core.Types.Syntax.{TypeSignature}
use bosque_core.CheckerEnv.Syntax.{RefinedType, TypeEnvironment}
use bosque_core.CheckerEnv.Operations.{resolve_local_var_info_from_src_name}
use bosque_core.CheckerEnv.Merge.{
  BinderInfo, slice_one, merge_environments_simple, merge_environments_opt_binder_flow,
}
use bosque_core.Checker.Syntax.{ITest, IfTest}
use bosque_core.Checker.Report.{Checked, threw, checked, ◌>>=◌, or_throw, asked, Splits, Checks}
use bosque_core.Checker.Variables.{or_type}
use bosque_core.Checker.Flow.{
  Run, check_flow_rebinder, check_bound, check_itest, check_if_bound, check_if, check_if_else_bound,
  check_if_else,
}

bind-threw {ℓ κ} :
    {A : Type ℓ} {B : Type κ} (m : Checked A) (f : A → Checked B)
    → ((a : A) → f a ≡ threw)
    → (m >>= f) ≡ threw
bind-threw threw f h = refl
bind-threw (checked errs a) f h = rw (h a) refl

merge-threw :
    (e : TypeEnvironment) (b : BinderInfo) (t : RefinedType) (es : List TypeEnvironment)
    → b.refineonfollow ≡ true
    → resolve_local_var_info_from_src_name e (slice_one b.srcname) ≡ none
    → or_throw (merge_environments_opt_binder_flow e b t es) ≡ threw
unfolding merge_environments_opt_binder_flow or_throw
merge-threw e b t es refines absent = elim (Option-cases (merge_environments_simple e es)) [
  | inl stuck ↦ rw (stuck, merge_environments_opt_binder_flow) refl
  | inr (m, merged) ↦
      rw (merged, merge_environments_opt_binder_flow)
        (rw (refines, merge_environments_opt_binder_flow)
          (rw (absent, merge_environments_opt_binder_flow) refl))
]

-- Where a binder refines after the statement and its variable is none of the environment's own, an
-- `if` with an `ITest` and that binder raises an exception, whatever its branch does, and so does an
-- `if` with an `else`: `checkFlowRebinder` reports the variable and returns, and the merge reads a
-- property of undefined.
pub check_if-threw :
    (c : Checks) (line : ℕ) (cond : IfTest) (itest : ITest) (b : BinderInfo) (bline fline : ℕ)
    (run run_false : Run) (env : TypeEnvironment)
    → cond.itestopt ≡ some itest
    → b.refineonfollow ≡ true
    → resolve_local_var_info_from_src_name env (slice_one b.srcname) ≡ none
    → (check_if c line cond (some b) bline run env ≡ threw)
      × (check_if_else c line cond (some b) bline fline run run_false env ≡ threw)
unfolding check_if check_if_else check_if_bound check_if_else_bound
check_if-threw c line cond itest b bline fline run run_false env tests refines absent =
    let rebinds = check_flow_rebinder line b (slice_one b.srcname) env in
    let asks = asked (c.check_expression env cond.exp none) in
    let splits_of : TypeSignature → Checked Splits = λ t. check_itest c line env cond.exp t itest in
    (
      rw (tests, check_if)
          (bind-threw asks _ (λ t. bind-threw (splits_of t) _ (λ splits.
            bind-threw (check_bound b (or_type splits.ttrue t) bline run env) _
              (λ _. bind-threw rebinds _ (λ _. merge-threw env b _ _ refines absent))))),
      rw (tests, check_if_else)
          (bind-threw asks _ (λ t. bind-threw (splits_of t) _ (λ splits.
            bind-threw (check_bound b (or_type splits.ttrue t) bline run env) _ (λ _.
              bind-threw (check_bound b (or_type splits.tfalse t) fline run_false env) _
                (λ _. bind-threw rebinds _ (λ _. merge-threw env b _ _ refines absent)))))),
    )

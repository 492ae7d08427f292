-- ===== src/Checker/Sound/Returns.antt =====
-- The statements that return or test are sound for their paths.
use bosque_core.Prelude.{ℕ, String, true, false, ◌≡◌, refl, ap, Option, List, [], ◌∷◌}
use bosque_core.Types.Syntax.{TypeSignature}
use bosque_core.CheckerEnv.Syntax.{
  EnvFields, Frame, TypeInferContext, simple, elist_style, TypeEnvironment, fields,
}
use bosque_core.CheckerEnv.Operations.{set_return_flow, set_dead_flow}
use bosque_core.CheckerEnv.Extends.{
  Extends, Extends-refl, Extends-set_return_flow, Extends-set_dead_flow, fields-rebuild,
}
use bosque_core.Checker.Syntax.{Expression}
use bosque_core.Checker.Report.{Checked, pure, Checks}
use bosque_core.Checker.Variables.{is_error, next_infer}
use bosque_core.Checker.Flow.{
  check_return_void, check_return_single, check_return_values, check_return_multi, check_condition,
  check_debug, check_void_ref_call,
}
use bosque_core.Checker.Paths.{
  falls, returns, aborts, ControlPath, End, ends_at, targets, assigns, may_fall,
}
use bosque_core.Checker.Sound.Ensures.{
  Ensures, Runs, Ensures-weaken, Ensures-map, Ensures-then, Ensures-pure, Ensures-if, Runs-asked,
  Runs-check_error, Runs-report_error,
}
use bosque_core.Checker.Sound.Keeps.{normal, IsSound, Keeps-IsSound}
use bosque_core.Checker.Sound.Ready.{IsReady}
use bosque_core.Checker.Sound.Simple.{Assigns}
use bosque_core.Checker.Sound.Blocks.{IsSoundRun}
use bosque_core.Checker.Sound.Branches.{IsSound-falls, IsSound-stays}

module _ (args : Frame) where
  -- The result of a run that is sound for the paths.
  abbrev pub Sound : Type 0 → List ControlPath → TypeEnvironment → Checked TypeEnvironment → Type 0
  Sound Ok ps e m = Ensures (Ok × IsReady args e) (Extends e) (IsSound ps e) m

  pub Assigns-Sound :
      {Ok : Type 0} (names : List String) {e : TypeEnvironment} {m : Checked TypeEnvironment}
      → Assigns args (targets names) e m
      → Sound Ok (assigns names) e m
  Assigns-Sound names h =
      Ensures-weaken (λ ok. ok.1) (Ensures-map (λ a x. x) (λ a _. Keeps-IsSound names) h)

  -- An environment without normal flow is sound for a path that does not fall through.
  pub IsSound-ends :
      (end : End) {e e' : TypeEnvironment}
      → may_fall (ends_at end ∷ []) ≡ false
      → normal e ≡ true
      → normal e' ≡ false
      → IsSound (ends_at end ∷ []) e e'
  IsSound-ends end h n stop = record {
    flows = λ through. cc;
    starts = λ _. n;
    defines = λ go i name there d. cc;
  }

  pub returned-Sound :
      {Ok : Type 0} (e : TypeEnvironment)
      → normal e ≡ true
      → Sound Ok (ends_at returns ∷ []) e (pure (set_return_flow e))
  unfolding set_return_flow
  returned-Sound e n =
      Ensures-pure _ (Extends-set_return_flow e)
        (IsSound-ends returns refl n (ap (λ (f : EnvFields). f.normalflow) (fields-rebuild e _)))

  pub aborted-Sound :
      {Ok : Type 0} (e : TypeEnvironment)
      → normal e ≡ true
      → Sound Ok (ends_at aborts ∷ []) e (pure (set_dead_flow e))
  unfolding set_dead_flow
  aborted-Sound e n =
      Ensures-pure _ (Extends-set_dead_flow e)
        (IsSound-ends aborts refl n (ap (λ (f : EnvFields). f.normalflow) (fields-rebuild e _)))

  pub check_return_void-Sound :
      {Ok : Type 0} (line : ℕ) → IsSoundRun args Ok (ends_at returns ∷ []) (check_return_void line)
  unfolding check_return_void
  check_return_void-Sound line e n =
      Ensures-then (Runs-check_error line _ _) (λ _. returned-Sound e n)

  pub check_return_single-Sound :
      {Ok : Type 0} (c : Checks) (line : ℕ) (value : Expression)
      → IsSoundRun args Ok (ends_at returns ∷ []) (check_return_single c line value)
  unfolding check_return_single
  check_return_single-Sound c line value e n =
      Ensures-then (Runs-asked _)
        (λ _. Ensures-then (Runs-check_error line _ _) (λ _. returned-Sound e n))

  check_return_values-Runs :
      {Ok : Type 0} (c : Checks) (line : ℕ) (e : TypeEnvironment)
      (rtypes : List (Option TypeSignature)) (values : List Expression)
      → Runs Ok (check_return_values c line e rtypes values)
  unfolding check_return_values
  check_return_values-Runs c line e rtypes [] = Ensures-pure true tt tt
  check_return_values-Runs c line e rtypes (value ∷ values) = Ensures-then (Runs-asked _) (λ _.
      Ensures-then (Runs-check_error line _ _)
        (λ _. check_return_values-Runs c line e (next_infer rtypes).1 values))

  return_multi_of :
      {Ok : Type 0} (c : Checks) (line : ℕ) (values : List Expression) (e : TypeEnvironment)
      → normal e ≡ true
      → (infer : TypeInferContext) → (fields e).infer_return ≡ infer
      → Sound Ok (ends_at returns ∷ []) e (check_return_multi c line values e)
  unfolding check_return_multi
  return_multi_of c line values e n (simple t) infers =
      rw (infers, check_return_multi)
        (Ensures-then (Runs-report_error line _) (λ _. returned-Sound e n))
  return_multi_of c line values e n (elist_style rtypes) infers =
      rw (infers, check_return_multi)
        (Ensures-then (Runs-check_error line _ _) (λ _.
          Ensures-then (check_return_values-Runs c line e rtypes values) (λ _. returned-Sound e n)))

  pub check_return_multi-Sound :
      {Ok : Type 0} (c : Checks) (line : ℕ) (values : List Expression)
      → IsSoundRun args Ok (ends_at returns ∷ []) (check_return_multi c line values)
  check_return_multi-Sound c line values e n = return_multi_of c line values e n _ refl

  -- A statement that only reports keeps the environment.
  stays-Sound : {Ok : Type 0} (e : TypeEnvironment) → Sound Ok (ends_at falls ∷ []) e (pure e)
  stays-Sound e = Ensures-pure e (Extends-refl e) (IsSound-falls e)

  pub check_condition-Sound :
      {Ok : Type 0} (c : Checks) (line : ℕ) (cond : Expression)
      → IsSoundRun args Ok (ends_at falls ∷ ends_at aborts ∷ []) (check_condition c line cond)
  unfolding check_condition
  check_condition-Sound c line cond e n =
      let may_abort : IsSound (ends_at falls ∷ ends_at aborts ∷ []) e e = IsSound-stays _ e in
      Ensures-then (Runs-asked _) (λ etype.
        Ensures-if (is_error etype) (λ _. Ensures-pure e (Extends-refl e) may_abort)
          (λ _.
            Ensures-then (Runs-check_error line _ _)
              (λ _. Ensures-pure e (Extends-refl e) may_abort)))

  pub check_debug-Sound :
      {Ok : Type 0} (c : Checks) (value : Expression)
      → IsSoundRun args Ok (ends_at falls ∷ []) (check_debug c value)
  unfolding check_debug
  check_debug-Sound c value e n = Ensures-then (Runs-asked _) (λ _. stays-Sound e)

  pub check_void_ref_call-Sound :
      {Ok : Type 0} (c : Checks) (line : ℕ) (exp : Expression)
      → IsSoundRun args Ok (ends_at falls ∷ []) (check_void_ref_call c line exp)
  unfolding check_void_ref_call
  check_void_ref_call-Sound c line exp e n =
      Ensures-then (Runs-asked _)
        (λ _. Ensures-then (Runs-check_error line _ _) (λ _. stays-Sound e))

-- ===== src/Checker/Sound/Choices.antt =====
-- The statements with any number of branches are sound for their paths.
use bosque_core.Prelude.{
  ℕ, true, ◌≡◌, Option, none, some, List, [], ◌∷◌, ◌++◌, All, Bool-cases, inl, inr,
}
use bosque_core.Types.Syntax.{TypeSignature}
use bosque_core.CheckerEnv.Syntax.{Frame, TypeEnvironment}
use bosque_core.CheckerEnv.Operations.{push_new_local_binder_scope}
use bosque_core.CheckerEnv.Merge.{BinderInfo}
use bosque_core.CheckerEnv.Extends.{KeepsLocals}
use bosque_core.Checker.Syntax.{Expression}
use bosque_core.Checker.Report.{pure, Checks}
use bosque_core.Checker.Flow.{Run}
use bosque_core.Checker.Statements.{
  Flows, with_branch, merge_flows, in_binder, check_elif, check_literal, check_case, check_switch,
}
use bosque_core.Checker.Paths.{aborts, ControlPath, ends_at}
use bosque_core.Checker.Sound.Ensures.{
  Ensures, Runs, Ensures-weaken, Ensures-map, Ensures-bind, Ensures-then, Ensures-pure, Runs-asked,
  Runs-check_error, Runs-report_error,
}
use bosque_core.Checker.Sound.Keeps.{normal}
use bosque_core.Checker.Sound.Ready.{IsReady}
use bosque_core.Checker.Sound.Blocks.{IsSoundRun, IsReady-entered, popped-Ensures}
use bosque_core.Checker.Sound.Branches.{
  AreSound, AreSound-nil, AreSound-cons, AreSound-fewer, IsSound-aborts,
}
use bosque_core.Checker.Sound.Merges.{merge-Ensures}

module _ (args : Frame) where
  -- The branches raise nothing where `Ok` holds, and are sound for the paths `ps` in all.
  abbrev pub AreSoundFlows : Type 0 → List ControlPath → Flows → Type 0
  AreSoundFlows Ok ps flows =
      (e : TypeEnvironment)
      → normal e ≡ true
      → Ensures (Ok × IsReady args e) (All (KeepsLocals e)) (AreSound ps e) (flows e)

  pub no_flows-AreSound :
      {Ok : Type 0} (e : TypeEnvironment)
      → Ensures Ok (All (KeepsLocals e)) (AreSound [] e) (pure [])
  no_flows-AreSound e = Ensures-pure [] tt (AreSound-nil e)

  pub with_branch-AreSound :
      (S T : Type 0) (ps qs : List ControlPath) (run : Run) (rest : Flows)
      → IsSoundRun args S ps run
      → AreSoundFlows T qs rest
      → AreSoundFlows (S × T) (ps ++ qs) (with_branch run rest)
  unfolding with_branch
  with_branch-AreSound S T ps qs run rest sound sounds e n =
      Ensures-bind (Ensures-weaken (λ o. (o.0.0, o.1)) (sound e n)) (λ b ext.
        Ensures-bind (Ensures-weaken (λ o. (o.0.1, o.1)) (sounds e n)) (λ es kept.
          Ensures-pure (b ∷ es) (ext.locals, kept) (λ more s. AreSound-cons ps qs n s more)))

  pub merge_flows-Sound :
      (S : Type 0) (ps : List ControlPath) (flows : Flows)
      → AreSoundFlows S ps flows
      → IsSoundRun args S ps (merge_flows flows)
  unfolding merge_flows
  merge_flows-Sound S ps flows sounds e n =
      Ensures-bind (sounds e n) (λ es kept. merge-Ensures ps e es n kept)

  pub check_elif-AreSound :
      (c : Checks) (cond : Expression) (S T : Type 0) (ps qs : List ControlPath) (run : Run)
      (rest : Flows)
      → IsSoundRun args S ps run
      → AreSoundFlows T qs rest
      → AreSoundFlows (S × T) (ps ++ qs) (check_elif c cond run rest)
  unfolding check_elif
  check_elif-AreSound c cond S T ps qs run rest sound sounds e n = Ensures-then (Runs-asked _) (λ _.
      Ensures-then (Runs-check_error cond.line _ _)
        (λ _. with_branch-AreSound S T ps qs run rest sound sounds e n))

  check_literal-Runs :
      {Ok : Type 0} (c : Checks) (sval : Expression) (ctype : TypeSignature) (lval : Expression)
      (e : TypeEnvironment)
      → Runs Ok (check_literal c sval ctype lval e)
  unfolding check_literal
  check_literal-Runs c sval ctype lval e = Ensures-then (Runs-asked _) (λ littype.
      elim (Bool-cases (c.is_key_type littype)) [
        | inl is_key ↦
            rw (is_key, check_literal)
              (Ensures-then (Runs-asked _) (λ is_err. Runs-check_error lval.line is_err _))
        | inr no_key ↦ rw (no_key, check_literal) (Runs-report_error lval.line _)
      ])

  -- A choice with a literal.
  pub check_case-some-AreSound :
      (c : Checks) (line : ℕ) (sval : Expression) (ctype : TypeSignature) (lval : Expression)
      (after : ℕ) (S T : Type 0) (ps qs : List ControlPath) (run : Run) (rest : Flows)
      → IsSoundRun args S ps run
      → AreSoundFlows T qs rest
      → AreSoundFlows (S × T) (ps ++ qs) (check_case c line sval ctype (some lval) after run rest)
  unfolding check_case
  check_case-some-AreSound c line sval ctype lval after S T ps qs run rest sound sounds e n =
      Ensures-then (check_literal-Runs c sval ctype lval e)
        (λ _. with_branch-AreSound S T ps qs run rest sound sounds e n)

  -- A wildcard, whatever comes after it.
  pub check_case-none-AreSound :
      (c : Checks) (line : ℕ) (sval : Expression) (ctype : TypeSignature) (after : ℕ) (S : Type 0)
      (ps : List ControlPath) (run : Run) (rest : Flows)
      → IsSoundRun args S ps run
      → AreSoundFlows S ps (check_case c line sval ctype none after run rest)
  unfolding check_case
  check_case-none-AreSound c line sval ctype after S ps run rest sound e n =
      Ensures-then (Runs-check_error line _ _) (λ _.
        Ensures-weaken (λ o. ((o.0, tt), o.1))
          (Ensures-map (λ a x. x) (λ es _. AreSound-fewer ps [])
            (with_branch-AreSound S Unit ps [] run _ sound (λ e' _. no_flows-AreSound e') e n)))

  pub check_switch-Sound :
      (c : Checks) (line : ℕ) (sval : Expression) (choices : ℕ) (S : Type 0) (ps : List ControlPath)
      (flows : TypeSignature → Flows)
      → ((ctype : TypeSignature) → AreSoundFlows S ps (flows ctype))
      → IsSoundRun args S (ends_at aborts ∷ ps) (check_switch c line sval choices flows)
  unfolding check_switch
  check_switch-Sound c line sval choices S ps flows sounds e n =
      Ensures-then (Runs-asked _) (λ ctype. Ensures-then (Runs-check_error line _ _) (λ _.
        Ensures-map (λ a x. x) (λ m _. IsSound-aborts ps)
          (merge_flows-Sound S ps (flows ctype) (sounds ctype) e n)))

  -- The binder's scope round a branch.
  pub in_binder-Sound :
      (S : Type 0) (ps : List ControlPath) (binder : Option BinderInfo) (t : TypeSignature)
      (run : Run)
      → IsSoundRun args S ps run
      → IsSoundRun args S ps (in_binder binder t run)
  unfolding in_binder push_new_local_binder_scope
  in_binder-Sound S ps none t run sound e n = sound e n
  in_binder-Sound S ps (some b) t run sound e n =
      Ensures-bind (Ensures-weaken (λ o. (o.0, IsReady-entered e _ o.1)) (sound _ n))
        (λ m ext. popped-Ensures ps e m _ ext)

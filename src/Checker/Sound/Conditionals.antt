-- ===== src/Checker/Sound/Conditionals.antt =====
-- The statements that branch in two are sound for their paths.
use bosque_core.Prelude.{
  ℕ, String, true, ◌≡◌, refl, sym, Option, some, List, [], ◌∷◌, ◌++◌, subst, Bool-cases,
  Option-cases, inl, inr,
}
use bosque_core.Types.Syntax.{TypeSignature}
use bosque_core.CheckerEnv.Syntax.{Frame, TypeEnvironment}
use bosque_core.CheckerEnv.Operations.{
  resolve_local_var_info_from_src_name, push_new_local_binder_scope,
}
use bosque_core.CheckerEnv.Merge.{BinderInfo, merge_environments_simple}
use bosque_core.CheckerEnv.Extends.{KeepsLocals}
use bosque_core.Checker.Syntax.{Expression, ITest, IfTest}
use bosque_core.Checker.Report.{◌>>=◌, or_throw, Splits, Checks}
use bosque_core.Checker.Assign.{not_refinable}
use bosque_core.Checker.Flow.{
  Run, guarded, check_flow_rebinder, check_bool_test, check_itest, check_bound, check_if_bound,
  check_if, check_both, check_if_else_bound, check_if_else,
}
use bosque_core.Checker.Paths.{falls, ControlPath, ends_at}
use bosque_core.Checker.Sound.Ensures.{
  Runs, Ensures-weaken, Ensures-map, Ensures-bind, Ensures-then, Ensures-pure, Runs-asked,
  Runs-check_error, Runs-report_error,
}
use bosque_core.Checker.Sound.Keeps.{normal, IsSound}
use bosque_core.Checker.Sound.Ready.{RefinesParam}
use bosque_core.Checker.Sound.Scopes.{entered, entered-has_at}
use bosque_core.Checker.Sound.Blocks.{IsSoundRun, IsSound-entered, IsReady-entered, popped-Ensures}
use bosque_core.Checker.Sound.Returns.{Sound}
use bosque_core.Checker.Sound.Branches.{
  AreSound, AreSound-nil, AreSound-cons, AreSound-fewer, IsSound-falls,
}
use bosque_core.Checker.Sound.Merges.{merge-Ensures, binder_flow-Ensures}

check_flow_rebinder-Runs :
    {Ok : Type 0} (line : ℕ) (b : BinderInfo) (name : String) (e : TypeEnvironment)
    → Runs Ok (check_flow_rebinder line b name e)
unfolding check_flow_rebinder
check_flow_rebinder-Runs line b name e = elim (Bool-cases b.refineonfollow) [
  | inr no_refine ↦ rw (no_refine, check_flow_rebinder) (Ensures-pure true tt tt)
  | inl refines ↦
      elim (Option-cases (not_refinable name (resolve_local_var_info_from_src_name e name))) [
        | inl fine ↦
            rw (refines, check_flow_rebinder)
              (rw (fine, check_flow_rebinder) (Ensures-pure true tt tt))
        | inr (msg, refused) ↦
            rw (refines, check_flow_rebinder)
              (rw (refused, check_flow_rebinder) (Runs-report_error line msg))
      ]
]

check_bool_test-Runs :
    {Ok : Type 0} (c : Checks) (exp : Expression) (binder : Option BinderInfo) (t : TypeSignature)
    → Runs Ok (check_bool_test c exp binder t)
unfolding check_bool_test
check_bool_test-Runs c exp binder t =
    Ensures-then (Runs-check_error exp.line _ _) (λ _. Runs-check_error exp.line _ _)

check_itest-Runs :
    {Ok : Type 0} (c : Checks) (line : ℕ) (e : TypeEnvironment) (exp : Expression)
    (t : TypeSignature) (itest : ITest)
    → Runs Ok (check_itest c line e exp t itest)
unfolding check_itest
check_itest-Runs c line e exp t itest = Ensures-then (Runs-asked _) (λ splits.
    Ensures-then (Runs-check_error exp.line _ _)
      (λ _. Ensures-then (Runs-check_error exp.line _ _) (λ _. Ensures-pure splits tt tt)))

pub guarded-normal :
    (line : ℕ) (run : Run) (e : TypeEnvironment) → normal e ≡ true → guarded line run e ≡ run e
unfolding guarded
guarded-normal line run e n = rw (n, guarded) refl

-- Two branches of one statement.
AreSound-two :
    (ps qs : List ControlPath) {e a b : TypeEnvironment}
    → normal e ≡ true
    → IsSound ps e a
    → IsSound qs e b
    → AreSound (ps ++ qs) e (a ∷ b ∷ [])
AreSound-two ps qs {e} n s t =
    AreSound-cons ps qs n s (AreSound-fewer qs [] (AreSound-cons qs [] n t (AreSound-nil e)))

pub IsSoundRun-weaken :
    {args : Frame} {Ok Ok' : Type 0} {ps : List ControlPath} {run : Run}
    → (Ok → Ok')
    → IsSoundRun args Ok' ps run
    → IsSoundRun args Ok ps run
IsSoundRun-weaken f sound e n = Ensures-weaken (λ o. (f o.0, o.1)) (sound e n)

module _ (args : Frame) (S : Type 0) where
  check_bound-Sound :
      (b : BinderInfo) (t : TypeSignature) (bline : ℕ) (ps : List ControlPath) (run : Run)
      → IsSoundRun args S ps run
      → IsSoundRun args S ps (check_bound b t bline run)
  unfolding check_bound push_new_local_binder_scope
  check_bound-Sound b t bline ps run sound e n =
      Ensures-bind
        (Ensures-weaken (λ ok. (ok.0, IsReady-entered e _ ok.1))
          (subst (Sound args S ps _) (sym (guarded-normal bline run _ n)) (sound _ n)))
        (λ c ext. popped-Ensures ps e c _ ext)

  -- The merge of the environment with a branch.
  merged_once-Sound :
      (ps : List ControlPath) (run : Run)
      → IsSoundRun args S ps run
      → IsSoundRun args S
          (ends_at falls ∷ ps)
          (λ e. run e >>= (λ b. or_throw (merge_environments_simple e (e ∷ b ∷ []))))
  merged_once-Sound ps run sound e n = Ensures-bind (sound e n) (λ b ext.
      Ensures-map (λ a x. x)
        (λ a _ merge s. merge (AreSound-two (ends_at falls ∷ []) ps n (IsSound-falls e) s))
        (merge-Ensures (ends_at falls ∷ ps) e _ n (λ i name h. h, (ext.locals, tt))))

  pub check_both-Sound :
      (ps qs : List ControlPath) (run_true run_false : Run)
      → IsSoundRun args S ps run_true
      → IsSoundRun args S qs run_false
      → IsSoundRun args S (ps ++ qs) (check_both run_true run_false)
  unfolding check_both
  check_both-Sound ps qs run_true run_false on_true on_false e n =
      Ensures-bind (on_true e n) (λ a ext. Ensures-bind (on_false e n) (λ b ext'.
        Ensures-map (λ m x. x) (λ m _ merge t s. merge (AreSound-two ps qs n s t))
          (merge-Ensures (ps ++ qs) e _ n (ext.locals, (ext'.locals, tt)))))

  -- The scope of a binder as one more branch of the merge.
  bound_scope-IsSound :
      (e : TypeEnvironment) (b : BinderInfo) (t : TypeSignature)
      → IsSound (ends_at falls ∷ []) e (push_new_local_binder_scope e b.srcname t)
        × KeepsLocals e (push_new_local_binder_scope e b.srcname t)
  unfolding push_new_local_binder_scope
  bound_scope-IsSound e b t =
      (IsSound-entered e _ (IsSound-falls (entered e _)), entered-has_at e _)

  check_if_bound-Sound :
      (line : ℕ) (b : BinderInfo) (t : TypeSignature) (splits : Splits) (bline : ℕ)
      (ps : List ControlPath) (run : Run)
      → (S → RefinesParam args (some b))
      → IsSoundRun args S ps run
      → IsSoundRun args S (ends_at falls ∷ ps) (check_if_bound line b t splits bline run)
  unfolding check_if_bound
  check_if_bound-Sound line b t splits bline ps run refines sound e n =
      let (scope_sound, scope_kept) = bound_scope-IsSound e b _ in
      let once = ends_at falls ∷ [] in
      Ensures-bind (check_bound-Sound b _ bline ps run sound e n) (λ a ext.
        Ensures-then (check_flow_rebinder-Runs line b _ e) (λ _.
          Ensures-map (λ m x. x)
            (λ m _ merge s. merge (
              AreSound-fewer (ends_at falls ∷ ps) once (
                AreSound-cons once (ps ++ once) n (IsSound-falls e)
                  (AreSound-two ps once n s scope_sound))))
            (binder_flow-Ensures args (ends_at falls ∷ ps) e b _ _ (λ o. (refines o.0, o.1)) n
              (λ i name h. h, (ext.locals, (scope_kept, tt))))))

  pub check_if-Sound :
      (c : Checks) (line : ℕ) (cond : IfTest) (binder : Option BinderInfo) (bline : ℕ)
      (ps : List ControlPath) (run : Run)
      → (S → RefinesParam args binder)
      → IsSoundRun args S ps run
      → IsSoundRun args S (ends_at falls ∷ ps) (check_if c line cond binder bline run)
  unfolding check_if
  check_if-Sound c line cond binder bline ps run refines sound e n =
      let once = merged_once-Sound ps run sound e n in
      Ensures-then (Runs-asked _) (λ t. elim (Option-cases cond.itestopt) [
        | inl no_itest ↦
            rw (no_itest, check_if)
              (Ensures-then (check_bool_test-Runs c cond.exp binder t) (λ _. once))
        | inr (itest, some_itest) ↦
            rw (some_itest, check_if)
              (Ensures-then (check_itest-Runs c line e cond.exp t itest) (λ splits.
                elim (Option-cases binder) [
                  | inl unbound ↦ rw (unbound, check_if) once
                  | inr (b, bound) ↦
                      rw (bound, check_if)
                        (check_if_bound-Sound line b t splits bline ps run
                          (subst (λ o. S → RefinesParam args o) bound refines) sound e n)
                ]))
      ])

  check_if_else_bound-Sound :
      (line : ℕ) (b : BinderInfo) (t : TypeSignature) (splits : Splits) (tline fline : ℕ)
      (ps qs : List ControlPath) (run_true run_false : Run)
      → (S → RefinesParam args (some b))
      → IsSoundRun args S ps run_true
      → IsSoundRun args S qs run_false
      → IsSoundRun args S
          (ps ++ qs)
          (check_if_else_bound line b t splits tline fline run_true run_false)
  unfolding check_if_else_bound
  check_if_else_bound-Sound line b t splits tline fline ps qs run_true run_false refines on_true
        on_false e n =
      Ensures-bind (check_bound-Sound b _ tline ps run_true on_true e n) (λ a ext.
        Ensures-bind (check_bound-Sound b _ fline qs run_false on_false e n) (λ a' ext'.
          Ensures-then (check_flow_rebinder-Runs line b _ e) (λ _.
            Ensures-map (λ m x. x) (λ m _ merge s' s. merge (AreSound-two ps qs n s s'))
              (binder_flow-Ensures args (ps ++ qs) e b _ _ (λ o. (refines o.0, o.1)) n
                (ext.locals, (ext'.locals, tt))))))

  pub check_if_else-Sound :
      (c : Checks) (line : ℕ) (cond : IfTest) (binder : Option BinderInfo) (tline fline : ℕ)
      (ps qs : List ControlPath) (run_true run_false : Run)
      → (S → RefinesParam args binder)
      → IsSoundRun args S ps run_true
      → IsSoundRun args S qs run_false
      → IsSoundRun args S
          (ps ++ qs)
          (check_if_else c line cond binder tline fline run_true run_false)
  unfolding check_if_else
  check_if_else-Sound c line cond binder tline fline ps qs run_true run_false refines on_true
        on_false e n =
      let both = check_both-Sound ps qs run_true run_false on_true on_false e n in
      Ensures-then (Runs-asked _) (λ t. elim (Option-cases cond.itestopt) [
        | inl no_itest ↦
            rw (no_itest, check_if_else)
              (Ensures-then (check_bool_test-Runs c cond.exp binder t) (λ _. both))
        | inr (itest, some_itest) ↦
            rw (some_itest, check_if_else)
              (Ensures-then (check_itest-Runs c line e cond.exp t itest) (λ splits.
                elim (Option-cases binder) [
                  | inl unbound ↦ rw (unbound, check_if_else) both
                  | inr (b, bound) ↦
                      rw (bound, check_if_else)
                        (check_if_else_bound-Sound line b t splits tline fline ps qs run_true
                          run_false (subst (λ o. S → RefinesParam args o) bound refines) on_true
                          on_false e n)
                ]))
      ])

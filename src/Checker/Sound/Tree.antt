-- ===== src/Checker/Sound/Tree.antt =====
-- The checks of statements and bodies are sound for the paths through them.
use bosque_core.Prelude.{
  ℕ, true, ◌≡◌, refl, Option, none, some, List, [], ◌∷◌, ◌++◌, nat_eq, nat_eq_iff, append_assoc,
  sym, subst, arith,
}
use bosque_core.Types.Syntax.{TypeSignature}
use bosque_core.CheckerEnv.Syntax.{Frame}
use bosque_core.CheckerEnv.Extends.{Extends-refl, Extends-trans}
use bosque_core.CheckerEnv.Merge.{BinderInfo}
use bosque_core.Checker.Syntax.{
  Expression, Statement, statement, Tagged, error_statement, empty_statement, variable_declaration,
  variable_multi_declaration, variable_initialization, variable_multi_initialization,
  variable_assignment, variable_multi_assignment, variable_retype, return_void, return_single,
  return_multi, if_statement, if_else, if_elif_else, switch_statement, match_statement,
  abort_statement, assert_statement, validate_statement, debug_statement, void_ref_call, var_update,
  this_update, self_update, environment_update, environment_bracket, task_status, task_event_emit,
  task_yield, block_statement, Block, block, Statements, no_statements, next, CondFlow, no_conds,
  elif, SwitchFlow, no_cases, switch_case, MatchFlow, no_matches, match_case, match_length,
}
use bosque_core.Checker.Report.{Checks}
use bosque_core.Checker.Statements.{
  Flows, check_statement, check_tagged, check_block, check_statements, check_elifs, check_cases,
  check_matches,
}
use bosque_core.Checker.Paths.{
  ControlPath, paths, paths_tagged, paths_block, paths_all, paths_conds, paths_cases, paths_matches,
}
use bosque_core.Checker.Sound.Ensures.{
  raises, Ensures-weaken, Ensures-map, Ensures-bind, Ensures-pure,
}
use bosque_core.Checker.Sound.Ready.{
  IsReady-Extends, IsSupported, IsSupportedTag, IsSupportedBlock, AreSupported, IsSupportedConds,
  IsSupportedCases, IsSupportedMatches,
}
use bosque_core.Checker.Sound.Simple.{
  Assigns-pure, check_variable_declaration-Assigns, check_variable_multi_declaration-Assigns,
  check_variable_initialization-Assigns, check_variable_multi_initialization-Assigns,
}
use bosque_core.Checker.Sound.Assignments.{
  check_variable_assignment-Assigns, check_variable_multi_assignment-Assigns,
  check_variable_retype-Assigns, check_update-Assigns,
}
use bosque_core.Checker.Sound.Blocks.{IsSoundRun, check_block_with-IsSound}
use bosque_core.Checker.Sound.Branches.{AreSound-fewer, IsSound-falls}
use bosque_core.Checker.Sound.Returns.{
  Assigns-Sound, aborted-Sound, check_return_void-Sound, check_return_single-Sound,
  check_return_multi-Sound, check_condition-Sound, check_debug-Sound, check_void_ref_call-Sound,
}
use bosque_core.Checker.Sound.Conditionals.{check_if-Sound, check_if_else-Sound, IsSoundRun-weaken}
use bosque_core.Checker.Sound.Choices.{
  AreSoundFlows, no_flows-AreSound, with_branch-AreSound, merge_flows-Sound, check_elif-AreSound,
  check_case-some-AreSound, check_case-none-AreSound, check_switch-Sound,
}
use bosque_core.Checker.Sound.Matches.{
  AreSoundMatches, no_matches-AreSound, check_match_case-AreSound, check_match_wildcard-AreSound,
  check_match-Sound,
}
use bosque_core.Checker.Sound.Sequences.{IsSound-then, IsSoundStep, guarded-IsSoundStep}

AreSoundFlows-weaken :
    {args : Frame} {Ok Ok' : Type 0} {ps : List ControlPath} {flows : Flows}
    → (Ok → Ok')
    → AreSoundFlows args Ok' ps flows
    → AreSoundFlows args Ok ps flows
AreSoundFlows-weaken f sounds e n = Ensures-weaken (λ o. (f o.0, o.1)) (sounds e n)

-- Where no choice comes after, there are no paths of them.
no_matches_after :
    (flows : MatchFlow) → nat_eq (match_length flows) 0 ≡ true → paths_matches flows ≡ []
unfolding paths
no_matches_after no_matches h = refl
no_matches_after (match_case mtype b flows) h = absurd (omega (arith, (nat_eq_iff _ _).0 h))

mutual
  unfolding check_statement paths IsSupported

  statement-IsSoundStep :
      (c : Checks) (args : Frame) (s : Statement)
      → IsSoundStep args (IsSupported args s) (paths s) (check_statement c s)
  statement-IsSoundStep c args (statement line s) =
      guarded-IsSoundStep args _ _ line _ (tagged-IsSound c args line s)

  tagged-IsSound :
      (c : Checks) (args : Frame) (line : ℕ) (s : Tagged)
      → IsSoundRun args (IsSupportedTag args s) (paths_tagged s) (check_tagged c line s)
  tagged-IsSound c args line error_statement = λ e _. Assigns-Sound args [] (Assigns-pure args e)
  tagged-IsSound c args line empty_statement = λ e _. Assigns-Sound args [] (Assigns-pure args e)
  tagged-IsSound c args line (variable_declaration d) =
      λ e _. Assigns-Sound args [] (check_variable_declaration-Assigns args c d e)
  tagged-IsSound c args line (variable_multi_declaration decls) =
      λ e _. Assigns-Sound args [] (check_variable_multi_declaration-Assigns args c decls e)
  tagged-IsSound c args line (variable_initialization is_const d exp) = λ e _.
      Assigns-Sound args [] (check_variable_initialization-Assigns args c line is_const d exp e)
  tagged-IsSound c args line (variable_multi_initialization is_const decls init) = λ e _.
      Assigns-Sound args []
        (check_variable_multi_initialization-Assigns args c line is_const decls init e)
  tagged-IsSound c args line (variable_assignment name exp) = λ e _.
      Assigns-Sound args (name ∷ []) (check_variable_assignment-Assigns args c line name exp e)
  tagged-IsSound c args line (variable_multi_assignment names init) = λ e _.
      Assigns-Sound args names (check_variable_multi_assignment-Assigns args c line names init e)
  tagged-IsSound c args line (variable_retype name ttest) =
      λ e _. Assigns-Sound args [] (check_variable_retype-Assigns args c line name ttest e)
  tagged-IsSound c args line return_void = check_return_void-Sound args line
  tagged-IsSound c args line (return_single value) = check_return_single-Sound args c line value
  tagged-IsSound c args line (return_multi values) = check_return_multi-Sound args c line values
  tagged-IsSound c args line (if_statement cond binder b) =
      check_if-Sound args (IsSupportedTag args (if_statement cond binder b)) c line cond binder _ _
        _ (λ ok. ok.0) (IsSoundRun-weaken (λ ok. ok.1) (block-IsSound c args b))
  tagged-IsSound c args line (if_else cond binder b f) =
      check_if_else-Sound args (IsSupportedTag args (if_else cond binder b f)) c line cond binder _
        _ _ _ _ _ (λ ok. ok.0) (IsSoundRun-weaken (λ ok. ok.1) (block-IsSound c args b))
        (IsSoundRun-weaken (λ ok. ok.2) (block-IsSound c args f))
  tagged-IsSound c args line (if_elif_else conds f) =
      merge_flows-Sound args _ _ _ (conds-AreSound c args conds f (block-IsSound c args f))
  tagged-IsSound c args line (switch_statement sval flows) =
      check_switch-Sound args c line sval _ _ _ _ (cases-AreSound c args line sval flows)
  tagged-IsSound c args line (match_statement sval binder flows) =
      check_match-Sound args c line sval _ _ _ _ (matches-AreSound c args binder flows)
  tagged-IsSound c args line abort_statement = aborted-Sound args
  tagged-IsSound c args line (assert_statement cond) = check_condition-Sound args c line cond
  tagged-IsSound c args line (validate_statement cond) = check_condition-Sound args c line cond
  tagged-IsSound c args line (debug_statement value) = check_debug-Sound args c value
  tagged-IsSound c args line (void_ref_call exp) = check_void_ref_call-Sound args c line exp
  tagged-IsSound c args line (var_update vname vexp updates) =
      λ e _. Assigns-Sound args [] (check_update-Assigns args c line vname vexp updates e)
  tagged-IsSound c args line (this_update vname vexp updates) =
      λ e _. Assigns-Sound args [] (check_update-Assigns args c line vname vexp updates e)
  tagged-IsSound c args line self_update = λ e _. raises (λ ok. ok.0)
  tagged-IsSound c args line environment_update = λ e _. raises (λ ok. ok.0)
  tagged-IsSound c args line environment_bracket = λ e _. raises (λ ok. ok.0)
  tagged-IsSound c args line task_status = λ e _. raises (λ ok. ok.0)
  tagged-IsSound c args line task_event_emit = λ e _. raises (λ ok. ok.0)
  tagged-IsSound c args line task_yield = λ e _. raises (λ ok. ok.0)
  tagged-IsSound c args line (block_statement b) = block-IsSound c args b

  block-IsSound :
      (c : Checks) (args : Frame) (b : Block)
      → IsSoundRun args (IsSupportedBlock args b) (paths_block b) (check_block c b)
  block-IsSound c args (block line is_scoping body) =
      check_block_with-IsSound args _ _ is_scoping _ (λ e _. statements-IsSoundStep c args body e)

  pub statements-IsSoundStep :
      (c : Checks) (args : Frame) (body : Statements)
      → IsSoundStep args (AreSupported args body) (paths_all body) (check_statements c body)
  statements-IsSoundStep c args no_statements =
      λ e. Ensures-pure e (Extends-refl e) (IsSound-falls e)
  statements-IsSoundStep c args (next s body) = λ e.
      Ensures-bind (Ensures-weaken (λ ok. (ok.0.0, ok.1)) (statement-IsSoundStep c args s e))
        (λ m ext.
          Ensures-weaken (λ ok. (ok.0.1, IsReady-Extends ext ok.1))
            (Ensures-map (λ a. Extends-trans ext)
              (λ a _ t s'. IsSound-then (paths s) (paths_all body) ext s' t)
              (statements-IsSoundStep c args body m)))

  conds-AreSound :
      (c : Checks) (args : Frame) (conds : CondFlow) (f : Block)
      → IsSoundRun args (IsSupportedBlock args f) (paths_block f) (check_block c f)
      → AreSoundFlows args
          (IsSupportedConds args conds × IsSupportedBlock args f)
          (paths_conds conds ++ paths_block f)
          (check_elifs c conds (check_block c f))
  conds-AreSound c args no_conds f sound = λ e n.
      Ensures-weaken (λ ok. ((ok.0.1, tt), ok.1))
        (Ensures-map (λ a x. x) (λ es _. AreSound-fewer (paths_block f) [])
          (with_branch-AreSound args _ Unit _ [] _ _ sound (λ e' _. no_flows-AreSound args e') e n))
  conds-AreSound c args (elif cond b conds) f sound =
      subst
        (λ ps.
          AreSoundFlows args (IsSupportedConds args (elif cond b conds) × IsSupportedBlock args f)
            ps (check_elifs c (elif cond b conds) (check_block c f)))
        (sym (append_assoc (paths_block b) (paths_conds conds) (paths_block f)))
        (AreSoundFlows-weaken (λ ok. (ok.0.0, (ok.0.1, ok.1)))
          (check_elif-AreSound args c cond _ _ _ _ _ _ (block-IsSound c args b)
            (conds-AreSound c args conds f sound)))

  cases-AreSound :
      (c : Checks) (args : Frame) (line : ℕ) (sval : Expression) (flows : SwitchFlow)
      (ctype : TypeSignature)
      → AreSoundFlows args
          (IsSupportedCases args flows)
          (paths_cases flows)
          (check_cases c line sval flows ctype)
  cases-AreSound c args line sval no_cases ctype = λ e _. no_flows-AreSound args e
  cases-AreSound c args line sval (switch_case none b flows) ctype =
      AreSoundFlows-weaken (λ ok. ok.0)
        (check_case-none-AreSound args c line sval ctype _ _ _ _ _ (block-IsSound c args b))
  cases-AreSound c args line sval (switch_case (some lval) b flows) ctype =
      check_case-some-AreSound args c line sval ctype lval _ _ _ _ _ _ _ (block-IsSound c args b)
        (cases-AreSound c args line sval flows ctype)

  matches-AreSound :
      (c : Checks) (args : Frame) (binder : Option BinderInfo) (flows : MatchFlow)
      (eetype : TypeSignature)
      → AreSoundMatches args
          (IsSupportedMatches args flows)
          (paths_matches flows)
          (check_matches c binder flows eetype)
  matches-AreSound c args binder no_matches eetype = no_matches-AreSound args _
  matches-AreSound c args binder (match_case none b flows) eetype = λ ts e n.
      Ensures-weaken (λ ok. (ok.0.0, ok.1))
        (check_match_wildcard-AreSound args c eetype binder _ _ _ _ _ _ (block-IsSound c args b) ts
          e n)
  matches-AreSound c args binder (match_case (some mtype) b flows) eetype =
      check_match_case-AreSound args c eetype binder mtype _ _ _ _ _ _ _ _ (no_matches_after flows)
        (block-IsSound c args b) (matches-AreSound c args binder flows eetype)

-- ===== src/Checker/Sound/Ready.antt =====
-- Where the checks of a body raise no exception: the environment has a scope and the parameters of
-- the body, the statements are all implemented, and a binder that refines names a parameter.
use bosque_core.Prelude.{
  String, true, ◌≡◌, Option, none, some, List, [], ◌∷◌, length, arith, ◌<◌, Option-cases, inl, inr,
}
use bosque_core.CheckerEnv.Syntax.{Frame, TypeEnvironment, fields}
use bosque_core.CheckerEnv.Operations.{push_last, with_locals}
use bosque_core.CheckerEnv.Merge.{BinderInfo, slice_one}
use bosque_core.CheckerEnv.Extends.{has_name, Extends}
use bosque_core.Checker.Syntax.{
  Statement, statement, Tagged, if_statement, if_else, if_elif_else, switch_statement,
  match_statement, self_update, environment_update, environment_bracket, task_status,
  task_event_emit, task_yield, block_statement, Block, block, Statements, no_statements, next,
  CondFlow, no_conds, elif, SwitchFlow, no_cases, switch_case, MatchFlow, no_matches, match_case,
}

pub record IsReady (args : Frame) (e : TypeEnvironment) : Type 0 where
  pub scope : 0 < length (fields e).locals
  pub params : (name : String) → has_name name args ≡ true → has_name name (fields e).args ≡ true

pub IsReady-Extends :
    {args : Frame} {e e' : TypeEnvironment} → Extends e e' → IsReady args e → IsReady args e'
IsReady-Extends ext r = record {
  scope = omega (arith, ext.depth, r.scope);
  params = λ name h. ext.args name (r.params name h);
}

pub push_last-ne-none :
    (frames : List Frame) (vars : Frame) → 0 < length frames → push_last frames vars ≡ none → ⊥
unfolding push_last
push_last-ne-none [] vars h e = absurd (omega arith)
push_last-ne-none (frame ∷ []) vars h e = cc
push_last-ne-none (frame ∷ second ∷ rest) vars h e =
    elim (Option-cases (push_last (second ∷ rest) vars)) [
      | inl stuck ↦ push_last-ne-none (second ∷ rest) vars (omega arith) stuck
      | inr (tail, went) ↦ cc (rw went at e)
    ]

pub with_locals-ne-none :
    (e : TypeEnvironment) (vars : Frame)
    → 0 < length (fields e).locals
    → with_locals e (push_last (fields e).locals vars) ≡ none
    → ⊥
unfolding with_locals
with_locals-ne-none e vars h eq = elim (Option-cases (push_last (fields e).locals vars)) [
  | inl stuck ↦ push_last-ne-none (fields e).locals vars h stuck
  | inr (frames, went) ↦ cc (rw (went, with_locals) at eq)
]

-- A binder refines nothing, or a parameter.
abbrev pub RefinesParam : Frame → Option BinderInfo → Type 0
RefinesParam args none = Unit
RefinesParam args (some b) = b.refineonfollow ≡ true → has_name (slice_one b.srcname) args ≡ true

unfoldable mutual
  pub IsSupported : Frame → Statement → Type 0
  IsSupported args (statement line s) = IsSupportedTag args s

  pub IsSupportedTag : Frame → Tagged → Type 0
  IsSupportedTag args (if_statement cond binder b) =
      RefinesParam args binder × IsSupportedBlock args b
  IsSupportedTag args (if_else cond binder b f) =
      RefinesParam args binder × IsSupportedBlock args b × IsSupportedBlock args f
  IsSupportedTag args (if_elif_else conds f) = IsSupportedConds args conds × IsSupportedBlock args f
  IsSupportedTag args (switch_statement sval flows) = IsSupportedCases args flows
  IsSupportedTag args (match_statement sval binder flows) = IsSupportedMatches args flows
  IsSupportedTag args self_update = ⊥
  IsSupportedTag args environment_update = ⊥
  IsSupportedTag args environment_bracket = ⊥
  IsSupportedTag args task_status = ⊥
  IsSupportedTag args task_event_emit = ⊥
  IsSupportedTag args task_yield = ⊥
  IsSupportedTag args (block_statement b) = IsSupportedBlock args b
  IsSupportedTag args _ = Unit

  pub IsSupportedBlock : Frame → Block → Type 0
  IsSupportedBlock args (block line is_scoping body) = AreSupported args body

  pub AreSupported : Frame → Statements → Type 0
  AreSupported args no_statements = Unit
  AreSupported args (next s body) = IsSupported args s × AreSupported args body

  pub IsSupportedConds : Frame → CondFlow → Type 0
  IsSupportedConds args no_conds = Unit
  IsSupportedConds args (elif cond b conds) = IsSupportedBlock args b × IsSupportedConds args conds

  pub IsSupportedCases : Frame → SwitchFlow → Type 0
  IsSupportedCases args no_cases = Unit
  IsSupportedCases args (switch_case lval b flows) =
      IsSupportedBlock args b × IsSupportedCases args flows

  pub IsSupportedMatches : Frame → MatchFlow → Type 0
  IsSupportedMatches args no_matches = Unit
  IsSupportedMatches args (match_case mtype b flows) =
      IsSupportedBlock args b × IsSupportedMatches args flows

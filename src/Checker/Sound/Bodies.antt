-- ===== src/Checker/Sound/Bodies.antt =====
-- What a body that is checked without an error promises, and that the checks of a body return.
use bosque_core.Prelude.{
  ℕ, String, Bool, true, false, not, ◌&&◌, ◌≡◌, refl, ◌∙◌, ap, List, [], arith,
}
use bosque_core.Types.Syntax.{TypeSignature}
use bosque_core.CheckerEnv.Syntax.{TypeInferContext, Frame, TypeEnvironment, fields}
use bosque_core.CheckerEnv.Operations.{create_initial_std_env}
use bosque_core.CheckerEnv.Extends.{has_at}
use bosque_core.Checker.Syntax.{Statements, standard_body}
use bosque_core.Checker.Report.{TypeError, checked, Checks}
use bosque_core.Checker.Flow.{is_void}
use bosque_core.Checker.Statements.{check_statements, check_body_implementation}
use bosque_core.Checker.Paths.{paths_all, may_fall, all_define}
use bosque_core.Checker.Sound.Ensures.{
  Ensures, Ensures-bind, Ensures-map, Ensures-check_error, Ensures-clean, Ensures-returned,
}
use bosque_core.Checker.Sound.Keeps.{normal, defined_in}
use bosque_core.Checker.Sound.Ready.{IsReady, AreSupported}
use bosque_core.Checker.Sound.Tree.{statements-IsSoundStep}

-- Where statements are checked without an error, from an environment with normal flow: the flow
-- after them is normal if a path through them falls through; and if it is normal, each variable of
-- a scope round them that is defined after them was defined before or is assigned on every path
-- that falls through.
pub check_statements_lem :
    (c : Checks) (body : Statements) (env env' : TypeEnvironment)
    → normal env ≡ true
    → check_statements c body env ≡ checked [] env'
    → (may_fall (paths_all body) ≡ true → normal env' ≡ true)
      × ((i : ℕ) (name : String)
          → normal env' ≡ true
          → has_at (fields env).locals i name ≡ true
          → defined_in (fields env').locals i name ≡ true
          → all_define (paths_all body) (defined_in (fields env).locals i name) name ≡ true)
check_statements_lem c body env env' n eq =
    let (ext, s) = Ensures-clean (statements-IsSoundStep c [] body env) eq in
    (λ h. s.flows h n, λ i name go there d. s.defines go i name there d)

error_excluded :
    (is_void normal may : Bool)
    → is_void ≡ false
    → (not is_void && normal) ≡ false
    → (may ≡ true → normal ≡ true)
    → may ≡ false
error_excluded is_void normal false v e flows = refl
error_excluded is_void normal true v e flows = cc (rw (v, flows refl) at e)

-- The checks of a body with statements, in the environment of its parameters.
body-Ensures :
    (c : Checks) (args : Frame) (ret : TypeSignature) (infer : TypeInferContext) (line : ℕ)
    (body : Statements)
    → Ensures
        (AreSupported args body × IsReady args (create_initial_std_env args ret infer))
        (λ _. Unit)
        (λ _. is_void ret ≡ false → may_fall (paths_all body) ≡ false)
        (check_body_implementation c
          (standard_body line body)
          (create_initial_std_env args ret infer))
unfolding check_body_implementation create_initial_std_env
body-Ensures c args ret infer line body =
    Ensures-bind (statements-IsSoundStep c args body _) (λ e ext.
      Ensures-map (λ b x. x)
        (λ b _ no_error s not_void.
          error_excluded (is_void (fields e).decl_return_type) (normal e)
            (may_fall (paths_all body)) (ap is_void ext.result ∙ not_void) no_error
            (λ h. s.flows h refl))
        (Ensures-check_error line (not (is_void (fields e).decl_return_type) && normal e) _))

-- The environment of a body's parameters is ready.
initial-IsReady :
    (args : Frame) (ret : TypeSignature) (infer : TypeInferContext)
    → IsReady args (create_initial_std_env args ret infer)
unfolding create_initial_std_env
initial-IsReady args ret infer = record { scope = omega arith; params = λ name h. h }

-- Where every statement is implemented and each binder that refines names a parameter, the checks
-- of a body with statements return, with their errors; they raise no exception.
pub check_body_implementation-returns :
    (c : Checks) (args : Frame) (ret : TypeSignature) (infer : TypeInferContext) (line : ℕ)
    (body : Statements)
    → AreSupported args body
    → (errs : List TypeError) × (b : Bool) × (check_body_implementation c
          (standard_body line body)
          (create_initial_std_env args ret infer)
        ≡ checked errs b)
check_body_implementation-returns c args ret infer line body supported =
    Ensures-returned (body-Ensures c args ret infer line body)
      (supported, initial-IsReady args ret infer)

-- Where a body with a return type other than void is checked without an error, no path through it
-- falls through: each one returns or aborts.
pub check_body_implementation-leaves :
    (c : Checks) (args : Frame) (ret : TypeSignature) (infer : TypeInferContext) (line : ℕ)
    (body : Statements) (b : Bool)
    → is_void ret ≡ false
    → check_body_implementation c (standard_body line body) (create_initial_std_env args ret infer)
      ≡ checked [] b
    → may_fall (paths_all body) ≡ false
check_body_implementation-leaves c args ret infer line body b not_void eq =
    (Ensures-clean (body-Ensures c args ret infer line body) eq).1 not_void

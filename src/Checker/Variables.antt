-- ===== src/Checker/Variables.antt =====
-- The statements of src/frontend/checker.ts that declare, assign, retype and update variables.
use bosque_core.Prelude.{
  ℕ, zero, suc, String, Bool, true, false, not, ◌&&◌, Option, none, some, List, [], ◌∷◌, map,
  length, nat_eq, ◌==◌, if◌then◌else◌,
}
use bosque_core.Types.Syntax.{TypeSignature, error, auto, elist, TypeSignatures, no_types, ty}
use bosque_core.CheckerEnv.Syntax.{TypeInferContext, simple, elist_style, TypeEnvironment}
use bosque_core.CheckerEnv.Operations.{add_local_var, add_local_var_set}
use bosque_core.Checker.Syntax.{Expression, Decl, Initializer, single, several}
use bosque_core.Checker.Report.{
  Message, cannot_be_assigned, elist_cannot_be_assigned, mismatch_in_number,
  wildcard_with_explicit_expressions, expected_elist, Checked, pure, ◌>>=◌, report_error,
  check_error, or_throw, asked, Checks,
}

-- `t instanceof ErrorTypeSignature`
abbrev pub is_error : TypeSignature → Bool
is_error (error ns) = true
is_error _ = false

-- `!(t instanceof AutoTypeSignature) ? t : undefined`
abbrev pub declared : TypeSignature → Option TypeSignature
declared auto = none
declared t = some t

-- `itype || t`
abbrev pub or_type : Option TypeSignature → TypeSignature → TypeSignature
or_type none t = t
or_type (some itype) t = itype

-- `itype !== undefined ? new SimpleTypeInferContext(itype) : undefined`
abbrev pub simple_infer : Option TypeSignature → Option TypeInferContext
simple_infer none = none
simple_infer (some itype) = some (simple itype)

-- `itype !== undefined && !(t instanceof ErrorTypeSignature) && !fits(t, itype)`
unfoldable pub is_refused :
    (TypeSignature → TypeSignature → Bool) → TypeSignature → Option TypeSignature → Bool
is_refused fits t none = false
is_refused fits t (some itype) = not (is_error t) && not (fits t itype)

-- The first of an array that is padded with error signatures, and the rest.
abbrev pub next_eval : List TypeSignature → TypeSignature × List TypeSignature
next_eval [] = (error none, [])
next_eval (etype ∷ evals) = (etype, evals)

abbrev pub next_infer :
    List (Option TypeSignature) → Option TypeSignature × List (Option TypeSignature)
next_infer [] = (none, [])
next_infer (itype ∷ iopts) = (itype, iopts)

abbrev pub entries : TypeSignatures → List TypeSignature
entries no_types = []
entries (ty t ts) = t ∷ entries ts

-- `decls.filter((dd, ii) => dd.name !== "_" && ii !== i)`, from the index `ii` on
unfoldable pub others : ℕ → ℕ → List Decl → List (String × TypeSignature)
others i ii [] = []
others i ii (dd ∷ decls) =
    let rest = others i (suc ii) decls in
    if not (dd.name == "_") && not (nat_eq ii i) then (dd.name, dd.vtype) ∷ rest else rest

-- The entries of a list type; another type is reported.
unfoldable pub elist_entries : ℕ → TypeSignature → Checked (List TypeSignature)
elist_entries line (elist ts) = pure (entries ts)
elist_entries line _ = do _ ← report_error line expected_elist; pure []

-- The loop over the declarations of either form: `explicit` where there are several expressions,
-- with the relation and the message of that form.
unfoldable pub initialize_each :
    ℕ
    → Bool
    → (TypeSignature → TypeSignature → Bool)
    → (TypeSignature → Option TypeSignature → Message)
    → Bool
    → List Decl
    → List TypeSignature
    → TypeEnvironment
    → Checked TypeEnvironment
initialize_each line explicit fits refused is_const [] evals env = pure env
initialize_each line explicit fits refused is_const (d ∷ decls) evals env = do
  _ ← check_error line (explicit && d.name == "_") wildcard_with_explicit_expressions
  _ ←
      check_error line (is_refused fits (next_eval evals).0 (declared d.vtype))
        (refused (next_eval evals).0 (declared d.vtype))
  env' ←
      if d.name == "_"
      then pure env
      else or_throw
          (add_local_var env d.name (or_type (declared d.vtype) (next_eval evals).0) is_const true)
  initialize_each line explicit fits refused is_const decls (next_eval evals).1 env'

module _ (c : Checks) where
  unfoldable pub check_variable_declaration : Decl → TypeEnvironment → Checked TypeEnvironment
  check_variable_declaration d env = do
    _ ← asked (c.check_type_signature d.vtype)
    or_throw (add_local_var env d.name d.vtype false false)

  unfoldable pub check_variable_multi_declaration :
      List Decl → TypeEnvironment → Checked TypeEnvironment
  check_variable_multi_declaration [] env = pure env
  check_variable_multi_declaration (d ∷ decls) env = do
    declared_env ← check_variable_declaration d env
    check_variable_multi_declaration decls declared_env

  unfoldable pub check_variable_initialization :
      ℕ → Bool → Decl → Expression → TypeEnvironment → Checked TypeEnvironment
  check_variable_initialization line is_const d exp env = do
    _ ← asked (c.check_type_signature d.vtype)
    rhs ← asked (c.check_expression_rhs env exp (simple_infer (declared d.vtype)))
    _ ←
        check_error line (is_refused c.is_subtype_of rhs (declared d.vtype))
          (cannot_be_assigned rhs (declared d.vtype))
    if d.name == "_"
        then pure env
        else or_throw (add_local_var env d.name (or_type (declared d.vtype) rhs) is_const true)

  unfoldable pub check_types : List Decl → Checked Bool
  check_types [] = pure true
  check_types (d ∷ decls) = do _ ← asked (c.check_type_signature d.vtype); check_types decls

  -- The loop over several expressions, each checked in the environment for its index.
  unfoldable pub check_each :
      (ℕ → Option TypeEnvironment)
      → ℕ
      → List (Option TypeSignature)
      → List Expression
      → Checked (List TypeSignature)
  check_each cenv i iopts [] = pure []
  check_each cenv i iopts (exp ∷ exps) = do
    env ← or_throw (cenv i)
    etype ← asked (c.check_expression env exp (simple_infer (next_infer iopts).0))
    evals ← check_each cenv (suc i) (next_infer iopts).1 exps
    pure (etype ∷ evals)

  unfoldable pub check_variable_multi_initialization :
      ℕ → Bool → List Decl → Initializer → TypeEnvironment → Checked TypeEnvironment
  check_variable_multi_initialization line is_const decls (several exps) env = do
    _ ← check_types decls
    evals ←
        check_each (λ i. add_local_var_set env (others i zero decls) is_const) zero
          (map (λ (d : Decl). declared d.vtype) decls) exps
    _ ← check_error line (not (nat_eq (length decls) (length evals))) mismatch_in_number
    initialize_each line true c.is_subtype_of cannot_be_assigned is_const decls evals env
  check_variable_multi_initialization line is_const decls (single exp) env = do
    _ ← check_types decls
    etype ← asked (
        c.check_expression_rhs env exp
          (some (elist_style (map (λ (d : Decl). declared d.vtype) decls))))
    evals ← elist_entries line etype
    _ ← check_error line (not (nat_eq (length decls) (length evals))) mismatch_in_number
    initialize_each line false c.are_same_types elist_cannot_be_assigned is_const decls evals env

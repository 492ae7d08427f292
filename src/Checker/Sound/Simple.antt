-- ===== src/Checker/Sound/Simple.antt =====
-- Declarations and initializations keep the flow, assign nothing and raise no exception.
use bosque_core.Prelude.{
  ℕ, zero, suc, String, Bool, true, false, ◌≡◌, Option, none, List, [], ◌∷◌, ◌++◌, ◌==◌,
  if◌then◌else◌,
}
use bosque_core.Types.Syntax.{TypeSignature, elist}
use bosque_core.CheckerEnv.Syntax.{Frame, TypeEnvironment}
use bosque_core.CheckerEnv.Operations.{add_local_var, add_local_var_set}
use bosque_core.CheckerEnv.Extends.{Extends, Extends-refl, Extends-trans}
use bosque_core.Checker.Syntax.{Expression, Decl, Initializer, single, several}
use bosque_core.Checker.Report.{Message, Checked, pure, ◌>>=◌, or_throw, Checks}
use bosque_core.Checker.Variables.{
  next_eval, next_infer, check_variable_declaration, check_variable_multi_declaration,
  check_variable_initialization, check_types, check_each, elist_entries, initialize_each,
  check_variable_multi_initialization,
}
use bosque_core.Checker.Sound.Ensures.{
  Ensures, Runs, Ensures-weaken, Ensures-map, Ensures-bind, Ensures-then, Ensures-pure,
  Ensures-or_throw, Ensures-if, Runs-asked, Runs-check_error, Runs-report_error,
}
use bosque_core.Checker.Sound.Keeps.{Keeps, Keeps-refl, Keeps-trans, add_local_var-Keeps}
use bosque_core.Checker.Sound.Ready.{IsReady, IsReady-Extends, with_locals-ne-none}

module _ (args : Frame) where
  -- The statement assigns `names`, from `e` on.
  abbrev pub Assigns : List String → TypeEnvironment → Checked TypeEnvironment → Type 0
  Assigns names e m = Ensures (IsReady args e) (Extends e) (Keeps names e) m

  pub Assigns-pure : (e : TypeEnvironment) → Assigns [] e (pure e)
  Assigns-pure e = Ensures-pure e (Extends-refl e) (Keeps-refl e)

  -- One step after another.
  Assigns-bind :
      (names more : List String) {e : TypeEnvironment} {m : Checked TypeEnvironment}
      {f : TypeEnvironment → Checked TypeEnvironment}
      → Assigns names e m
      → ((e' : TypeEnvironment) → Assigns more e' (f e'))
      → Assigns (names ++ more) e (m >>= f)
  Assigns-bind names more h k = Ensures-bind h (λ e' ext.
      Ensures-weaken (IsReady-Extends ext)
        (Ensures-map (λ a. Extends-trans ext) (λ a _ q p. Keeps-trans names more p q) (k e')))

  declare-Assigns :
      (e : TypeEnvironment) (name : String) (t : TypeSignature) (is_const must_defined : Bool)
      → Assigns [] e (or_throw (add_local_var e name t is_const must_defined))
  unfolding add_local_var
  declare-Assigns e name t is_const must_defined =
      Ensures-or_throw _ (λ stuck r. with_locals-ne-none e _ r.scope stuck)
        (λ e' eq. let k = add_local_var-Keeps e name t is_const must_defined eq in (k.extends, k))

  pub check_variable_declaration-Assigns :
      (c : Checks) (d : Decl) (e : TypeEnvironment)
      → Assigns [] e (check_variable_declaration c d e)
  unfolding check_variable_declaration
  check_variable_declaration-Assigns c d e =
      Ensures-then (Runs-asked _) (λ _. declare-Assigns e d.name d.vtype false false)

  pub check_variable_multi_declaration-Assigns :
      (c : Checks) (decls : List Decl) (e : TypeEnvironment)
      → Assigns [] e (check_variable_multi_declaration c decls e)
  unfolding check_variable_multi_declaration
  check_variable_multi_declaration-Assigns c [] e = Assigns-pure e
  check_variable_multi_declaration-Assigns c (d ∷ decls) e =
      Assigns-bind [] [] (check_variable_declaration-Assigns c d e)
        (check_variable_multi_declaration-Assigns c decls)

  -- The variable is declared unless its name is "_".
  declare_named-Assigns :
      (e : TypeEnvironment) (name : String) (t : TypeSignature) (is_const : Bool)
      → Assigns [] e
          (if name == "_" then pure e else or_throw (add_local_var e name t is_const true))
  declare_named-Assigns e name t is_const =
      Ensures-if (name == "_") (λ _. Assigns-pure e) (λ _. declare-Assigns e name t is_const true)

  pub check_variable_initialization-Assigns :
      (c : Checks) (line : ℕ) (is_const : Bool) (d : Decl) (exp : Expression) (e : TypeEnvironment)
      → Assigns [] e (check_variable_initialization c line is_const d exp e)
  unfolding check_variable_initialization
  check_variable_initialization-Assigns c line is_const d exp e = Ensures-then (Runs-asked _) (λ _.
      Ensures-then (Runs-asked _) (λ rhs.
        Ensures-then (Runs-check_error line _ _) (λ _. declare_named-Assigns e d.name _ is_const)))

  initialize_each-Assigns :
      (line : ℕ) (explicit : Bool) (fits : TypeSignature → TypeSignature → Bool)
      (refused : TypeSignature → Option TypeSignature → Message) (is_const : Bool)
      (decls : List Decl) (evals : List TypeSignature) (e : TypeEnvironment)
      → Assigns [] e (initialize_each line explicit fits refused is_const decls evals e)
  unfolding initialize_each
  initialize_each-Assigns line explicit fits refused is_const [] evals e = Assigns-pure e
  initialize_each-Assigns line explicit fits refused is_const (d ∷ decls) evals e =
      Ensures-then (Runs-check_error line _ _) (λ _. Ensures-then (Runs-check_error line _ _) (λ _.
        Assigns-bind [] [] (declare_named-Assigns e d.name _ is_const)
          (initialize_each-Assigns line explicit fits refused is_const decls (next_eval evals).1)))

check_types-Runs : {Ok : Type 0} (c : Checks) (decls : List Decl) → Runs Ok (check_types c decls)
unfolding check_types
check_types-Runs c [] = Ensures-pure true tt tt
check_types-Runs c (d ∷ decls) = Ensures-then (Runs-asked _) (λ _. check_types-Runs c decls)

pub check_each-Runs :
    {Ok : Type 0} (c : Checks) (cenv : ℕ → Option TypeEnvironment) (i : ℕ)
    (iopts : List (Option TypeSignature)) (exps : List Expression)
    → ((j : ℕ) → cenv j ≡ none → ¬ Ok)
    → Runs Ok (check_each c cenv i iopts exps)
unfolding check_each
check_each-Runs c cenv i iopts [] stuck = Ensures-pure [] tt tt
check_each-Runs c cenv i iopts (exp ∷ exps) stuck =
    Ensures-then (Ensures-or_throw (cenv i) (stuck i) (λ _ _. (tt, tt))) (λ env.
      Ensures-then (Runs-asked _) (λ etype.
        Ensures-then (check_each-Runs c cenv (suc i) (next_infer iopts).1 exps stuck)
          (λ evals. Ensures-pure (etype ∷ evals) tt tt)))

pub elist_entries-Runs :
    {Ok : Type 0} (line : ℕ) (t : TypeSignature) → Runs Ok (elist_entries line t)
unfolding elist_entries
elist_entries-Runs line (elist ts) = Ensures-pure _ tt tt
elist_entries-Runs line _ = Ensures-then (Runs-report_error line _) (λ _. Ensures-pure [] tt tt)

module _ (args : Frame) where
  pub check_variable_multi_initialization-Assigns :
      (c : Checks) (line : ℕ) (is_const : Bool) (decls : List Decl) (init : Initializer)
      (e : TypeEnvironment)
      → Assigns args [] e (check_variable_multi_initialization c line is_const decls init e)
  unfolding check_variable_multi_initialization add_local_var_set
  check_variable_multi_initialization-Assigns c line is_const decls (several exps) e =
      Ensures-then (check_types-Runs c decls) (λ _.
        Ensures-then
          (check_each-Runs c _ zero _ exps (λ j stuck r. with_locals-ne-none e _ r.scope stuck))
          (λ evals.
            Ensures-then (Runs-check_error line _ _) (λ _.
              initialize_each-Assigns args line true c.is_subtype_of _ is_const decls evals e)))
  check_variable_multi_initialization-Assigns c line is_const decls (single exp) e =
      Ensures-then (check_types-Runs c decls) (λ _. Ensures-then (Runs-asked _) (λ etype.
        Ensures-then (elist_entries-Runs line etype) (λ evals.
          Ensures-then (Runs-check_error line _ _) (λ _.
            initialize_each-Assigns args line false c.are_same_types _ is_const decls evals e))))

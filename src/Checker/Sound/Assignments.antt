-- ===== src/Checker/Sound/Assignments.antt =====
-- Assignments, retypes and updates keep the flow, assign what they name and raise no exception.
use bosque_core.Prelude.{
  ℕ, zero, String, Bool, true, false, not, ◌&&◌, ◌≡◌, refl, sym, subst, Option, none, some, List,
  [], ◌∷◌, ◌++◌, ◌==◌, if◌then◌else◌, Bool-cases, Option-cases, inl, inr,
}
use bosque_core.Types.Syntax.{TypeSignature}
use bosque_core.CheckerEnv.Syntax.{Frame, VarInfo, TypeEnvironment}
use bosque_core.CheckerEnv.Operations.{
  resolve_local_var_info_from_src_name, resolve_local_var_info_from_src_name_with_is_param,
  assign_local_variable,
}
use bosque_core.CheckerEnv.Extends.{Extends-refl, Extends-trans}
use bosque_core.Checker.Syntax.{Expression, ITest, Initializer, single, several}
use bosque_core.Checker.Report.{Message, pure, ◌>>=◌, report_error, Checks}
use bosque_core.Checker.Variables.{next_eval, next_infer}
use bosque_core.Checker.Assign.{
  is_undefined, is_locked, check_variable_assignment, target_types, assign_each,
  check_variable_multi_assignment, not_refinable, retype, retype_found, check_variable_retype,
  check_updates, check_update,
}
use bosque_core.Checker.Paths.{targets}
use bosque_core.Checker.Sound.Ensures.{
  Runs, Ensures-weaken, Ensures-map, Ensures-then, Ensures-pure, Ensures-if, Ensures-reported,
  Runs-asked, Runs-check_error, Runs-report_error,
}
use bosque_core.Checker.Sound.Simple.{Assigns, Assigns-pure, check_each-Runs, elist_entries-Runs}
use bosque_core.Checker.Sound.Keeps.{
  Keeps, Keeps-refl, Keeps-trans, assign_local_variable-Keeps, retype_local_variable-Keeps,
}
use bosque_core.Checker.Sound.Ready.{IsReady-Extends}

module _ (args : Frame) where
  -- The variable is assigned unless its name is "_".
  assign_named-Keeps :
      (e : TypeEnvironment) (name : String)
      → Keeps (targets (name ∷ [])) e (if name == "_" then e else assign_local_variable e name)
  assign_named-Keeps e name = elim (Bool-cases (name == "_")) [
    | inl wild ↦ rw wild (Keeps-refl e)
    | inr named ↦ rw named (assign_local_variable-Keeps e name)
  ]

  pub check_variable_assignment-Assigns :
      (c : Checks) (line : ℕ) (name : String) (exp : Expression) (e : TypeEnvironment)
      → Assigns args (targets (name ∷ [])) e (check_variable_assignment c line name exp e)
  unfolding check_variable_assignment
  check_variable_assignment-Assigns c line name exp e =
      let k = assign_named-Keeps e name in
      Ensures-if (is_undefined (resolve_local_var_info_from_src_name e name) && not (name == "_"))
        (λ _. Ensures-reported line _ (λ _. Ensures-pure e (Extends-refl e) tt))
        (λ _. Ensures-then (Runs-check_error line _ _) (λ _. Ensures-then (Runs-asked _) (λ rhs.
          Ensures-then (Runs-check_error line _ _) (λ _.
            Ensures-if (name == "_")
              (λ wild. let k' = rw wild at k in Ensures-pure e k'.extends (rw wild k'))
              (λ named. let k' = rw named at k in Ensures-pure _ k'.extends (rw named k'))))))

  target_types-Runs :
      {Ok : Type 0} (line : ℕ) (e : TypeEnvironment) (names : List String)
      → Runs Ok (target_types line e names)
  unfolding target_types
  target_types-Runs line e [] = Ensures-pure [] tt tt
  target_types-Runs line e (name ∷ names) = Ensures-then (Runs-check_error line _ _) (λ _.
      Ensures-then (Runs-check_error line _ _)
        (λ _. Ensures-then (target_types-Runs line e names) (λ iopts. Ensures-pure _ tt tt)))

  targets-cons :
      (name : String) (names : List String)
      → targets (name ∷ names) ≡ targets (name ∷ []) ++ targets names
  targets-cons name names = elim (Bool-cases (name == "_")) [
    | inl wild ↦ rw wild refl
    | inr named ↦ rw named refl
  ]

  assign_each-Assigns :
      (line : ℕ) (explicit : Bool) (fits : TypeSignature → TypeSignature → Bool)
      (refused : TypeSignature → Option TypeSignature → Message)
      (iopts : List (Option TypeSignature)) (names : List String) (evals : List TypeSignature)
      (e : TypeEnvironment)
      → Assigns args (targets names) e (assign_each line explicit fits refused iopts names evals e)
  unfolding assign_each
  assign_each-Assigns line explicit fits refused iopts [] evals e = Assigns-pure args e
  assign_each-Assigns line explicit fits refused iopts (name ∷ names) evals e =
      let k = assign_named-Keeps e name in
      Ensures-then (Runs-check_error line _ _) (λ _. Ensures-then (Runs-check_error line _ _) (λ _.
        Ensures-weaken (IsReady-Extends k.extends) (
          Ensures-map (λ a. Extends-trans k.extends)
            (λ a _ q.
              subst (λ ns. Keeps ns e a) (sym (targets-cons name names))
                (Keeps-trans (targets (name ∷ [])) (targets names) k q))
            (assign_each-Assigns line explicit fits refused (next_infer iopts).1 names
              (next_eval evals).1 _))))

  pub check_variable_multi_assignment-Assigns :
      (c : Checks) (line : ℕ) (names : List String) (init : Initializer) (e : TypeEnvironment)
      → Assigns args (targets names) e (check_variable_multi_assignment c line names init e)
  unfolding check_variable_multi_assignment
  check_variable_multi_assignment-Assigns c line names (several exps) e =
      Ensures-then (target_types-Runs line e names) (λ iopts.
        Ensures-then (check_each-Runs c _ zero iopts exps (λ j stuck. cc)) (λ evals.
          Ensures-then (Runs-check_error line _ _)
            (λ _. assign_each-Assigns line true c.is_subtype_of _ iopts names evals e)))
  check_variable_multi_assignment-Assigns c line names (single exp) e =
      Ensures-then (target_types-Runs line e names) (λ iopts. Ensures-then (Runs-asked _) (λ etype.
        Ensures-then (elist_entries-Runs line etype) (λ evals.
          Ensures-then (Runs-check_error line _ _)
            (λ _. assign_each-Assigns line false c.are_same_types _ iopts names evals e))))

  retype-Assigns :
      (c : Checks) (line : ℕ) (name : String) (ttest : ITest) (v : VarInfo) (e : TypeEnvironment)
      → Assigns args [] e (retype c line name ttest v e)
  unfolding retype
  retype-Assigns c line name ttest v e = Ensures-then (Runs-asked _) (λ splits.
      Ensures-then (Runs-check_error line _ _)
        (λ _. let k = retype_local_variable-Keeps e name _ in Ensures-pure _ k.extends k))

  reported-Assigns :
      (line : ℕ) (msg : Message) (e : TypeEnvironment)
      → Assigns args [] e (report_error line msg >>= (λ _. pure e))
  reported-Assigns line msg e = Ensures-then (Runs-report_error line msg) (λ _. Assigns-pure args e)

  retype_found-Assigns :
      (c : Checks) (line : ℕ) (name : String) (ttest : ITest) (vinfo : Option VarInfo)
      (e : TypeEnvironment)
      → Assigns args [] e (retype_found c line name ttest vinfo e)
  unfolding retype_found
  retype_found-Assigns c line name ttest none e = reported-Assigns line _ e
  retype_found-Assigns c line name ttest (some v) e =
      elim (Option-cases (not_refinable name (some v))) [
        | inl fine ↦ rw (fine, retype_found) (retype-Assigns c line name ttest v e)
        | inr (msg, refused) ↦ rw (refused, retype_found) (reported-Assigns line msg e)
      ]

  pub check_variable_retype-Assigns :
      (c : Checks) (line : ℕ) (name : String) (ttest : ITest) (e : TypeEnvironment)
      → Assigns args [] e (check_variable_retype c line name ttest e)
  unfolding check_variable_retype
  check_variable_retype-Assigns c line name ttest e = retype_found-Assigns c line name ttest _ e

  check_updates-Runs :
      {Ok : Type 0} (c : Checks) (line : ℕ) (t : TypeSignature)
      (updates : List (String × Expression)) (e : TypeEnvironment)
      → Runs Ok (check_updates c line t updates e)
  unfolding check_updates
  check_updates-Runs c line t [] e = Ensures-pure true tt tt
  check_updates-Runs c line t ((fname, exp) ∷ updates) e =
      elim (Option-cases (c.get_field_type t fname)) [
        | inl absent ↦
            rw (absent, check_updates)
              (Ensures-then (Runs-report_error line _) (λ _. check_updates-Runs c line t updates e))
        | inr (ftype, found) ↦
            rw (found, check_updates)
              (Ensures-then (Runs-asked _) (λ etype.
                Ensures-then (Runs-check_error line _ _)
                  (λ _. check_updates-Runs c line t updates e)))
      ]

  pub check_update-Assigns :
      (c : Checks) (line : ℕ) (vname : String) (vexp : Expression)
      (updates : List (String × Expression)) (e : TypeEnvironment)
      → Assigns args [] e (check_update c line vname vexp updates e)
  unfolding check_update
  check_update-Assigns c line vname vexp updates e = Ensures-then (Runs-asked _) (λ vtype.
      elim (Option-cases (resolve_local_var_info_from_src_name_with_is_param e vname).0) [
        | inl absent ↦ rw absent (reported-Assigns line _ e)
        | inr (v, found) ↦ rw found (
            Ensures-if (is_locked (resolve_local_var_info_from_src_name_with_is_param e vname).1 v)
              (λ _. reported-Assigns line _ e)
              (λ _.
                Ensures-if (not (c.is_type_updatable vtype)) (λ _. reported-Assigns line _ e)
                  (λ _.
                    Ensures-then (check_updates-Runs c line vtype updates e)
                      (λ _. Assigns-pure args e))))
      ])

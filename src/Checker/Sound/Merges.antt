-- ===== src/Checker/Sound/Merges.antt =====
-- The merges raise nothing on branches that keep the variables, and are sound for their paths.
use bosque_core.Prelude.{
  ℕ, String, Bool, true, ◌&&◌, ◌≡◌, refl, sym, ◌∙◌, ap, none, some, List, [], ◌∷◌, all, All,
  Bool-cases, inl, inr, some-injective, subst, ap₂, Option-cases, get_elem?, reverse,
}
use bosque_core.CheckerEnv.Syntax.{RefinedType, Frame, EnvFields, TypeEnvironment, fields}
use bosque_core.CheckerEnv.Operations.{
  find_var, search_locals, resolve_local_var_info_from_src_name, retype_local_variable,
}
use bosque_core.CheckerEnv.Frames.{var_at}
use bosque_core.CheckerEnv.Merge.{
  BinderInfo, slice_one, must_defined_at, normal_envs, merge_environments_simple,
  merge_environments_opt_binder_flow,
}
use bosque_core.CheckerEnv.Merge.Join.{
  defined_at, merged, merge-kept, must_defined_at-merged, Extends-merged,
}
use bosque_core.CheckerEnv.Extends.{
  has_name, Extends, KeepsLocals, Extends-trans, Extends-retype, find_var-has_name, fields-rebuild,
}
use bosque_core.Checker.Paths.{ControlPath}
use bosque_core.Checker.Sound.Keeps.{
  normal, defined_in, IsSound, or_false, retype_local_variable-Keeps,
}
use bosque_core.Checker.Sound.Branches.{AreSound}
use bosque_core.Checker.Sound.Blocks.{IsSound-keeps}
use bosque_core.Checker.Report.{or_throw}
use bosque_core.Checker.Sound.Ensures.{Ensures, raises, Ensures-pure, Ensures-or_throw}
use bosque_core.Checker.Sound.Ready.{IsReady, RefinesParam}

defined_at-defined_in :
    (i : ℕ) (name : String) (e : TypeEnvironment)
    → defined_at i name e ≡ defined_in (fields e).locals i name
unfolding defined_at must_defined_at var_at
defined_at-defined_in i name e = elim (Option-cases (get_elem? (fields e).locals i)) [
  | inl absent ↦ rw (absent, defined_at, must_defined_at, var_at) refl
  | inr (frame, there) ↦ elim (Option-cases (find_var name frame)) [
    | inl absent ↦
        rw (there, defined_at, must_defined_at, var_at)
          (rw (absent, defined_at, must_defined_at, var_at) refl)
    | inr (v, found) ↦
        rw (there, defined_at, must_defined_at, var_at)
          (rw (found, defined_at, must_defined_at, var_at) refl)
  ]
]

all-same :
    (f g : TypeEnvironment → Bool) (es : List TypeEnvironment)
    → ((e : TypeEnvironment) → f e ≡ g e)
    → all f es ≡ all g es
all-same f g [] same = refl
all-same f g (e ∷ es) same = ap₂ (λ a b. a && b) (same e) (all-same f g es same)

defined_at-some :
    (i : ℕ) (name : String) (e : TypeEnvironment) (b : Bool)
    → must_defined_at i name e ≡ some b
    → defined_at i name e ≡ b
unfolding defined_at
defined_at-some i name e b h = rw (h, defined_at) refl

merged-IsSound :
    (ps : List ControlPath) (e : TypeEnvironment) (es : List TypeEnvironment)
    → normal e ≡ true
    → AreSound ps e es
    → IsSound ps e (merged e es)
merged-IsSound ps e es n s = record {
  flows = λ h _. ap (λ (f : EnvFields). f.normalflow) (fields-rebuild e _) ∙ s.flows h;
  starts = λ _. n;
  defines = λ _ i name h d. s.defines i name h (
      all-same _ (defined_at i name) (normal_envs es) (λ b. sym (defined_at-defined_in i name b))
      ∙ sym (defined_at-some i name (merged e es) _ (must_defined_at-merged e es i name h))
      ∙ defined_at-defined_in i name (merged e es)
      ∙ d);
}

kept_normal :
    (e : TypeEnvironment) (es : List TypeEnvironment)
    → All (KeepsLocals e) es
    → All (KeepsLocals e) (normal_envs es)
kept_normal e [] h = tt
kept_normal e (b ∷ es) h = elim (Bool-cases (normal b)) [
  | inl goes ↦ rw goes (h.0, kept_normal e es h.1)
  | inr stops ↦ rw stops (kept_normal e es h.1)
]

-- A merge of branches that keep the variables raises nothing.
pub merge-Ensures :
    {Ok : Type 0} (ps : List ControlPath) (e : TypeEnvironment) (es : List TypeEnvironment)
    → normal e ≡ true
    → All (KeepsLocals e) es
    → Ensures Ok
        (Extends e)
        (λ m. AreSound ps e es → IsSound ps e m)
        (or_throw (merge_environments_simple e es))
merge-Ensures ps e es n kept =
    let went = merge-kept e es (kept_normal e es kept) in
    Ensures-or_throw _ (λ stuck _. cc)
      (λ m eq.
        subst (λ x. Extends e x × (AreSound ps e es → IsSound ps e x))
          (some-injective (merged e es) m (sym went ∙ eq))
          (Extends-merged e es, merged-IsSound ps e es n))

resolve-param :
    (e : TypeEnvironment) (name : String)
    → has_name name (fields e).args ≡ true
    → resolve_local_var_info_from_src_name e name ≡ none
    → ⊥
unfolding resolve_local_var_info_from_src_name
resolve-param e name h stuck =
    elim (Option-cases (search_locals name (reverse (fields e).locals))) [
      | inl absent ↦
          let (v, found) = find_var-has_name name (fields e).args h in
          cc (rw (absent, resolve_local_var_info_from_src_name) at stuck, found)
      | inr (v, found) ↦ cc (rw (found, resolve_local_var_info_from_src_name) at stuck)
    ]

IsSound-retype :
    {ps : List ControlPath} {e m : TypeEnvironment} (vname : String) (itype : List RefinedType)
    → Extends e m
    → IsSound ps e m
    → IsSound ps e (retype_local_variable m vname itype)
IsSound-retype {e} {m} vname itype ext s =
    let k = retype_local_variable-Keeps m vname itype in
    IsSound-keeps
      (record {
        flow = k.flow;
        defined = λ i name h. k.defined i name (ext.locals i name h) ∙ sym (or_false _);
      })
      s

-- The merge that a binder refines raises nothing where the binder refines a parameter.
pub binder_flow-Ensures :
    {Ok : Type 0} (args : Frame) (ps : List ControlPath) (e : TypeEnvironment) (b : BinderInfo)
    (t : RefinedType) (es : List TypeEnvironment)
    → (Ok → RefinesParam args (some b) × IsReady args e)
    → normal e ≡ true
    → All (KeepsLocals e) es
    → Ensures Ok
        (Extends e)
        (λ m. AreSound ps e es → IsSound ps e m)
        (or_throw (merge_environments_opt_binder_flow e b t es))
unfolding merge_environments_opt_binder_flow or_throw
binder_flow-Ensures args ps e b t es ok n kept =
    let went = merge-kept e es (kept_normal e es kept) in
    elim (Bool-cases b.refineonfollow) [
      | inr no_refine ↦
          rw (went, merge_environments_opt_binder_flow)
            (rw (no_refine, merge_environments_opt_binder_flow)
              (Ensures-pure _ (Extends-merged e es) (merged-IsSound ps e es n)))
      | inl refines ↦
          let found = Option-cases (resolve_local_var_info_from_src_name e (slice_one b.srcname)) in
          rw (went, merge_environments_opt_binder_flow)
            (rw (refines, merge_environments_opt_binder_flow)
              (elim found [
                | inl absent ↦
                    rw (absent, merge_environments_opt_binder_flow)
                      (raises
                        (λ o. resolve-param e _ ((ok o).1.params _ ((ok o).0 refines)) absent))
                | inr (v, there) ↦
                    rw (there, merge_environments_opt_binder_flow)
                      (Ensures-pure _
                        (Extends-trans (Extends-merged e es) (Extends-retype (merged e es) _ _))
                        (λ s.
                          IsSound-retype _ _ (Extends-merged e es) (merged-IsSound ps e es n s)))
              ]))
    ]

-- ===== src/CheckerEnv/Merge.antt =====
-- `mergeEnvironmentsSimple` and `mergeEnvironmentsOptBinderFlow` of
-- src/frontend/checker_environment.ts. `none` is the exception that JavaScript raises on a property
-- of undefined.
pub mod Join
pub mod BinderFlow
use Prim.Native.String
use bosque_core.Prelude.{
  ℕ, zero, suc, String, Bool, true, false, Option, none, some, List, [], ◌∷◌, ◌++◌, any, all,
  filter, get_elem?,
}
use bosque_core.CheckerEnv.Syntax.{
  RefinedType, VarInfo, Frame, EnvFields, TypeEnvironment, fields, rebuild,
}
use bosque_core.CheckerEnv.Operations.{
  find_var, resolve_local_var_info_from_src_name, retype_local_variable,
}

-- `(e.locals[i].find((vv) => vv.srcname === name) as VarInfo).mustDefined`
unfoldable pub must_defined_at : ℕ → String → TypeEnvironment → Option Bool
must_defined_at i name e = elim (get_elem? (fields e).locals i) [
  | none ↦ none
  | some frame ↦ elim (find_var name frame) [ none ↦ none | some v ↦ some v.must_defined ]
]

-- `every` stops at the first environment that fails the test.
unfoldable pub every {ℓ} : {A : Type ℓ} → (A → Option Bool) → List A → Option Bool
every test [] = some true
every test (e ∷ es) = elim (test e) [
  | none ↦ none
  | some b ↦ elim b [ true ↦ every test es | false ↦ some false ]
]

unfoldable pub merge_frame : List TypeEnvironment → ℕ → Frame → Option Frame
merge_frame normalenvs i [] = some []
merge_frame normalenvs i (v ∷ vs) = elim (every (must_defined_at i v.srcname) normalenvs) [
  | none ↦ none
  | some mdef ↦ elim (merge_frame normalenvs i vs) [
    | none ↦ none
    | some frame ↦ some (record v { must_defined = mdef } ∷ frame)
  ]
]

unfoldable pub merge_frames : List TypeEnvironment → ℕ → List Frame → Option (List Frame)
merge_frames normalenvs i [] = some []
merge_frames normalenvs i (f ∷ fs) = elim (merge_frame normalenvs i f) [
  | none ↦ none
  | some frame ↦ elim (merge_frames normalenvs (suc i) fs) [
    | none ↦ none
    | some locals ↦ some (frame ∷ locals)
  ]
]

abbrev pub normal_envs : List TypeEnvironment → List TypeEnvironment
normal_envs envs = filter (λ e. (fields e).normalflow) envs

unfoldable pub merge_environments_simple :
    TypeEnvironment → List TypeEnvironment → Option TypeEnvironment
merge_environments_simple origenv envs =
    elim (merge_frames (normal_envs envs) zero (fields origenv).locals) [
      | none ↦ none
      | some locals ↦ some (
          rebuild origenv (record (fields origenv) {
            normalflow = any (λ e. (fields e).normalflow) envs;
            returnflow = all (λ e. (fields e).returnflow) envs;
            locals = locals;
          }))
    ]

-- The fields of `BinderInfo` that the merge reads.
pub record BinderInfo : Type 0 where
  pub srcname : String
  pub refineonfollow : Bool

-- `srcname.slice(1)`
unfoldable pub slice_one : String → String
slice_one String.[] = String.[]
slice_one (String.◌∷◌ c s) = s

unfoldable pub merge_environments_opt_binder_flow :
    TypeEnvironment → BinderInfo → RefinedType → List TypeEnvironment → Option TypeEnvironment
merge_environments_opt_binder_flow origenv binfo refinetype envs =
    elim (merge_environments_simple origenv envs) [
      | none ↦ none
      | some menv ↦ elim binfo.refineonfollow [
        | false ↦ some menv
        | true ↦ elim (resolve_local_var_info_from_src_name origenv (slice_one binfo.srcname)) [
          | none ↦ none
          | some vinfo ↦ some (
              retype_local_variable menv (slice_one binfo.srcname) (vinfo.itype ++ refinetype ∷ []))
        ]
      ]
    ]

-- ===== src/CheckerEnv/Merge/BinderFlow.antt =====
-- `mergeEnvironmentsOptBinderFlow`: a merge that flows a binder's refinement out of the branches.
use bosque_core.Prelude.{String, true, ◌≡◌, refl, some, List, [], ◌∷◌, ◌++◌, All}
use bosque_core.CheckerEnv.Syntax.{RefinedType, VarInfo, update_type, TypeEnvironment}
use bosque_core.CheckerEnv.Operations.{resolve_local_var_info_from_src_name, retype_local_variable}
use bosque_core.CheckerEnv.Operations.Lookup.{
  ChangesVariables, all_frames, resolve-retype_local_variable,
}
use bosque_core.CheckerEnv.Frames.{updated, UpdatesOnly}
use bosque_core.CheckerEnv.Extends.{Extends}
use bosque_core.CheckerEnv.Merge.{
  normal_envs, BinderInfo, slice_one, merge_environments_simple, merge_environments_opt_binder_flow,
}
use bosque_core.CheckerEnv.Merge.Join.{merged, merge-merged}

-- Where the branches that the flow leaves normally extend the environment before them, the binder
-- refines on follow, and the environment before resolves the name after the binder's first character
-- to `vinfo`, the merge succeeds. Every name resolves after it as after the simple merge, that name
-- with the refinements of `vinfo` and the new one. The arguments and local variables of that name, in
-- every scope, get these refinements, and the result differs from the simple merge in nothing else.
pub merge_environments_opt_binder_flow_lem :
    (orig : TypeEnvironment) (binfo : BinderInfo) (refinetype : RefinedType)
    (envs : List TypeEnvironment) (vinfo : VarInfo)
    → All (Extends orig) (normal_envs envs)
    → resolve_local_var_info_from_src_name orig (slice_one binfo.srcname) ≡ some vinfo
    → binfo.refineonfollow ≡ true
    → (e : TypeEnvironment) × (merge_environments_opt_binder_flow orig binfo refinetype envs
        ≡ some e)
      × ((name : String)
          → resolve_local_var_info_from_src_name e name
            ≡ updated
                (slice_one binfo.srcname)
                (λ v. update_type v (vinfo.itype ++ refinetype ∷ []))
                (resolve_local_var_info_from_src_name (merged orig envs) name))
      × (merge_environments_simple orig envs ≡ some (merged orig envs))
      × ChangesVariables (merged orig envs) e
      × UpdatesOnly
          (slice_one binfo.srcname)
          (λ v. update_type v (vinfo.itype ++ refinetype ∷ []))
          (all_frames (merged orig envs))
          (all_frames e)
unfolding merge_environments_opt_binder_flow
merge_environments_opt_binder_flow_lem orig binfo refinetype envs vinfo ext found on =
    let simple = merge-merged orig envs ext in
    let vname = slice_one binfo.srcname in
    let itype = vinfo.itype ++ refinetype ∷ [] in
    let (_, fields_kept, only) =
      resolve-retype_local_variable (merged orig envs) vname vname itype in
    (
      retype_local_variable (merged orig envs) vname itype,
      rw (simple, merge_environments_opt_binder_flow) (rw on (rw found refl)),
      λ name. (resolve-retype_local_variable (merged orig envs) vname name itype).0,
      simple,
      fields_kept,
      only,
    )

-- ===== src/CheckerEnv/Operations/Scopes.antt =====
-- Entering and leaving a scope.
use bosque_core.Prelude.{
  String, ◌≡◌, refl, sym, ◌∙◌, ap, some, List, [], ◌∷◌, ◌++◌, drop_last-append, Option-cases, inl,
  inr,
}
use bosque_core.Types.Syntax.{TypeSignature}
use bosque_core.CheckerEnv.Syntax.{Frame, TypeEnvironment, fields, top, inside}
use bosque_core.CheckerEnv.Operations.{
  resolve_local_var_info_from_src_name, resolve_lambda_capture_var_info_from_src_name, with_locals,
  push_new_local_scope, push_new_local_binder_scope, pop_frames, pop_local_scope,
}

pop_frames-append :
    (frames : List Frame) (frame : Frame) → pop_frames (frames ++ frame ∷ []) ≡ some frames
unfolding pop_frames
pop_frames-append [] frame = refl
pop_frames-append (f ∷ frames) frame = ap some (drop_last-append (f ∷ frames) frame)

-- The environment after a scope has been entered and left again: its parent is the environment
-- before.
abbrev pub revisited : TypeEnvironment → TypeEnvironment
revisited e = inside e (fields e)

resolve-revisited :
    (e : TypeEnvironment) (name : String)
    → resolve_local_var_info_from_src_name (revisited e) name
      ≡ resolve_local_var_info_from_src_name e name
unfolding resolve_local_var_info_from_src_name
resolve-revisited e name = refl

capture-revisited :
    (e : TypeEnvironment) (name : String)
    → resolve_lambda_capture_var_info_from_src_name (revisited e) name
      ≡ resolve_lambda_capture_var_info_from_src_name e name
unfolding resolve_lambda_capture_var_info_from_src_name
capture-revisited (top f) name =
    let same = resolve-revisited (top f) name in
    elim (Option-cases (resolve_local_var_info_from_src_name (top f) name)) [
      | inl absent ↦ rw (same ∙ absent, resolve_lambda_capture_var_info_from_src_name) refl
      | inr (v, found) ↦
          rw (same ∙ found, resolve_lambda_capture_var_info_from_src_name) (sym found)
    ]
capture-revisited (inside p f) name =
    let same = resolve-revisited (inside p f) name in
    elim (Option-cases (resolve_local_var_info_from_src_name (inside p f) name)) [
      | inl absent ↦ rw (same ∙ absent, resolve_lambda_capture_var_info_from_src_name) refl
      | inr (v, found) ↦
          rw (same ∙ found, resolve_lambda_capture_var_info_from_src_name)
            (rw (found, resolve_lambda_capture_var_info_from_src_name) refl)
    ]

-- Leaving a scope that has just been entered, plain or with a binder, succeeds. It gives back the
-- fields of the environment before. Its parent is now that environment, and still every name
-- resolves as before, lambda captures included.
pub pop_local_scope-push :
    (e : TypeEnvironment) (vname : String) (vtype : TypeSignature)
    → (pop_local_scope (push_new_local_scope e) ≡ some (revisited e))
      × (pop_local_scope (push_new_local_binder_scope e vname vtype) ≡ some (revisited e))
      × ((name : String)
          → resolve_lambda_capture_var_info_from_src_name (revisited e) name
            ≡ resolve_lambda_capture_var_info_from_src_name e name)
unfolding pop_local_scope push_new_local_scope push_new_local_binder_scope with_locals
pop_local_scope-push e vname vtype = (
  rw (pop_frames-append (fields e).locals [], with_locals) refl,
  rw (pop_frames-append (fields e).locals _, with_locals) refl,
  capture-revisited e,
)

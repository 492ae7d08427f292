-- ===== src/CheckerEnv/Operations.antt =====
-- The methods of `TypeEnvironment` on one environment. `none` is a failed assertion, or the
-- exception that JavaScript raises on a property of undefined.
pub mod Lookup
pub mod Scopes
pub mod Reset
use bosque_core.Prelude.{
  String, Bool, true, false, Option, none, some, List, [], ◌∷◌, ◌++◌, map, reverse, find?,
  drop_last, ◌==◌, if◌then◌else◌,
}
use bosque_core.Types.Syntax.{TypeSignature}
use bosque_core.CheckerEnv.Syntax.{
  RefinedType, VarInfo, update_type, reset_type, update_define, TypeInferContext, Frame, EnvFields,
  TypeEnvironment, top, inside, fields, rebuild,
}

unfoldable pub create_initial_std_env : Frame → TypeSignature → TypeInferContext → TypeEnvironment
create_initial_std_env args decl_return_type infer_return = top (record {
  normalflow = true;
  returnflow = false;
  args = args;
  decl_return_type = decl_return_type;
  infer_return = infer_return;
  locals = [] ∷ [];
})

unfoldable pub create_initial_lambda_env :
    Frame → TypeSignature → TypeInferContext → TypeEnvironment → TypeEnvironment
create_initial_lambda_env args decl_return_type infer_return enclosing = inside enclosing (record {
  normalflow = true;
  returnflow = false;
  args = args;
  decl_return_type = decl_return_type;
  infer_return = infer_return;
  locals = [] ∷ [];
})

abbrev pub find_var : String → Frame → Option VarInfo
find_var vname frame = find? (λ (v : VarInfo). v.srcname == vname) frame

-- The loop over `locals`, in the order in which it visits the frames, from the last to the first.
unfoldable pub search_locals : String → List Frame → Option VarInfo
search_locals vname [] = none
search_locals vname (frame ∷ rest) = elim (find_var vname frame) [
  | some v ↦ some v
  | none ↦ search_locals vname rest
]

unfoldable pub resolve_local_var_info_from_src_name : TypeEnvironment → String → Option VarInfo
unfolding search_locals
resolve_local_var_info_from_src_name e vname =
    elim (search_locals vname (reverse (fields e).locals)) [
      | some v ↦ some v
      | none ↦ find_var vname (fields e).args
    ]

unfoldable pub resolve_local_var_info_from_src_name_with_is_param :
    TypeEnvironment → String → Option VarInfo × Bool
unfolding search_locals
resolve_local_var_info_from_src_name_with_is_param e vname =
    elim (search_locals vname (reverse (fields e).locals)) [
      | some v ↦ (some v, false)
      | none ↦ (find_var vname (fields e).args, true)
    ]

unfoldable pub resolve_lambda_capture_var_info_from_src_name :
    TypeEnvironment → String → Option VarInfo
resolve_lambda_capture_var_info_from_src_name (top f) vname =
    resolve_local_var_info_from_src_name (top f) vname
resolve_lambda_capture_var_info_from_src_name (inside parent f) vname =
    elim (resolve_local_var_info_from_src_name (inside parent f) vname) [
      | some v ↦ some v
      | none ↦ resolve_lambda_capture_var_info_from_src_name parent vname
    ]

-- `newlocals[newlocals.length - 1].push(...vars)`
unfoldable pub push_last : List Frame → Frame → Option (List Frame)
push_last [] vars = none
push_last (frame ∷ []) vars = some ((frame ++ vars) ∷ [])
push_last (frame ∷ next ∷ rest) vars = elim (push_last (next ∷ rest) vars) [
  | none ↦ none
  | some pushed ↦ some (frame ∷ pushed)
]

unfoldable pub with_locals : TypeEnvironment → Option (List Frame) → Option TypeEnvironment
with_locals e none = none
with_locals e (some locals) = some (rebuild e (record (fields e) { locals = locals }))

unfoldable pub add_local_var :
    TypeEnvironment → String → TypeSignature → Bool → Bool → Option TypeEnvironment
add_local_var e vname vtype is_const must_defined = with_locals e (
    push_last (fields e).locals (
      record {
        srcname = vname;
        decltype = vtype;
        itype = [];
        is_const = is_const;
        must_defined = must_defined;
        is_ref = false;
      }
      ∷ []))

unfoldable pub add_local_var_set :
    TypeEnvironment → List (String × TypeSignature) → Bool → Option TypeEnvironment
add_local_var_set e vars is_const = with_locals e (
    push_last (fields e).locals (
      map
        (λ (v : String × TypeSignature). record {
          srcname = v.0;
          decltype = v.1;
          itype = [];
          is_const = is_const;
          must_defined = true;
          is_ref = false;
        })
        vars))

-- The body of both loops over a frame: each variable of the name is updated.
abbrev pub update_named : String → (VarInfo → VarInfo) → Frame → Frame
update_named vname f frame = map (λ (v : VarInfo). if v.srcname == vname then f v else v) frame

unfoldable pub assign_local_variable : TypeEnvironment → String → TypeEnvironment
assign_local_variable e vname =
    rebuild e
      (record (fields e) { locals = map (update_named vname update_define) (fields e).locals })

unfoldable pub retype_local_variable : TypeEnvironment → String → List RefinedType → TypeEnvironment
retype_local_variable e vname itype = rebuild e (record (fields e) {
  args = update_named vname (λ v. update_type v itype) (fields e).args;
  locals = map (update_named vname (λ v. update_type v itype)) (fields e).locals;
})

unfoldable pub set_dead_flow : TypeEnvironment → TypeEnvironment
set_dead_flow e = rebuild e (record (fields e) { normalflow = false; returnflow = false })

unfoldable pub set_return_flow : TypeEnvironment → TypeEnvironment
set_return_flow e = rebuild e (record (fields e) { normalflow = false; returnflow = true })

-- The parent of the new environment is the environment that the scope is pushed on.
unfoldable pub push_new_local_scope : TypeEnvironment → TypeEnvironment
push_new_local_scope e = inside e (record (fields e) { locals = (fields e).locals ++ [] ∷ [] })

unfoldable pub push_new_local_binder_scope :
    TypeEnvironment → String → TypeSignature → TypeEnvironment
push_new_local_binder_scope e vname vtype = inside e (record (fields e) {
  locals =
      (fields e).locals
      ++ (record {
        srcname = vname;
        decltype = vtype;
        itype = [];
        is_const = true;
        must_defined = true;
        is_ref = false;
      }
          ∷ [])
        ∷ [];
})

unfoldable pub pop_frames : List Frame → Option (List Frame)
pop_frames [] = none
pop_frames (frame ∷ rest) = some (drop_last (frame ∷ rest))

unfoldable pub pop_local_scope : TypeEnvironment → Option TypeEnvironment
unfolding pop_frames with_locals
pop_local_scope e = with_locals e (pop_frames (fields e).locals)

-- A frame of the environment reset to `origenv`: its variables in its order, each as it is in
-- `frame`, with the refinements of `origenv`.
unfoldable pub reset_frame : Frame → (String → Option VarInfo) → Option Frame
reset_frame [] find = some []
reset_frame (ovv ∷ rest) find = elim (find ovv.srcname) [
  | none ↦ none
  | some vv ↦ elim (reset_frame rest find) [
    | none ↦ none
    | some frame ↦ some (reset_type vv ovv.itype ∷ frame)
  ]
]

unfoldable pub reset_frames : List Frame → List Frame → Option (List Frame)
unfolding reset_frame
reset_frames [] frames = some []
reset_frames ([] ∷ origs) [] = elim (reset_frames origs []) [
  | none ↦ none
  | some fs ↦ some ([] ∷ fs)
]
reset_frames ((v ∷ vs) ∷ origs) [] = none
reset_frames (orig ∷ origs) (frame ∷ frames) = elim (reset_frame orig (λ n. find_var n frame)) [
  | none ↦ none
  | some f ↦ elim (reset_frames origs frames) [ none ↦ none | some fs ↦ some (f ∷ fs) ]
]

unfoldable pub reset_retypes : TypeEnvironment → TypeEnvironment → Option TypeEnvironment
unfolding reset_frames reset_frame
reset_retypes e origenv = elim (reset_frames (fields origenv).locals (fields e).locals) [
  | none ↦ none
  | some locals ↦
      elim (reset_frame (fields origenv).args (resolve_local_var_info_from_src_name e)) [
        | none ↦ none
        | some args ↦ some (rebuild e (record (fields e) { args = args; locals = locals }))
      ]
]

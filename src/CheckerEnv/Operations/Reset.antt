-- ===== src/CheckerEnv/Operations/Reset.antt =====
-- `resetRetypes`: what is flowed back out of a branch.
use bosque_core.Prelude.{
  ℕ, zero, suc, String, true, false, ◌≡◌, refl, sym, ◌∙◌, ap, ap₂, Option, some, List, [], ◌∷◌,
  length, ◌==◌, eq_iff, Bool-cases, Option-cases, inl, inr, str_eq_refl, reverse, some-injective,
  subst, arith,
}
use bosque_core.CheckerEnv.Syntax.{
  VarInfo, reset_type, Frame, EnvFields, TypeEnvironment, fields, rebuild,
}
use bosque_core.CheckerEnv.Operations.{
  find_var, search_locals, resolve_local_var_info_from_src_name, reset_frame, reset_frames,
  reset_retypes,
}
use bosque_core.CheckerEnv.Extends.{has_name, has_at, Extends, find_var-has_name, fields-rebuild}
use bosque_core.CheckerEnv.Frames.{
  var_at, names_of, frame_names, length-same_names, has_at-same_names, has_name-same_names,
}
use bosque_core.CheckerEnv.Operations.Lookup.{ChangesVariables}

find_var-srcname :
    (name : String) (frame : Frame) (v : VarInfo) → find_var name frame ≡ some v → v.srcname ≡ name
find_var-srcname name [] v e = cc
find_var-srcname name (w ∷ frame) v e = elim (Bool-cases (w.srcname == name)) [
  | inl hit ↦
      ap (λ (x : VarInfo). x.srcname) (sym (some-injective w v (rw hit at e)))
      ∙ (eq_iff w.srcname name).0 hit
  | inr miss ↦ find_var-srcname name frame v (rw miss at e)
]

search_locals-srcname :
    (name : String) (frames : List Frame) (v : VarInfo)
    → search_locals name frames ≡ some v
    → v.srcname ≡ name
unfolding search_locals
search_locals-srcname name [] v e = cc
search_locals-srcname name (frame ∷ frames) v e = elim (Option-cases (find_var name frame)) [
  | inl absent ↦ search_locals-srcname name frames v (rw (absent, search_locals) at e)
  | inr (w, found) ↦ find_var-srcname name frame v (found ∙ rw (found, search_locals) at e)
]

-- A lookup that finds each name of `names`, and finds it under that name.
abbrev FindsAll : Frame → (String → Option VarInfo) → Type 0
FindsAll orig find =
    (name : String)
    → has_name name orig ≡ true
    → (v : VarInfo) × (find name ≡ some v) × (v.srcname ≡ name)

FindsAll-tail :
    (ovv : VarInfo) (orig : Frame) (find : String → Option VarInfo)
    → FindsAll (ovv ∷ orig) find
    → FindsAll orig find
FindsAll-tail ovv orig find finds name h = finds name (ground (arith, h))

-- The frame after a reset: each variable of `orig`, as it is found, with the refinements of `orig`.
abbrev pub IsReset : Frame → (String → Option VarInfo) → Frame → Type 0
IsReset orig find frame =
    (name : String) (ov v : VarInfo)
    → find_var name orig ≡ some ov
    → find name ≡ some v
    → find_var name frame ≡ some (reset_type v ov.itype)

IsReset-cons :
    (ovv vv : VarInfo) (orig frame : Frame) (find : String → Option VarInfo)
    → find ovv.srcname ≡ some vv
    → vv.srcname ≡ ovv.srcname
    → IsReset orig find frame
    → IsReset (ovv ∷ orig) find (reset_type vv ovv.itype ∷ frame)
IsReset-cons ovv vv orig frame find found named is_reset name ov v there got =
    elim (Bool-cases (ovv.srcname == name)) [
      | inl hit ↦
          let same_o = some-injective ovv ov (rw hit at there) in
          let same_v =
            some-injective vv v (sym found ∙ ap find ((eq_iff ovv.srcname name).0 hit) ∙ got) in
          let hit_v : (vv.srcname == name) ≡ true = ap (λ s. s == name) named ∙ hit in
          rw hit_v (ap₂ (λ (a : VarInfo) (b : VarInfo). some (reset_type a b.itype)) same_v same_o)
      | inr miss ↦
          let miss_v : (vv.srcname == name) ≡ false = ap (λ s. s == name) named ∙ miss in
          rw miss_v (is_reset name ov v (rw miss at there) got)
    ]

reset_frame-cons :
    (ovv vv : VarInfo) (orig frame : Frame) (find : String → Option VarInfo)
    → find ovv.srcname ≡ some vv
    → reset_frame orig find ≡ some frame
    → reset_frame (ovv ∷ orig) find ≡ some (reset_type vv ovv.itype ∷ frame)
unfolding reset_frame
reset_frame-cons ovv vv orig frame find found went = rw (found, reset_frame) (rw went refl)

reset_frame-IsReset :
    (orig : Frame) (find : String → Option VarInfo)
    → FindsAll orig find
    → (frame : Frame) × (reset_frame orig find ≡ some frame)
      × IsReset orig find frame
      × (names_of frame ≡ names_of orig)
unfolding reset_frame
reset_frame-IsReset [] find finds = ([], refl, (λ name ov v absent _. cc), refl)
reset_frame-IsReset (ovv ∷ orig) find finds =
    let (vv, found, named) = finds ovv.srcname (rw str_eq_refl refl) in
    let (frame, went, is_reset, same) =
      reset_frame-IsReset orig find (FindsAll-tail ovv orig find finds) in
    (
      reset_type vv ovv.itype ∷ frame,
      reset_frame-cons ovv vv orig frame find found went,
      IsReset-cons ovv vv orig frame find found named is_reset,
      ap₂ (λ (n : String) (ns : List String). n ∷ ns) named same,
    )

-- The same for each scope.
abbrev pub IsResetFrames : List Frame → List Frame → List Frame → Type 0
IsResetFrames origs frames results =
    (i : ℕ) (name : String) (ov v : VarInfo)
    → var_at origs i name ≡ some ov
    → var_at frames i name ≡ some v
    → var_at results i name ≡ some (reset_type v ov.itype)

IsResetFrames-cons :
    (orig frame result : Frame) (origs frames results : List Frame)
    → IsReset orig (λ n. find_var n frame) result
    → IsResetFrames origs frames results
    → IsResetFrames (orig ∷ origs) (frame ∷ frames) (result ∷ results)
unfolding var_at
IsResetFrames-cons orig frame result origs frames results first rest = elim [
  | zero ↦ first
  | suc i ↦ rest i
]

find_var-named :
    (orig frame : Frame)
    → ((name : String) → has_name name orig ≡ true → has_name name frame ≡ true)
    → FindsAll orig (λ n. find_var n frame)
find_var-named orig frame kept name h =
    let (v, found) = find_var-has_name name frame (kept name h) in
    (v, found, find_var-srcname name frame v found)

reset_frames-IsReset :
    (origs frames : List Frame)
    → length frames ≡ length origs
    → ((i : ℕ) (name : String) → has_at origs i name ≡ true → has_at frames i name ≡ true)
    → (results : List Frame) × (reset_frames origs frames ≡ some results)
      × IsResetFrames origs frames results
      × (frame_names results ≡ frame_names origs)
unfolding reset_frames has_at var_at
reset_frames-IsReset [] frames len kept = ([], refl, (λ i name ov v absent _. cc), refl)
reset_frames-IsReset (orig ∷ origs) [] len kept = cc
reset_frames-IsReset (orig ∷ origs) (frame ∷ frames) len kept =
    let (result, went, first, same) =
      reset_frame-IsReset orig (λ n. find_var n frame) (find_var-named orig frame (kept zero)) in
    let (results, went', rest, same') =
      reset_frames-IsReset origs frames (omega arith) (λ i. kept (suc i)) in
    (
      result ∷ results,
      rw (went, reset_frames) (rw went' refl),
      IsResetFrames-cons orig frame result origs frames results first rest,
      ap₂ (λ (ns : List String) (nss : List (List String)). ns ∷ nss) same same',
    )

pub resolve-named :
    (e : TypeEnvironment) (orig : Frame)
    → ((name : String) → has_name name orig ≡ true → has_name name (fields e).args ≡ true)
    → FindsAll orig (resolve_local_var_info_from_src_name e)
unfolding resolve_local_var_info_from_src_name
resolve-named e orig kept name h =
    elim (Option-cases (search_locals name (reverse (fields e).locals))) [
      | inl absent ↦
          let (v, found) = find_var-has_name name (fields e).args (kept name h) in
          (
            v,
            rw (absent, resolve_local_var_info_from_src_name) found,
            find_var-srcname name (fields e).args v found,
          )
      | inr (v, found) ↦ (
        v,
        rw (found, resolve_local_var_info_from_src_name) refl,
        search_locals-srcname name (reverse (fields e).locals) v found,
      )
    ]

-- An environment of the same names extends another.
same_names-Extends :
    (orig e : TypeEnvironment)
    → frame_names (fields e).locals ≡ frame_names (fields orig).locals
    → names_of (fields e).args ≡ names_of (fields orig).args
    → (fields e).decl_return_type ≡ (fields orig).decl_return_type
    → Extends orig e
same_names-Extends orig e same same' result = record {
  depth = length-same_names (fields e).locals (fields orig).locals same;
  locals = λ i name h. has_at-same_names (fields e).locals (fields orig).locals same i name ∙ h;
  args = λ name h. has_name-same_names name (fields e).args (fields orig).args same' ∙ h;
  result = result;
}

-- Where the environment extends `origenv`, a reset does not raise. The result has in each scope and
-- among the arguments the names of `origenv`, in its order, so it extends `origenv` too. A lookup of
-- one of them in a scope finds the variable that it finds in that scope of the environment, and a
-- lookup among the arguments the one that the environment resolves the name to, with the definedness
-- that it has there and the refinements of `origenv`. The parent and all other fields are those of
-- the environment.
pub reset_retypes_lem :
    (e origenv : TypeEnvironment)
    → Extends origenv e
    → (e' : TypeEnvironment) × (reset_retypes e origenv ≡ some e')
      × IsResetFrames (fields origenv).locals (fields e).locals (fields e').locals
      × IsReset (fields origenv).args (resolve_local_var_info_from_src_name e) (fields e').args
      × (frame_names (fields e').locals ≡ frame_names (fields origenv).locals)
      × (names_of (fields e').args ≡ names_of (fields origenv).args)
      × ChangesVariables e e'
      × Extends origenv e'
unfolding reset_retypes
reset_retypes_lem e origenv ext =
    let (locals, went, is_reset, same) =
      reset_frames-IsReset (fields origenv).locals (fields e).locals ext.depth ext.locals in
    let (args, went', is_reset', same') =
      reset_frame-IsReset (fields origenv).args (resolve_local_var_info_from_src_name e)
        (resolve-named e (fields origenv).args ext.args) in
    let f : EnvFields = record (fields e) { args = args; locals = locals } in
    let now : f ≡ fields (rebuild e f) = sym (fields-rebuild e f) in
    let names : frame_names (fields (rebuild e f)).locals ≡ frame_names (fields origenv).locals =
      subst (λ (g : EnvFields). frame_names g.locals ≡ frame_names (fields origenv).locals) now
        same in
    let names' : names_of (fields (rebuild e f)).args ≡ names_of (fields origenv).args =
      subst (λ (g : EnvFields). names_of g.args ≡ names_of (fields origenv).args) now same' in
    (
      rebuild e f,
      rw (went, reset_retypes) (rw went' refl),
      subst (λ (g : EnvFields). IsResetFrames (fields origenv).locals (fields e).locals g.locals)
          now is_reset,
      subst
          (λ (g : EnvFields).
            IsReset (fields origenv).args (resolve_local_var_info_from_src_name e) g.args)
          now is_reset',
      names,
      names',
      ap (λ (g : EnvFields). rebuild e (record (fields e) { args = g.args; locals = g.locals }))
          now,
      same_names-Extends origenv (rebuild e f) names names'
          (ap (λ (g : EnvFields). g.decl_return_type) (sym now) ∙ ext.result),
    )

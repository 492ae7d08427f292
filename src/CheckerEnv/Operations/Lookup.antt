-- ===== src/CheckerEnv/Operations/Lookup.antt =====
-- Name resolution after a declaration, an assignment and a retyping.
use bosque_core.Prelude.{
  String, Bool, true, false, ◌≡◌, refl, sym, ◌∙◌, ap, ap₂, Option, none, some, List, [], ◌∷◌, ◌++◌,
  map, reverse, reverse-append, reverse-cons, map-append, ◌==◌, Bool-cases, Option-cases, inl, inr,
  str_eq_refl, subst,
}
use bosque_core.Types.Syntax.{TypeSignature}
use bosque_core.CheckerEnv.Syntax.{
  RefinedType, VarInfo, update_type, update_define, Frame, EnvFields, TypeEnvironment, fields,
  rebuild, top, inside,
}
use bosque_core.CheckerEnv.Operations.{
  find_var, search_locals, resolve_local_var_info_from_src_name,
  resolve_local_var_info_from_src_name_with_is_param, push_last, with_locals, add_local_var,
  update_named, assign_local_variable, retype_local_variable,
}
use bosque_core.CheckerEnv.Extends.{fields-rebuild}
use bosque_core.CheckerEnv.Frames.{
  updated, UpdatesOnly, find_var-update_named, update_named-UpdatesOnly,
}

push_last-append :
    (outer : List Frame) (frame vars : Frame)
    → push_last (outer ++ frame ∷ []) vars ≡ some (outer ++ (frame ++ vars) ∷ [])
unfolding push_last
push_last-append [] frame vars = refl
push_last-append (f ∷ []) frame vars = refl
push_last-append (f ∷ g ∷ outer) frame vars =
    rw (push_last-append (g ∷ outer) frame vars, push_last) refl

find_var-append_new :
    (name : String) (frame : Frame) (v : VarInfo)
    → find_var name frame ≡ none
    → v.srcname ≡ name
    → find_var name (frame ++ v ∷ []) ≡ some v
find_var-append_new name [] v absent named = rw (named, str_eq_refl name)
find_var-append_new name (w ∷ frame) v absent named = elim (Bool-cases (w.srcname == name)) [
  | inl hit ↦ cc (rw hit at absent)
  | inr miss ↦ rw miss (find_var-append_new name frame v (rw miss at absent) named)
]

find_var-append_other :
    (name : String) (frame : Frame) (v : VarInfo)
    → (v.srcname == name) ≡ false
    → find_var name (frame ++ v ∷ []) ≡ find_var name frame
find_var-append_other name [] v other = rw other
find_var-append_other name (w ∷ frame) v other = elim (Bool-cases (w.srcname == name)) [
  | inl hit ↦ rw hit
  | inr miss ↦ rw miss (find_var-append_other name frame v other)
]

abbrev or_find : Option VarInfo → Option VarInfo → Option VarInfo
or_find none other = other
or_find (some v) other = some v

search_locals-append :
    (name : String) (outer : List Frame) (frame : Frame)
    → search_locals name (reverse (outer ++ frame ∷ []))
      ≡ or_find (find_var name frame) (search_locals name (reverse outer))
unfolding search_locals
search_locals-append name outer frame =
    rw (reverse-append outer (frame ∷ [])) (elim (Option-cases (find_var name frame)) [
      | inl absent ↦ rw (absent, search_locals) refl
      | inr (v, found) ↦ rw (found, search_locals) refl
    ])

-- The resolution in an environment that an operation rebuilds.
resolve-rebuild :
    (e : TypeEnvironment) (f : EnvFields) (name : String)
    → resolve_local_var_info_from_src_name (rebuild e f) name
      ≡ or_find (search_locals name (reverse f.locals)) (find_var name f.args)
unfolding resolve_local_var_info_from_src_name
resolve-rebuild e f name = elim (Option-cases (search_locals name (reverse f.locals))) [
  | inl absent ↦
      rw (fields-rebuild e f, resolve_local_var_info_from_src_name)
        (rw absent (rw (fields-rebuild e f) refl))
  | inr (v, found) ↦ rw (fields-rebuild e f, resolve_local_var_info_from_src_name) (rw found refl)
]

rebuild-fields : (e : TypeEnvironment) → rebuild e (fields e) ≡ e
rebuild-fields (top f) = refl
rebuild-fields (inside p f) = refl

resolve-fields :
    (e : TypeEnvironment) (name : String)
    → resolve_local_var_info_from_src_name e name
      ≡ or_find (search_locals name (reverse (fields e).locals)) (find_var name (fields e).args)
resolve-fields e name =
    ap (λ x. resolve_local_var_info_from_src_name x name) (sym (rebuild-fields e))
    ∙ resolve-rebuild e (fields e) name

-- The variable that a declaration adds.
abbrev pub declared : String → TypeSignature → Bool → Bool → VarInfo
declared vname vtype is_const must_defined = record {
  srcname = vname;
  decltype = vtype;
  itype = [];
  is_const = is_const;
  must_defined = must_defined;
  is_ref = false;
}

-- Adding a local variable whose name the innermost scope does not have succeeds. Afterwards the name
-- resolves to the new variable, and any other name resolves as before.
pub resolve-add_local_var :
    (e : TypeEnvironment) (outer : List Frame) (frame : Frame) (vname name : String)
    (vtype : TypeSignature) (is_const must_defined : Bool)
    → (fields e).locals ≡ outer ++ frame ∷ []
    → find_var vname frame ≡ none
    → (vname == name) ≡ false
    → (e' : TypeEnvironment) × (add_local_var e vname vtype is_const must_defined ≡ some e')
      × (resolve_local_var_info_from_src_name e' vname
          ≡ some (declared vname vtype is_const must_defined))
      × (resolve_local_var_info_from_src_name e' name ≡ resolve_local_var_info_from_src_name e name)
unfolding add_local_var with_locals resolve_local_var_info_from_src_name search_locals
resolve-add_local_var e outer frame vname name vtype is_const must_defined shape absent other =
    let v = declared vname vtype is_const must_defined in
    let searched = λ (name : String). search_locals-append name outer (frame ++ v ∷ []) in
    (
      rebuild e (record (fields e) { locals = outer ++ (frame ++ v ∷ []) ∷ [] }),
      rw shape (rw (push_last-append outer frame (v ∷ []), with_locals) refl),
      resolve-rebuild e _ vname
          ∙ rw (searched vname) (rw (find_var-append_new vname frame v absent refl) refl),
      resolve-rebuild e _ name
          ∙ rw (searched name) (
              rw (find_var-append_other name frame v other) (
                rw (resolve-fields e name)
                  (rw shape (rw (search_locals-append name outer frame) refl)))),
    )

reverse-map {ℓ κ} :
    {A : Type ℓ} {B : Type κ} (f : A → B) (xs : List A) → reverse (map f xs) ≡ map f (reverse xs)
reverse-map f [] = refl
reverse-map f (x ∷ xs) =
    rw (reverse-cons (f x) (map f xs))
      (rw (reverse-cons x xs) (rw (reverse-map f xs) (rw map-append)))

module _ (vname : String) (f : VarInfo → VarInfo)
    (keeps : (v : VarInfo) → (f v).srcname ≡ v.srcname) where
  search_locals-update_named :
      (name : String) (frames : List Frame)
      → search_locals name (map (update_named vname f) frames)
        ≡ updated vname f (search_locals name frames)
  unfolding search_locals
  search_locals-update_named name [] = refl
  search_locals-update_named name (frame ∷ frames) =
      let first = find_var-update_named vname f keeps name frame in
      elim (Option-cases (find_var name frame)) [
        | inl absent ↦
            rw (first ∙ ap (updated vname f) absent, search_locals)
              (rw (absent, search_locals) (search_locals-update_named name frames))
        | inr (v, found) ↦
            rw (first ∙ ap (updated vname f) found, search_locals) (rw (found, search_locals) refl)
      ]

  search_locals-updated :
      (name : String) (frames : List Frame)
      → search_locals name (reverse (map (update_named vname f) frames))
        ≡ updated vname f (search_locals name (reverse frames))
  search_locals-updated name frames =
      rw (reverse-map (update_named vname f) frames)
        (search_locals-update_named name (reverse frames))

-- An assignment marks a local variable as defined and never an argument.
abbrev pub assigned : String → Option VarInfo × Bool → Option VarInfo × Bool
assigned vname (v, true) = (v, true)
assigned vname (v, false) = (updated vname update_define v, false)

abbrev param_find : Option VarInfo → Option VarInfo → Option VarInfo × Bool
param_find none other = (other, true)
param_find (some v) other = (some v, false)

with_is_param-fields :
    (e : TypeEnvironment) (name : String)
    → resolve_local_var_info_from_src_name_with_is_param e name
      ≡ param_find (search_locals name (reverse (fields e).locals)) (find_var name (fields e).args)
unfolding resolve_local_var_info_from_src_name_with_is_param
with_is_param-fields e name = elim (Option-cases (search_locals name (reverse (fields e).locals))) [
  | inl absent ↦ rw (absent, resolve_local_var_info_from_src_name_with_is_param) refl
  | inr (v, found) ↦ rw (found, resolve_local_var_info_from_src_name_with_is_param) refl
]

param_find-updated :
    (vname : String) (a b : Option VarInfo)
    → param_find (updated vname update_define a) b ≡ assigned vname (param_find a b)
param_find-updated vname none b = refl
param_find-updated vname (some v) b = refl

-- An environment that differs from `e` in no field but the local variables.
abbrev pub ChangesLocals : TypeEnvironment → TypeEnvironment → Type 0
ChangesLocals e e' = e' ≡ rebuild e (record (fields e) { locals = (fields e').locals })

-- The same for the arguments and the local variables.
abbrev pub ChangesVariables : TypeEnvironment → TypeEnvironment → Type 0
ChangesVariables e e' =
    e' ≡ rebuild e (record (fields e) { args = (fields e').args; locals = (fields e').locals })

-- An assignment changes no field but the local variables, and of these none but the ones of the
-- assigned name, in every scope, which it marks as defined. A name that resolves to a local variable
-- then resolves to the same variable, marked as defined when it is the assigned name, and a name that
-- resolves to an argument is unchanged.
pub resolve-assign_local_variable :
    (e : TypeEnvironment) (vname name : String)
    → (resolve_local_var_info_from_src_name_with_is_param (assign_local_variable e vname) name
        ≡ assigned vname (resolve_local_var_info_from_src_name_with_is_param e name))
      × ChangesLocals e (assign_local_variable e vname)
      × UpdatesOnly vname update_define
          (fields e).locals
          (fields (assign_local_variable e vname)).locals
unfolding assign_local_variable
resolve-assign_local_variable e vname name =
    let locals = map (update_named vname update_define) (fields e).locals in
    let now : locals ≡ (fields (assign_local_variable e vname)).locals =
      sym (ap (λ (f : EnvFields). f.locals) (fields-rebuild e _)) in
    (
      with_is_param-fields (assign_local_variable e vname) name
          ∙ rw (fields-rebuild e) (
              rw (search_locals-updated vname update_define (λ v. refl) name (fields e).locals) (
                param_find-updated vname (search_locals name (reverse (fields e).locals))
                  (find_var name (fields e).args)
                ∙ ap (assigned vname) (sym (with_is_param-fields e name)))),
      ap (λ ls. rebuild e (record (fields e) { locals = ls })) now,
      subst (UpdatesOnly vname update_define (fields e).locals) now
          (update_named-UpdatesOnly vname update_define (λ v. refl) (fields e).locals),
    )

updated-or_find :
    (vname : String) (f : VarInfo → VarInfo) (a b : Option VarInfo)
    → or_find (updated vname f a) (updated vname f b) ≡ updated vname f (or_find a b)
updated-or_find vname f none b = refl
updated-or_find vname f (some v) b = refl

-- The arguments, before the frames of the local variables.
abbrev pub all_frames : TypeEnvironment → List Frame
all_frames e = (fields e).args ∷ (fields e).locals

-- A retyping changes no field but the arguments and the local variables, and of these none but the
-- ones of the retyped name, which get the new refinements. Every name then resolves to the variable
-- or argument as before, with the new refinements when it is the retyped name.
pub resolve-retype_local_variable :
    (e : TypeEnvironment) (vname name : String) (itype : List RefinedType)
    → (resolve_local_var_info_from_src_name (retype_local_variable e vname itype) name
        ≡ updated vname (λ v. update_type v itype) (resolve_local_var_info_from_src_name e name))
      × ChangesVariables e (retype_local_variable e vname itype)
      × UpdatesOnly vname
          (λ v. update_type v itype)
          (all_frames e)
          (all_frames (retype_local_variable e vname itype))
unfolding retype_local_variable resolve_local_var_info_from_src_name
resolve-retype_local_variable e vname name itype =
    let f : VarInfo → VarInfo = λ v. update_type v itype in
    let args = update_named vname f (fields e).args in
    let locals = map (update_named vname f) (fields e).locals in
    let now : fields (retype_local_variable e vname itype)
        ≡ record (fields e) { args = args; locals = locals } =
      fields-rebuild e _ in
    (
      resolve-rebuild e _ name
          ∙ ap₂ or_find (search_locals-updated vname f (λ v. refl) name (fields e).locals)
              (find_var-update_named vname f (λ v. refl) name (fields e).args)
          ∙ updated-or_find vname f _ _
          ∙ ap (updated vname f) (sym (resolve-fields e name)),
      ap (λ (g : EnvFields). rebuild e (record (fields e) { args = g.args; locals = g.locals }))
          (sym now),
      subst (UpdatesOnly vname f (all_frames e))
          (ap (λ (g : EnvFields). g.args ∷ g.locals) (sym now))
          (update_named-UpdatesOnly vname f (λ v. refl) (all_frames e)),
    )

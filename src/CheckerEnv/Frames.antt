-- ===== src/CheckerEnv/Frames.antt =====
-- The frames of src/frontend/checker_environment.ts, by the names that they have and the variables
-- that a lookup finds.
use bosque_core.Prelude.{
  ℕ, zero, suc, String, Bool, true, false, ◌≡◌, refl, sym, ◌∙◌, ap, ap₂, Option, none, some, List,
  [], ◌∷◌, map, ◌==◌, ◌||◌, length, get_elem?, has, Bool-cases, inl, inr, if◌then◌else◌,
}
use bosque_core.CheckerEnv.Syntax.{VarInfo, Frame}
use bosque_core.CheckerEnv.Operations.{find_var, update_named}
use bosque_core.CheckerEnv.Extends.{has_name, has_at, find_var-has_name}

-- The variable of a name in the scope `i`.
unfoldable pub var_at : List Frame → ℕ → String → Option VarInfo
var_at frames i name = elim (get_elem? frames i) [ none ↦ none | some frame ↦ find_var name frame ]

pub find_var-named :
    (name : String) (frame : Frame) (v : VarInfo)
    → find_var name frame ≡ some v
    → has_name name frame ≡ true
find_var-named name [] v e = cc
find_var-named name (w ∷ frame) v e = elim (Bool-cases (w.srcname == name)) [
  | inl hit ↦ rw hit refl
  | inr miss ↦ rw miss (find_var-named name frame v (rw miss at e))
]

pub var_at-has_at :
    (frames : List Frame) (i : ℕ) (name : String)
    → has_at frames i name ≡ true
    → (v : VarInfo) × (var_at frames i name ≡ some v)
unfolding var_at has_at
var_at-has_at [] i name h = cc
var_at-has_at (frame ∷ frames) zero name h = find_var-has_name name frame h
var_at-has_at (frame ∷ frames) (suc i) name h = var_at-has_at frames i name h

-- The names of a frame, in its order.
abbrev pub names_of : Frame → List String
names_of frame = map (λ (v : VarInfo). v.srcname) frame

abbrev pub frame_names : List Frame → List (List String)
frame_names frames = map names_of frames

length-frame_names : (frames : List Frame) → length (frame_names frames) ≡ length frames
length-frame_names [] = refl
length-frame_names (frame ∷ frames) = ap suc (length-frame_names frames)

has-names_of : (name : String) (frame : Frame) → has name (names_of frame) ≡ has_name name frame
has-names_of name [] = refl
has-names_of name (v ∷ frame) = ap (λ b. v.srcname == name || b) (has-names_of name frame)

named_at : List (List String) → ℕ → String → Bool
named_at names i name = elim (get_elem? names i) [ none ↦ false | some ns ↦ has name ns ]

named_at-frame_names :
    (frames : List Frame) (i : ℕ) (name : String)
    → named_at (frame_names frames) i name ≡ has_at frames i name
unfolding has_at named_at
named_at-frame_names [] i name = refl
named_at-frame_names (frame ∷ frames) zero name = has-names_of name frame
named_at-frame_names (frame ∷ frames) (suc i) name = named_at-frame_names frames i name

-- Frames of the same names.
module _ (fs gs : List Frame) (same : frame_names fs ≡ frame_names gs) where
  pub length-same_names : length fs ≡ length gs
  length-same_names = sym (length-frame_names fs) ∙ ap length same ∙ length-frame_names gs

  pub has_at-same_names : (i : ℕ) (name : String) → has_at fs i name ≡ has_at gs i name
  has_at-same_names i name =
      sym (named_at-frame_names fs i name)
      ∙ ap (λ names. named_at names i name) same
      ∙ named_at-frame_names gs i name

pub has_name-same_names :
    (name : String) (f g : Frame) → names_of f ≡ names_of g → has_name name f ≡ has_name name g
has_name-same_names name f g same =
    sym (has-names_of name f) ∙ ap (has name) same ∙ has-names_of name g

-- An update of the variables of one name, seen by a lookup.
abbrev pub updated : String → (VarInfo → VarInfo) → Option VarInfo → Option VarInfo
updated vname f none = none
updated vname f (some v) = some (if v.srcname == vname then f v else v)

-- The variable at the place `j` of the scope `i`.
unfoldable pub slot_at : List Frame → ℕ → ℕ → Option VarInfo
slot_at frames i j = elim (get_elem? frames i) [ none ↦ none | some frame ↦ get_elem? frame j ]

-- The frames `gs` have the variables of `fs` in the same places, with those of the name `vname`
-- updated.
abbrev pub UpdatesOnly : String → (VarInfo → VarInfo) → List Frame → List Frame → Type 0
UpdatesOnly vname f fs gs =
    (frame_names gs ≡ frame_names fs)
    × ((i j : ℕ) → slot_at gs i j ≡ updated vname f (slot_at fs i j))

get_elem?-update_named :
    (vname : String) (f : VarInfo → VarInfo) (frame : Frame) (j : ℕ)
    → get_elem? (update_named vname f frame) j ≡ updated vname f (get_elem? frame j)
get_elem?-update_named vname f [] j = refl
get_elem?-update_named vname f (v ∷ frame) zero = refl
get_elem?-update_named vname f (v ∷ frame) (suc j) = get_elem?-update_named vname f frame j

module _ (vname : String) (f : VarInfo → VarInfo)
    (keeps : (v : VarInfo) → (f v).srcname ≡ v.srcname) where
  update-srcname : (v : VarInfo) → (if v.srcname == vname then f v else v).srcname ≡ v.srcname
  update-srcname v = elim (Bool-cases (v.srcname == vname)) [
    | inl hit ↦ rw hit (keeps v)
    | inr other ↦ rw other refl
  ]

  pub find_var-update_named :
      (name : String) (frame : Frame)
      → find_var name (update_named vname f frame) ≡ updated vname f (find_var name frame)
  find_var-update_named name [] = refl
  find_var-update_named name (v ∷ frame) =
      let head = ap (λ s. s == name) (update-srcname v) in
      elim (Bool-cases (v.srcname == name)) [
        | inl found ↦ rw (head ∙ found) (rw found refl)
        | inr miss ↦ rw (head ∙ miss) (rw miss (find_var-update_named name frame))
      ]

  names_of-update_named : (frame : Frame) → names_of (update_named vname f frame) ≡ names_of frame
  names_of-update_named [] = refl
  names_of-update_named (v ∷ frame) =
      ap₂ (λ (n : String) (ns : List String). n ∷ ns) (update-srcname v)
        (names_of-update_named frame)

  pub update_named-UpdatesOnly :
      (frames : List Frame) → UpdatesOnly vname f frames (map (update_named vname f) frames)
  unfolding slot_at
  update_named-UpdatesOnly [] = (refl, λ i j. refl)
  update_named-UpdatesOnly (frame ∷ frames) =
      let (same, found) = update_named-UpdatesOnly frames in
      (
        ap₂ (λ (ns : List String) (nss : List (List String)). ns ∷ nss)
            (names_of-update_named frame) same,
        elim [ zero ↦ get_elem?-update_named vname f frame | suc i ↦ found i ],
      )

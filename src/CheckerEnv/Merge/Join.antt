-- ===== src/CheckerEnv/Merge/Join.antt =====
-- What a merge computes: a variable is defined after it exactly when it is defined at the end of
-- every branch that the flow leaves normally.
use bosque_core.Prelude.{
  ℕ, zero, suc, ◌+◌, String, Bool, true, false, ◌≡◌, refl, sym, ◌∙◌, ap, Option, none, some, List,
  [], ◌∷◌, map, any, all, ◌==◌, eq_iff, length, get_elem?, arith, All, All-map, some-injective,
  Bool-cases, Option-cases, inl, inr, str_eq_refl,
}
use bosque_core.CheckerEnv.Syntax.{VarInfo, Frame, EnvFields, TypeEnvironment, fields, rebuild}
use bosque_core.CheckerEnv.Operations.{find_var}
use bosque_core.CheckerEnv.Merge.{
  must_defined_at, every, merge_frame, merge_frames, normal_envs, merge_environments_simple,
}
use bosque_core.CheckerEnv.Extends.{
  has_name, has_at, Extends, KeepsLocals, find_var-has_name, fields-rebuild,
}

-- The variable of the name in the scope `i` is there and defined.
unfoldable pub defined_at : ℕ → String → TypeEnvironment → Bool
defined_at i name e = elim (must_defined_at i name e) [ none ↦ false | some b ↦ b ]

must_defined_at-has_at :
    (i : ℕ) (name : String) (e : TypeEnvironment)
    → has_at (fields e).locals i name ≡ true
    → must_defined_at i name e ≡ some (defined_at i name e)
unfolding must_defined_at has_at defined_at
must_defined_at-has_at i name e h = elim (Option-cases (get_elem? (fields e).locals i)) [
  | inl absent ↦ cc (rw (absent, has_at) at h)
  | inr (frame, there) ↦
      let (v, found) = find_var-has_name name frame (rw (there, has_at) at h) in
      rw (there, must_defined_at, defined_at) (rw found refl)
]

every-all :
    (test : TypeEnvironment → Option Bool) (value : TypeEnvironment → Bool)
    (es : List TypeEnvironment)
    → All (λ e. test e ≡ some (value e)) es
    → every test es ≡ some (all value es)
unfolding every
every-all test value [] h = refl
every-all test value (e ∷ es) h = elim (Bool-cases (value e)) [
  | inl yes_there ↦ rw (h.0, every) (rw (yes_there, every) (every-all test value es h.1))
  | inr not_there ↦ rw (h.0, every) (rw (not_there, every) refl)
]

-- A variable of a scope after the merge.
abbrev pub joined : List TypeEnvironment → ℕ → VarInfo → VarInfo
joined es i v = record v { must_defined = all (defined_at i v.srcname) es }

abbrev HasAll : List TypeEnvironment → ℕ → String → Type 0
HasAll es i name = All (λ e. has_at (fields e).locals i name ≡ true) es

merge_frame-joined :
    (es : List TypeEnvironment) (i : ℕ) (f : Frame)
    → All (λ v. HasAll es i v.srcname) f
    → merge_frame es i f ≡ some (map (joined es i) f)
unfolding merge_frame
merge_frame-joined es i [] h = refl
merge_frame-joined es i (v ∷ f) h =
    let head =
      every-all (must_defined_at i v.srcname) (defined_at i v.srcname) es
        (All-map (λ e. must_defined_at-has_at i v.srcname e) es h.0) in
    rw (head, merge_frame) (rw (merge_frame-joined es i f h.1) refl)

-- Every variable's name is a name of its frame.
names_present : (f : Frame) → All (λ (v : VarInfo). has_name v.srcname f ≡ true) f
names_present [] = tt
names_present (v ∷ f) =
    (rw str_eq_refl, All-map (λ (w : VarInfo) h. ground (arith, h)) f (names_present f))

abbrev pub joined_frames : List TypeEnvironment → ℕ → List Frame → List Frame
joined_frames es i [] = []
joined_frames es i (f ∷ fs) = map (joined es i) f ∷ joined_frames es (suc i) fs

merge_frames-joined :
    (es : List TypeEnvironment) (i : ℕ) (fs : List Frame)
    → ((j k : ℕ) (name : String) → k ≡ i + j → has_at fs j name ≡ true → HasAll es k name)
    → merge_frames es i fs ≡ some (joined_frames es i fs)
unfolding merge_frames has_at
merge_frames-joined es i [] h = refl
merge_frames-joined es i (f ∷ fs) h =
    let head =
      merge_frame-joined es i f (
        All-map (λ (v : VarInfo) here. h zero i v.srcname (omega arith) here) f
          (names_present f)) in
    let rest = merge_frames-joined es (suc i) fs (λ j k name e. h (suc j) k name (omega arith)) in
    rw (head, merge_frames) (rw rest refl)

find_var-joined :
    (es : List TypeEnvironment) (i : ℕ) (name : String) (f : Frame) (v : VarInfo)
    → find_var name f ≡ some v
    → (find_var name (map (joined es i) f) ≡ some (joined es i v)) × (v.srcname ≡ name)
find_var-joined es i name [] v e = cc
find_var-joined es i name (w ∷ f) v e = elim (Bool-cases (w.srcname == name)) [
  | inl hit ↦
      let same = some-injective w v (rw hit at e) in
      (
        rw hit (ap (λ x. some (joined es i x)) same),
        ap (λ (x : VarInfo). x.srcname) (sym same) ∙ (eq_iff w.srcname name).0 hit,
      )
  | inr miss ↦
      let (found, named) = find_var-joined es i name f v (rw miss at e) in (rw miss found, named)
]

joined_frames-must_defined :
    (es : List TypeEnvironment) (i j k : ℕ) (name : String) (fs : List Frame)
    → k ≡ i + j
    → has_at fs j name ≡ true
    → (frame : Frame) × (v : VarInfo) × (get_elem? (joined_frames es i fs) j ≡ some frame)
      × (find_var name frame ≡ some v)
      × (v.must_defined ≡ all (defined_at k name) es)
unfolding has_at
joined_frames-must_defined es i j k name [] eq h = cc
joined_frames-must_defined es i zero k name (f ∷ fs) eq h =
    let (v, found) = find_var-has_name name f h in
    let (found', named) = find_var-joined es i name f v found in
    let here : k ≡ i = omega arith in
    (map (joined es i) f, joined es i v, refl, found', rw (named, here) refl)
joined_frames-must_defined es i (suc j) k name (f ∷ fs) eq h =
    joined_frames-must_defined es (suc i) j k name fs (omega arith) h

has_name-joined :
    (es : List TypeEnvironment) (i : ℕ) (name : String) (f : Frame)
    → has_name name (map (joined es i) f) ≡ has_name name f
has_name-joined es i name [] = refl
has_name-joined es i name (v ∷ f) = rw (has_name-joined es i name f)

length-joined_frames :
    (es : List TypeEnvironment) (i : ℕ) (fs : List Frame)
    → length (joined_frames es i fs) ≡ length fs
length-joined_frames es i [] = refl
length-joined_frames es i (f ∷ fs) = ap suc (length-joined_frames es (suc i) fs)

-- The environment after a merge.
abbrev pub merged : TypeEnvironment → List TypeEnvironment → TypeEnvironment
merged origenv envs = rebuild origenv (record (fields origenv) {
  normalflow = any (λ e. (fields e).normalflow) envs;
  returnflow = all (λ e. (fields e).returnflow) envs;
  locals = joined_frames (normal_envs envs) zero (fields origenv).locals;
})

All-HasAll :
    (orig : TypeEnvironment) (es : List TypeEnvironment) (k : ℕ) (name : String)
    → All (KeepsLocals orig) es
    → has_at (fields orig).locals k name ≡ true
    → HasAll es k name
All-HasAll orig es k name ext h = All-map (λ e (x : KeepsLocals orig e). x k name h) es ext

pub merge-kept :
    (orig : TypeEnvironment) (envs : List TypeEnvironment)
    → All (KeepsLocals orig) (normal_envs envs)
    → merge_environments_simple orig envs ≡ some (merged orig envs)
unfolding merge_environments_simple
merge-kept orig envs ext =
    let went = merge_frames-joined (normal_envs envs) zero (fields orig).locals (λ j k name eq h.
      let same : k ≡ j = omega arith in
      All-HasAll orig (normal_envs envs) k name ext (rw same h)) in
    rw (went, merge_environments_simple) refl

pub merge-merged :
    (orig : TypeEnvironment) (envs : List TypeEnvironment)
    → All (Extends orig) (normal_envs envs)
    → merge_environments_simple orig envs ≡ some (merged orig envs)
merge-merged orig envs ext =
    merge-kept orig envs (All-map (λ e (x : Extends orig e). x.locals) (normal_envs envs) ext)

pub must_defined_at-merged :
    (orig : TypeEnvironment) (envs : List TypeEnvironment) (i : ℕ) (name : String)
    → has_at (fields orig).locals i name ≡ true
    → must_defined_at i name (merged orig envs) ≡ some (all (defined_at i name) (normal_envs envs))
unfolding must_defined_at
must_defined_at-merged orig envs i name h =
    let (frame, v, there, found, defined) =
      joined_frames-must_defined (normal_envs envs) zero i i name (fields orig).locals (omega arith)
        h in
    rw (fields-rebuild, must_defined_at) (rw (there, must_defined_at) (rw found (ap some defined)))

-- Where the branches that the flow leaves normally extend the environment before them, a merge does
-- not raise. The result has the scopes, arguments and parent of that environment and the flow flags
-- of the branches, and a variable of one of its scopes is defined after the merge exactly when every
-- branch with normal flow has defined it.
pub merge_environments_simple_lem :
    (orig : TypeEnvironment) (envs : List TypeEnvironment) (i : ℕ) (name : String)
    → All (Extends orig) (normal_envs envs)
    → has_at (fields orig).locals i name ≡ true
    → (merge_environments_simple orig envs ≡ some (merged orig envs))
      × (must_defined_at i name (merged orig envs)
          ≡ some (all (defined_at i name) (normal_envs envs)))
      × ((fields (merged orig envs)).normalflow ≡ any (λ e. (fields e).normalflow) envs)
      × ((fields (merged orig envs)).returnflow ≡ all (λ e. (fields e).returnflow) envs)
merge_environments_simple_lem orig envs i name ext h = (
  merge-merged orig envs ext,
  must_defined_at-merged orig envs i name h,
  rw fields-rebuild,
  rw fields-rebuild,
)

has_at-joined_frames :
    (es : List TypeEnvironment) (i j : ℕ) (name : String) (fs : List Frame)
    → has_at fs j name ≡ true
    → has_at (joined_frames es i fs) j name ≡ true
unfolding has_at
has_at-joined_frames es i j name [] h = cc
has_at-joined_frames es i zero name (f ∷ fs) h = has_name-joined es i name f ∙ h
has_at-joined_frames es i (suc j) name (f ∷ fs) h = has_at-joined_frames es (suc i) j name fs h

pub Extends-merged :
    (orig : TypeEnvironment) (envs : List TypeEnvironment) → Extends orig (merged orig envs)
Extends-merged orig envs = record {
  depth = rw fields-rebuild (length-joined_frames (normal_envs envs) zero (fields orig).locals);
  locals = λ i name h.
      rw fields-rebuild
        (has_at-joined_frames (normal_envs envs) zero i name (fields orig).locals h);
  args = λ name h. rw fields-rebuild h;
  result = ap (λ (f : EnvFields). f.decl_return_type) (fields-rebuild orig _);
}

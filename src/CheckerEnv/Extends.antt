-- ===== src/CheckerEnv/Extends.antt =====
-- An environment that the checker reaches from another has the other's scopes and variables.
use bosque_core.Prelude.{
  ℕ, zero, suc, String, Bool, true, false, ◌≡◌, refl, ◌∙◌, ap, Option, none, some, List, [], ◌∷◌,
  ◌++◌, map, any, ◌==◌, length, get_elem?, arith, Option-cases, Bool-cases, inl, inr, subst,
  some-injective,
}
use bosque_core.Types.Syntax.{TypeSignature}
use bosque_core.CheckerEnv.Syntax.{
  RefinedType, VarInfo, update_type, update_define, Frame, EnvFields, TypeEnvironment, fields,
  rebuild, top, inside,
}
use bosque_core.CheckerEnv.Operations.{
  find_var, update_named, push_last, with_locals, add_local_var, add_local_var_set,
  assign_local_variable, retype_local_variable, set_dead_flow, set_return_flow,
}

-- `frame` has a variable of the name.
abbrev pub has_name : String → Frame → Bool
has_name name frame = any (λ (v : VarInfo). v.srcname == name) frame

unfoldable pub has_at : List Frame → ℕ → String → Bool
has_at frames i name = elim (get_elem? frames i) [ none ↦ false | some frame ↦ has_name name frame ]

-- The same number of scopes, each with all the variables of the scope in its place, the same for
-- the arguments, and the same declared return type.
pub record Extends (orig e : TypeEnvironment) : Type 0 where
  pub depth : length (fields e).locals ≡ length (fields orig).locals
  pub locals :
      (i : ℕ) (name : String)
      → has_at (fields orig).locals i name ≡ true
      → has_at (fields e).locals i name ≡ true
  pub args :
      (name : String)
      → has_name name (fields orig).args ≡ true
      → has_name name (fields e).args ≡ true
  pub result : (fields e).decl_return_type ≡ (fields orig).decl_return_type

-- The part of it on the local variables alone.
abbrev pub KeepsLocals : TypeEnvironment → TypeEnvironment → Type 0
KeepsLocals orig e =
    (i : ℕ) (name : String)
    → has_at (fields orig).locals i name ≡ true
    → has_at (fields e).locals i name ≡ true

pub Extends-refl : (e : TypeEnvironment) → Extends e e
Extends-refl e = record { depth = refl; locals = λ i name h. h; args = λ name h. h; result = refl }

pub Extends-trans : {a b c : TypeEnvironment} → Extends a b → Extends b c → Extends a c
Extends-trans p q = record {
  depth = q.depth ∙ p.depth;
  locals = λ i name h. q.locals i name (p.locals i name h);
  args = λ name h. q.args name (p.args name h);
  result = q.result ∙ p.result;
}

-- `find` succeeds on the names that are there.
pub find_var-has_name :
    (name : String) (frame : Frame)
    → has_name name frame ≡ true
    → (v : VarInfo) × (find_var name frame ≡ some v)
find_var-has_name name [] h = cc
find_var-has_name name (v ∷ frame) h = elim (Bool-cases (v.srcname == name)) [
  | inl hit ↦ (v, rw hit)
  | inr miss ↦ let (w, found) = find_var-has_name name frame (rw miss at h) in (w, rw miss found)
]

pub fields-rebuild : (e : TypeEnvironment) (f : EnvFields) → fields (rebuild e f) ≡ f
fields-rebuild (top g) f = refl
fields-rebuild (inside p g) f = refl

module _ (vname : String) (f : VarInfo → VarInfo)
    (keeps : (v : VarInfo) → (f v).srcname ≡ v.srcname) where
  has_name-update_named :
      (name : String) (frame : Frame)
      → has_name name (update_named vname f frame) ≡ has_name name frame
  has_name-update_named name [] = refl
  has_name-update_named name (v ∷ frame) = elim (Bool-cases (v.srcname == vname)) [
    | inl hit ↦ rw (hit, keeps v, has_name-update_named name frame)
    | inr miss ↦ rw (miss, has_name-update_named name frame)
  ]

  has_at-update_named :
      (frames : List Frame) (i : ℕ) (name : String)
      → has_at (map (update_named vname f) frames) i name ≡ has_at frames i name
  unfolding has_at
  has_at-update_named [] i name = refl
  has_at-update_named (frame ∷ frames) zero name = has_name-update_named name frame
  has_at-update_named (frame ∷ frames) (suc i) name = has_at-update_named frames i name

  length-update_named :
      (frames : List Frame) → length (map (update_named vname f) frames) ≡ length frames
  length-update_named [] = refl
  length-update_named (frame ∷ frames) = ap suc (length-update_named frames)

pub Extends-assign :
    (e : TypeEnvironment) (vname : String) → Extends e (assign_local_variable e vname)
unfolding assign_local_variable
Extends-assign e vname = record {
  depth = rw fields-rebuild (length-update_named vname update_define (λ v. refl) (fields e).locals);
  locals = λ i name h.
      rw fields-rebuild
        (has_at-update_named vname update_define (λ v. refl) (fields e).locals i name ∙ h);
  args = λ name h. rw fields-rebuild h;
  result = ap (λ (f : EnvFields). f.decl_return_type) (fields-rebuild e _);
}

pub Extends-retype :
    (e : TypeEnvironment) (vname : String) (itype : List RefinedType)
    → Extends e (retype_local_variable e vname itype)
unfolding retype_local_variable
Extends-retype e vname itype = record {
  depth =
      rw fields-rebuild
        (length-update_named vname (λ v. update_type v itype) (λ v. refl) (fields e).locals);
  locals = λ i name h. rw fields-rebuild (
      has_at-update_named vname (λ v. update_type v itype) (λ v. refl) (fields e).locals i name
      ∙ h);
  args = λ name h.
      rw fields-rebuild (
        has_name-update_named vname (λ v. update_type v itype) (λ v. refl) name (fields e).args
        ∙ h);
  result = ap (λ (f : EnvFields). f.decl_return_type) (fields-rebuild e _);
}

pub Extends-set_return_flow : (e : TypeEnvironment) → Extends e (set_return_flow e)
unfolding set_return_flow
Extends-set_return_flow e = record {
  depth = rw fields-rebuild;
  locals = λ i name h. rw fields-rebuild h;
  args = λ name h. rw fields-rebuild h;
  result = ap (λ (f : EnvFields). f.decl_return_type) (fields-rebuild e _);
}

pub Extends-set_dead_flow : (e : TypeEnvironment) → Extends e (set_dead_flow e)
unfolding set_dead_flow
Extends-set_dead_flow e = record {
  depth = rw fields-rebuild;
  locals = λ i name h. rw fields-rebuild h;
  args = λ name h. rw fields-rebuild h;
  result = ap (λ (f : EnvFields). f.decl_return_type) (fields-rebuild e _);
}

has_name-append_left :
    (name : String) (xs ys : Frame) → has_name name xs ≡ true → has_name name (xs ++ ys) ≡ true
has_name-append_left name [] ys h = cc
has_name-append_left name (v ∷ xs) ys h = ground (arith, has_name-append_left name xs ys)

-- As many frames, and every name in its frame.
abbrev FramesKept : List Frame → List Frame → Type 0
FramesKept frames frames' =
    (length frames' ≡ length frames)
    × ((i : ℕ) (name : String) → has_at frames i name ≡ true → has_at frames' i name ≡ true)

FramesKept-cons :
    (f f' : Frame) (fs fs' : List Frame)
    → ((name : String) → has_name name f ≡ true → has_name name f' ≡ true)
    → FramesKept fs fs'
    → FramesKept (f ∷ fs) (f' ∷ fs')
unfolding has_at
FramesKept-cons f f' fs fs' first rest =
    (ap suc rest.0, elim [ zero ↦ λ name h. first name h | suc i ↦ λ name h. rest.1 i name h ])

push_last-FramesKept :
    (frames : List Frame) (vars : Frame) {pushed : List Frame}
    → push_last frames vars ≡ some pushed
    → FramesKept frames pushed
unfolding push_last
push_last-FramesKept [] vars e = cc
push_last-FramesKept (frame ∷ []) vars e = subst (FramesKept (frame ∷ [])) (some-injective _ _ e) (
    FramesKept-cons frame (frame ++ vars) [] [] (λ name. has_name-append_left name frame vars)
      (refl, λ i name h. h))
push_last-FramesKept (frame ∷ next ∷ rest) vars e =
    elim (Option-cases (push_last (next ∷ rest) vars)) [
      | inl stuck ↦ cc (rw stuck at e)
      | inr (tail, went) ↦
          subst (FramesKept (frame ∷ next ∷ rest)) (some-injective _ _ (rw went at e)) (
            FramesKept-cons frame frame (next ∷ rest) tail (λ name h. h)
              (push_last-FramesKept (next ∷ rest) vars went))
    ]

with_locals-Extends :
    (e : TypeEnvironment) (pushed : Option (List Frame)) {e' : TypeEnvironment}
    → ((frames : List Frame) → pushed ≡ some frames → FramesKept (fields e).locals frames)
    → with_locals e pushed ≡ some e'
    → Extends e e'
unfolding with_locals
with_locals-Extends e none kept eq = cc
with_locals-Extends e (some frames) kept eq =
    let k = kept frames refl in
    subst (Extends e) (some-injective _ _ eq) (record {
      depth = rw fields-rebuild k.0;
      locals = λ i name h. rw fields-rebuild (k.1 i name h);
      args = λ name h. rw fields-rebuild h;
      result = ap (λ (f : EnvFields). f.decl_return_type) (fields-rebuild e _);
    })

pub Extends-add_local_var :
    (e : TypeEnvironment) (vname : String) (vtype : TypeSignature) (is_const must_defined : Bool)
    {e' : TypeEnvironment}
    → add_local_var e vname vtype is_const must_defined ≡ some e'
    → Extends e e'
unfolding add_local_var
Extends-add_local_var e vname vtype is_const must_defined eq =
    with_locals-Extends e _ (λ frames. push_last-FramesKept (fields e).locals _) eq

pub Extends-add_local_var_set :
    (e : TypeEnvironment) (vars : List (String × TypeSignature)) (is_const : Bool)
    {e' : TypeEnvironment}
    → add_local_var_set e vars is_const ≡ some e'
    → Extends e e'
unfolding add_local_var_set
Extends-add_local_var_set e vars is_const eq =
    with_locals-Extends e _ (λ frames. push_last-FramesKept (fields e).locals _) eq

-- ===== src/Checker/Sound/Keeps.antt =====
-- Soundness of one step: how the environment after a statement stands to the paths through it.
use bosque_core.Prelude.{
  ℕ, zero, suc, String, Bool, true, false, ◌&&◌, ◌||◌, ◌≡◌, refl, sym, ◌∙◌, ap, Option, none, some,
  List, [], ◌∷◌, ◌++◌, map, ◌==◌, eq_iff, Bool-cases, Option-cases, inl, inr, some-injective,
  str_eq_sym, subst,
}
use bosque_core.Types.Syntax.{TypeSignature}
use bosque_core.CheckerEnv.Syntax.{
  RefinedType, VarInfo, update_type, update_define, Frame, EnvFields, TypeEnvironment, fields,
}
use bosque_core.CheckerEnv.Operations.{
  find_var, update_named, push_last, with_locals, add_local_var, assign_local_variable,
  retype_local_variable,
}
use bosque_core.CheckerEnv.Frames.{var_at}
use bosque_core.CheckerEnv.Extends.{
  has_name, has_at, Extends, Extends-refl, Extends-trans, Extends-assign, Extends-retype,
  Extends-add_local_var, fields-rebuild,
}
use bosque_core.Checker.Paths.{ControlPath, targets, assigns, may_fall, elem, all_define}

abbrev pub normal : TypeEnvironment → Bool
normal e = (fields e).normalflow

abbrev pub defined_var : Option VarInfo → Bool
defined_var none = false
defined_var (some v) = v.must_defined

-- The variable of the name in the scope `i` is there and defined.
abbrev pub defined_in : List Frame → ℕ → String → Bool
defined_in frames i name = defined_var (var_at frames i name)

-- From `e` to `e'` along the paths: where a path falls through, the flow is normal; and where the
-- flow is normal, a variable that is defined is defined on each path that falls through.
pub record IsSound (ps : List ControlPath) (e e' : TypeEnvironment) : Type 0 where
  pub flows : may_fall ps ≡ true → normal e ≡ true → normal e' ≡ true
  pub starts : normal e' ≡ true → normal e ≡ true
  pub defines :
      normal e' ≡ true
      → (i : ℕ) (name : String) → has_at (fields e).locals i name ≡ true
      → defined_in (fields e').locals i name ≡ true
      → all_define ps (defined_in (fields e).locals i name) name ≡ true

-- The step assigns the variables `names` and nothing else, and keeps the flow.
pub record Keeps (names : List String) (e e' : TypeEnvironment) : Type 0 where
  pub extends : Extends e e'
  pub flow : normal e' ≡ normal e
  pub defined :
      (i : ℕ) (name : String)
      → has_at (fields e).locals i name ≡ true
      → defined_in (fields e').locals i name
        ≡ (defined_in (fields e).locals i name || elem name names)

pub or_false : (b : Bool) → b ≡ (b || false)
or_false true = refl
or_false false = refl

or_assoc : (a b c : Bool) → ((a || b) || c) ≡ (a || (b || c))
or_assoc true b c = refl
or_assoc false b c = refl

pub elem-append :
    (name : String) (xs ys : List String) → elem name (xs ++ ys) ≡ (elem name xs || elem name ys)
elem-append name [] ys = refl
elem-append name (x ∷ xs) ys = elim (Bool-cases (x == name)) [
  | inl hit ↦ rw hit refl
  | inr miss ↦ rw miss (elem-append name xs ys)
]

pub Keeps-refl : (e : TypeEnvironment) → Keeps [] e e
Keeps-refl e = record { extends = Extends-refl e; flow = refl; defined = λ i name h. or_false _ }

pub Keeps-trans :
    (names more : List String) {a b c : TypeEnvironment}
    → Keeps names a b
    → Keeps more b c
    → Keeps (names ++ more) a c
Keeps-trans names more {a} p q = record {
  extends = Extends-trans p.extends q.extends;
  flow = q.flow ∙ p.flow;
  defined = λ i name h.
      q.defined i name (p.extends.locals i name h)
      ∙ ap (λ b. b || elem name more) (p.defined i name h)
      ∙ or_assoc _ (elem name names) (elem name more)
      ∙ ap (λ b. defined_in (fields a).locals i name || b) (sym (elem-append name names more));
}

pub Keeps-IsSound :
    (names : List String) {e e' : TypeEnvironment}
    → Keeps (targets names) e e'
    → IsSound (assigns names) e e'
Keeps-IsSound names k = record {
  flows = λ _ h. k.flow ∙ h;
  starts = λ h. sym k.flow ∙ h;
  defines = λ _ i name h d. rw (sym (k.defined i name h) ∙ d) refl;
}

find_var-append :
    (name : String) (xs ys : Frame)
    → has_name name xs ≡ true
    → find_var name (xs ++ ys) ≡ find_var name xs
find_var-append name [] ys h = cc
find_var-append name (v ∷ xs) ys h = elim (Bool-cases (v.srcname == name)) [
  | inl hit ↦ rw hit refl
  | inr miss ↦ rw miss (find_var-append name xs ys (rw miss at h))
]

var_at-cons :
    (frame : Frame) (frames' frames : List Frame) (i : ℕ) (name : String)
    → has_at (frame ∷ frames) i name ≡ true
    → ((j : ℕ) → has_at frames j name ≡ true → var_at frames' j name ≡ var_at frames j name)
    → var_at (frame ∷ frames') i name ≡ var_at (frame ∷ frames) i name
unfolding var_at has_at
var_at-cons frame frames' frames zero name h rest = refl
var_at-cons frame frames' frames (suc j) name h rest = rest j h

push_last-var_at :
    (frames : List Frame) (vars : Frame) {pushed : List Frame}
    → push_last frames vars ≡ some pushed
    → (i : ℕ) (name : String) → has_at frames i name ≡ true
    → var_at pushed i name ≡ var_at frames i name
unfolding push_last var_at has_at
push_last-var_at [] vars e i name h = cc
push_last-var_at (frame ∷ []) vars {pushed} e zero name h =
    subst (λ fs. var_at fs zero name ≡ find_var name frame) (some-injective _ _ e)
      (find_var-append name frame vars h)
push_last-var_at (frame ∷ []) vars e (suc i) name h = cc
push_last-var_at (frame ∷ second ∷ rest) vars {pushed} e i name h =
    elim (Option-cases (push_last (second ∷ rest) vars)) [
      | inl stuck ↦ cc (rw stuck at e)
      | inr (tail, went) ↦
          subst (λ fs. var_at fs i name ≡ var_at (frame ∷ second ∷ rest) i name)
            (some-injective (frame ∷ tail) pushed (rw went at e))
            (var_at-cons frame tail (second ∷ rest) i name h
              (λ j. push_last-var_at (second ∷ rest) vars went j name))
    ]

with_locals-Keeps :
    (e : TypeEnvironment) (vars : Frame) {e' : TypeEnvironment}
    → Extends e e'
    → with_locals e (push_last (fields e).locals vars) ≡ some e'
    → Keeps [] e e'
unfolding with_locals
with_locals-Keeps e vars ext eq = elim (Option-cases (push_last (fields e).locals vars)) [
  | inl stuck ↦ cc (rw (stuck, with_locals) at eq)
  | inr (frames, went) ↦
      let same = some-injective _ _ (rw (went, with_locals) at eq) in
      let same_fields = sym (ap fields same) ∙ fields-rebuild e _ in
      record {
        extends = ext;
        flow = ap (λ (f : EnvFields). f.normalflow) same_fields;
        defined = λ i name h.
            ap (λ (f : EnvFields). defined_in f.locals i name) same_fields
            ∙ ap defined_var (push_last-var_at (fields e).locals vars went i name h)
            ∙ or_false _;
      }
]

pub add_local_var-Keeps :
    (e : TypeEnvironment) (vname : String) (vtype : TypeSignature) (is_const must_defined : Bool)
    {e' : TypeEnvironment}
    → add_local_var e vname vtype is_const must_defined ≡ some e'
    → Keeps [] e e'
unfolding add_local_var
add_local_var-Keeps e vname vtype is_const must_defined eq =
    with_locals-Keeps e _ (Extends-add_local_var e vname vtype is_const must_defined eq) eq

-- What a pass over a frame does to the definedness of its variables.
module _ (vname : String) (f : VarInfo → VarInfo) (sets : Bool)
    (keeps : (v : VarInfo) → (f v).srcname ≡ v.srcname)
    (defines : (v : VarInfo) → (f v).must_defined ≡ (v.must_defined || sets)) where
  defined_var-update_named :
      (name : String) (frame : Frame)
      → has_name name frame ≡ true
      → defined_var (find_var name (update_named vname f frame))
        ≡ (defined_var (find_var name frame) || (vname == name && sets))
  defined_var-update_named name [] h = cc
  defined_var-update_named name (v ∷ frame) h = elim (Bool-cases (v.srcname == vname)) [
    | inl named ↦ elim (Bool-cases (v.srcname == name)) [
      | inl hit ↦
          let same : (vname == name) ≡ true =
            ap (λ s. s == name) (sym ((eq_iff v.srcname vname).0 named)) ∙ hit in
          rw (named, keeps v, hit, same) (defines v)
      | inr miss ↦ rw (named, keeps v, miss) (defined_var-update_named name frame (rw miss at h))
    ]
    | inr other ↦ elim (Bool-cases (v.srcname == name)) [
      | inl hit ↦
          let apart : (vname == name) ≡ false =
            ap (λ s. vname == s) (sym ((eq_iff v.srcname name).0 hit))
            ∙ str_eq_sym v.srcname vname other in
          rw (other, hit, apart) (or_false _)
      | inr miss ↦ rw (other, miss) (defined_var-update_named name frame (rw miss at h))
    ]
  ]

  defined_in-update_named :
      (frames : List Frame) (i : ℕ) (name : String)
      → has_at frames i name ≡ true
      → defined_in (map (update_named vname f) frames) i name
        ≡ (defined_in frames i name || (vname == name && sets))
  unfolding var_at has_at
  defined_in-update_named [] i name h = cc
  defined_in-update_named (frame ∷ frames) zero name h = defined_var-update_named name frame h
  defined_in-update_named (frame ∷ frames) (suc i) name h = defined_in-update_named frames i name h

or_true : (b : Bool) → true ≡ (b || true)
or_true true = refl
or_true false = refl

and_or : (b : Bool) → (b && true) ≡ (b || false)
and_or true = refl
and_or false = refl

and_false : (b c : Bool) → (b || (c && false)) ≡ (b || false)
and_false b true = refl
and_false b false = refl

pub assign_local_variable-Keeps :
    (e : TypeEnvironment) (vname : String) → Keeps (vname ∷ []) e (assign_local_variable e vname)
unfolding assign_local_variable
assign_local_variable-Keeps e vname = record {
  extends = Extends-assign e vname;
  flow = ap (λ (f : EnvFields). f.normalflow) (fields-rebuild e _);
  defined = λ i name h.
      ap (λ (f : EnvFields). defined_in f.locals i name) (fields-rebuild e _)
      ∙ (defined_in-update_named vname update_define true (λ v. refl) (λ v. or_true v.must_defined)
            (fields e).locals i name h
          ∙ ap (λ b. defined_in (fields e).locals i name || b) (and_or (vname == name)));
}

pub retype_local_variable-Keeps :
    (e : TypeEnvironment) (vname : String) (itype : List RefinedType)
    → Keeps [] e (retype_local_variable e vname itype)
unfolding retype_local_variable
retype_local_variable-Keeps e vname itype = record {
  extends = Extends-retype e vname itype;
  flow = ap (λ (f : EnvFields). f.normalflow) (fields-rebuild e _);
  defined = λ i name h.
      ap (λ (f : EnvFields). defined_in f.locals i name) (fields-rebuild e _)
      ∙ (defined_in-update_named vname (λ v. update_type v itype) false (λ v. refl)
            (λ v. or_false v.must_defined) (fields e).locals i name h
          ∙ and_false (defined_in (fields e).locals i name) (vname == name));
}

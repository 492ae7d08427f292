-- ===== src/Checker/Sound/Scopes.antt =====
-- Leaving a block: the scope is popped and the refinements are reset, and the definedness of the
-- variables round the block stays.
use bosque_core.Prelude.{
  ℕ, zero, suc, ◌<◌, String, true, false, ◌≡◌, refl, ◌∙◌, ap, Option, none, some, List, [], ◌∷◌,
  ◌++◌, length, length-append, get_elem?, drop_last, arith,
}
use bosque_core.CheckerEnv.Syntax.{Frame, EnvFields, TypeEnvironment, fields, inside, rebuild}
use bosque_core.CheckerEnv.Operations.{find_var, with_locals, pop_frames, pop_local_scope}
use bosque_core.CheckerEnv.Frames.{var_at}
use bosque_core.CheckerEnv.Extends.{has_name, has_at, Extends, fields-rebuild}
use bosque_core.Checker.Sound.Keeps.{normal, defined_var, defined_in}

-- `c` has one scope more than `e`, and the variables of `e` where they are in `e`.
pub record IsInner (e c : TypeEnvironment) : Type 0 where
  pub depth : length (fields c).locals ≡ suc (length (fields e).locals)
  pub locals :
      (i : ℕ) (name : String)
      → has_at (fields e).locals i name ≡ true
      → has_at (fields c).locals i name ≡ true
  pub args :
      (name : String) → has_name name (fields e).args ≡ true → has_name name (fields c).args ≡ true
  pub result : (fields c).decl_return_type ≡ (fields e).decl_return_type

-- The step from `e` to `e'` keeps the flow and the definedness of the variables of `e`.
pub record KeepsDefined (e c e' : TypeEnvironment) : Type 0 where
  pub flow : normal e' ≡ normal c
  pub defined :
      (i : ℕ) (name : String)
      → has_at (fields e).locals i name ≡ true
      → defined_in (fields e').locals i name ≡ defined_in (fields c).locals i name

has_at-length :
    (frames : List Frame) (i : ℕ) (name : String) → has_at frames i name ≡ true → i < length frames
unfolding has_at
has_at-length [] i name h = cc
has_at-length (f ∷ frames) zero name h = omega arith
has_at-length (f ∷ frames) (suc i) name h = omega (arith, has_at-length frames i name h)

get_elem?-append :
    (frames : List Frame) (f : Frame) (i : ℕ)
    → i < length frames
    → get_elem? (frames ++ f ∷ []) i ≡ get_elem? frames i
get_elem?-append [] f i h = absurd (omega arith)
get_elem?-append (g ∷ frames) f zero h = refl
get_elem?-append (g ∷ frames) f (suc i) h = get_elem?-append frames f i (omega arith)

get_elem?-drop_last :
    (frames : List Frame) (i : ℕ)
    → suc i < length frames
    → get_elem? (drop_last frames) i ≡ get_elem? frames i
get_elem?-drop_last [] i h = absurd (omega arith)
get_elem?-drop_last (f ∷ []) i h = absurd (omega arith)
get_elem?-drop_last (f ∷ g ∷ frames) zero h = refl
get_elem?-drop_last (f ∷ g ∷ frames) (suc i) h = get_elem?-drop_last (g ∷ frames) i (omega arith)

has_at-same :
    (fs gs : List Frame) (i : ℕ) (name : String)
    → get_elem? fs i ≡ get_elem? gs i
    → has_at fs i name ≡ has_at gs i name
unfolding has_at
has_at-same fs gs i name e =
    ap (λ (o : Option Frame). elim o [ none ↦ false | some frame ↦ has_name name frame ]) e

defined_in-same :
    (fs gs : List Frame) (i : ℕ) (name : String)
    → get_elem? fs i ≡ get_elem? gs i
    → defined_in fs i name ≡ defined_in gs i name
unfolding var_at
defined_in-same fs gs i name e =
    ap
      (λ (o : Option Frame).
        defined_var (elim o [ none ↦ none | some frame ↦ find_var name frame ]))
      e

length-drop_last :
    (f : Frame) (frames : List Frame) → length (drop_last (f ∷ frames)) ≡ length frames
length-drop_last f [] = refl
length-drop_last f (g ∷ frames) = ap suc (length-drop_last g frames)

-- An environment with one more scope, and what extends it.
module _ (e : TypeEnvironment) (f : Frame) where
  abbrev pub entered : TypeEnvironment
  entered = inside e (record (fields e) { locals = (fields e).locals ++ f ∷ [] })

  pub entered-KeepsDefined : KeepsDefined e e entered
  entered-KeepsDefined = record {
    flow = refl;
    defined = λ i name h.
        defined_in-same _ (fields e).locals i name
          (get_elem?-append (fields e).locals f i (has_at-length (fields e).locals i name h));
  }

  pub entered-has_at :
      (i : ℕ) (name : String)
      → has_at (fields e).locals i name ≡ true
      → has_at (fields entered).locals i name ≡ true
  entered-has_at i name h =
      has_at-same _ (fields e).locals i name
        (get_elem?-append (fields e).locals f i (has_at-length (fields e).locals i name h))
      ∙ h

  pub Extends-IsInner : {c : TypeEnvironment} → Extends entered c → IsInner e c
  Extends-IsInner ext = record {
    depth = omega (arith, ext.depth, length-append (fields e).locals (f ∷ []));
    locals = λ i name h. ext.locals i name (entered-has_at i name h);
    args = ext.args;
    result = ext.result;
  }

pop_frames-some :
    (frames : List Frame) (n : ℕ)
    → length frames ≡ suc n
    → pop_frames frames ≡ some (drop_last frames)
unfolding pop_frames
pop_frames-some [] n h = absurd (omega arith)
pop_frames-some (f ∷ frames) n h = refl

length-drop_last-suc :
    (frames : List Frame) (n : ℕ) → length frames ≡ suc n → length (drop_last frames) ≡ n
length-drop_last-suc [] n h = absurd (omega arith)
length-drop_last-suc (f ∷ frames) n h = omega (arith, length-drop_last f frames)

get_elem?-popped :
    (e c : TypeEnvironment) (i : ℕ) (name : String)
    → IsInner e c
    → has_at (fields e).locals i name ≡ true
    → get_elem? (drop_last (fields c).locals) i ≡ get_elem? (fields c).locals i
get_elem?-popped e c i name inner h =
    get_elem?-drop_last (fields c).locals i
      (omega (arith, inner.depth, has_at-length (fields e).locals i name h))

-- Leaving the scope succeeds, and gives back an environment that extends the one round it.
pub pop_local_scope_lem :
    (e c : TypeEnvironment)
    → IsInner e c
    → (p : TypeEnvironment) × (pop_local_scope c ≡ some p) × Extends e p × KeepsDefined e c p
unfolding pop_local_scope with_locals
pop_local_scope_lem e c inner =
    let went = pop_frames-some (fields c).locals _ inner.depth in
    (
      rebuild c (record (fields c) { locals = drop_last (fields c).locals }),
      rw (went, with_locals) refl,
      record {
        depth = rw fields-rebuild (length-drop_last-suc (fields c).locals _ inner.depth);
        locals = λ i name h. rw fields-rebuild (
            has_at-same _ (fields c).locals i name (get_elem?-popped e c i name inner h)
            ∙ inner.locals i name h);
        args = λ name h. rw fields-rebuild (inner.args name h);
        result = ap (λ (f : EnvFields). f.decl_return_type) (fields-rebuild c _) ∙ inner.result;
      },
      record {
        flow = ap (λ (f : EnvFields). f.normalflow) (fields-rebuild c _);
        defined = λ i name h.
            ap (λ (f : EnvFields). defined_in f.locals i name) (fields-rebuild c _)
            ∙ defined_in-same _ (fields c).locals i name (get_elem?-popped e c i name inner h);
      },
    )

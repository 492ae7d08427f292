-- ===== src/Checker/Sound/Sequences.antt =====
-- Statements one after another are sound for their paths, one after another.
use bosque_core.Prelude.{
  ℕ, String, Bool, true, false, ◌&&◌, ◌||◌, ◌≡◌, refl, sym, ◌∙◌, ap, List, [], ◌∷◌, ◌++◌, map,
  Bool-cases, inl, inr, and_true,
}
use bosque_core.CheckerEnv.Syntax.{Frame, TypeEnvironment}
use bosque_core.CheckerEnv.Extends.{Extends, Extends-refl}
use bosque_core.Checker.Flow.{Run, guarded}
use bosque_core.Checker.Paths.{
  ControlPath, falls_through, continue, then_paths, may_fall, elem, path_defines, all_define,
}
use bosque_core.Checker.Sound.Ensures.{Ensures, Ensures-reported, Ensures-pure}
use bosque_core.Checker.Sound.Keeps.{normal, IsSound, elem-append}
use bosque_core.Checker.Sound.Ready.{IsReady}
use bosque_core.Checker.Sound.Blocks.{IsSoundRun}
use bosque_core.Checker.Sound.Branches.{may_fall-append, all_define-append}

may_fall-continue :
    (p : ControlPath) (qs : List ControlPath) → may_fall (map (continue p) qs) ≡ may_fall qs
may_fall-continue p [] = refl
may_fall-continue p (q ∷ qs) = ap (λ b. falls_through q || b) (may_fall-continue p qs)

may_fall-then :
    (ps qs : List ControlPath) → may_fall (then_paths ps qs) ≡ (may_fall ps && may_fall qs)
unfolding then_paths
may_fall-then [] qs = refl
may_fall-then (p ∷ ps) qs = elim (Bool-cases (falls_through p)) [
  | inl through ↦
      let first = may_fall-append (map (continue p) qs) (then_paths ps qs) in
      rw (through, then_paths)
        (first
          ∙ rw (may_fall-continue p qs, may_fall-then ps qs) (absorbs (may_fall qs) (may_fall ps)))
  | inr ends ↦ rw (ends, then_paths) (rw ends (may_fall-then ps qs))
]
  where
    absorbs : (a b : Bool) → (a || (b && a)) ≡ a
    absorbs true b = refl
    absorbs false true = refl
    absorbs false false = refl

elem-continue :
    (name : String) (xs ys : List String) (before inside : Bool)
    → (inside || elem name ys) ≡ true
    → (inside ≡ true → (before || elem name xs) ≡ true)
    → (before || elem name (xs ++ ys)) ≡ true
elem-continue name xs ys before inside h carried =
    ap (λ b. before || b) (elem-append name xs ys)
    ∙ joins before (elem name xs) (elem name ys) inside h carried
  where
    joins :
        (b x y i : Bool) → (i || y) ≡ true → (i ≡ true → (b || x) ≡ true) → (b || (x || y)) ≡ true
    joins true x y i h carried = refl
    joins false true y i h carried = refl
    joins false false y true h carried = cc (carried refl)
    joins false false y false h carried = h

-- What the second paths define after the first one, `inside` being the definedness between.
all_define-continue :
    (p : ControlPath) (qs : List ControlPath) (before inside : Bool) (name : String)
    → all_define qs inside name ≡ true
    → (inside ≡ true → (before || elem name p.assigned) ≡ true)
    → all_define (map (continue p) qs) before name ≡ true
all_define-continue p [] before inside name h carried = refl
all_define-continue p (q ∷ qs) before inside name h carried =
    let (first, rest) = and_true (path_defines inside name q) _ h in
    elim (Bool-cases (falls_through q)) [
      | inl through ↦
          rw
            (
              through,
              elem-continue name p.assigned q.assigned before inside (rw through at first) carried,
            )
            (all_define-continue p qs before inside name rest carried)
      | inr ends ↦ rw ends (all_define-continue p qs before inside name rest carried)
    ]

all_define-then :
    (ps qs : List ControlPath) (before inside : Bool) (name : String)
    → all_define qs inside name ≡ true
    → (inside ≡ true → all_define ps before name ≡ true)
    → all_define (then_paths ps qs) before name ≡ true
unfolding then_paths
all_define-then [] qs before inside name h carried = refl
all_define-then (p ∷ ps) qs before inside name h carried =
    let rest =
      all_define-then ps qs before inside name h
        (λ d. (and_true (path_defines before name p) _ (carried d)).1) in
    elim (Bool-cases (falls_through p)) [
      | inl through ↦
          let first =
            all_define-continue p qs before inside name h
              (λ d. rw through at (and_true (path_defines before name p) _ (carried d)).0) in
          rw (through, then_paths)
            (all_define-append (map (continue p) qs) (then_paths ps qs) before name
              ∙ rw (first, rest) refl)
      | inr ends ↦ rw (ends, then_paths) (rw ends rest)
    ]

pub IsSound-then :
    (ps qs : List ControlPath) {e m e' : TypeEnvironment}
    → Extends e m
    → IsSound ps e m
    → IsSound qs m e'
    → IsSound (then_paths ps qs) e e'
IsSound-then ps qs ext s t = record {
  flows = λ h n.
      let (first, second) = and_true (may_fall ps) (may_fall qs) (sym (may_fall-then ps qs) ∙ h) in
      t.flows second (s.flows first n);
  starts = λ n. s.starts (t.starts n);
  defines = λ n i name h d.
      all_define-then ps qs _ _ name (t.defines n i name (ext.locals i name h) d)
        (λ inside. s.defines (t.starts n) i name h inside);
}

-- A step from any environment: from one without normal flow it reports an error.
abbrev pub IsSoundStep : Frame → Type 0 → List ControlPath → Run → Type 0
IsSoundStep args Ok ps run =
    (e : TypeEnvironment) → Ensures (Ok × IsReady args e) (Extends e) (IsSound ps e) (run e)

pub guarded-IsSoundStep :
    (args : Frame) (Ok : Type 0) (ps : List ControlPath) (line : ℕ) (run : Run)
    → IsSoundRun args Ok ps run
    → IsSoundStep args Ok ps (guarded line run)
unfolding guarded
guarded-IsSoundStep args Ok ps line run sound e = elim (Bool-cases (normal e)) [
  | inl goes ↦ rw (goes, guarded) (sound e goes)
  | inr stops ↦
      rw (stops, guarded) (Ensures-reported line _ (λ _. Ensures-pure e (Extends-refl e) tt))
]

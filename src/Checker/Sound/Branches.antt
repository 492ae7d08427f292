-- ===== src/Checker/Sound/Branches.antt =====
-- Branches that are merged: the merge is sound for the paths of all of them.
use bosque_core.Prelude.{
  ℕ, String, Bool, true, false, ◌&&◌, ◌||◌, ◌≡◌, refl, sym, ◌∙◌, List, [], ◌∷◌, ◌++◌, any, all,
  Bool-cases, inl, inr, and_true,
}
use bosque_core.CheckerEnv.Syntax.{TypeEnvironment, fields}
use bosque_core.CheckerEnv.Merge.{normal_envs}
use bosque_core.CheckerEnv.Extends.{has_at}
use bosque_core.Checker.Paths.{
  falls, aborts, ControlPath, ends_at, falls_through, may_fall, path_defines, all_define,
}
use bosque_core.Checker.Sound.Keeps.{normal, defined_in, IsSound, Keeps-refl, Keeps-IsSound}

-- The environments at the end of branches with the paths `ps` in all.
pub record AreSound (ps : List ControlPath) (e : TypeEnvironment) (es : List TypeEnvironment)
    : Type 0 where
  pub flows : may_fall ps ≡ true → any normal es ≡ true
  pub defines :
      (i : ℕ) (name : String)
      → has_at (fields e).locals i name ≡ true
      → all (λ b. defined_in (fields b).locals i name) (normal_envs es) ≡ true
      → all_define ps (defined_in (fields e).locals i name) name ≡ true

pub may_fall-append :
    (ps qs : List ControlPath) → may_fall (ps ++ qs) ≡ (may_fall ps || may_fall qs)
may_fall-append [] qs = refl
may_fall-append (p ∷ ps) qs = elim (Bool-cases (falls_through p)) [
  | inl through ↦ rw through refl
  | inr ends ↦ rw ends (may_fall-append ps qs)
]

pub all_define-append :
    (ps qs : List ControlPath) (before : Bool) (name : String)
    → all_define (ps ++ qs) before name ≡ (all_define ps before name && all_define qs before name)
all_define-append [] qs before name = refl
all_define-append (p ∷ ps) qs before name = elim (Bool-cases (path_defines before name p)) [
  | inl sets ↦ rw sets (all_define-append ps qs before name)
  | inr skips ↦ rw skips refl
]

pub all_define-no_fall :
    (ps : List ControlPath) (before : Bool) (name : String)
    → may_fall ps ≡ false
    → all_define ps before name ≡ true
all_define-no_fall [] before name h = refl
all_define-no_fall (p ∷ ps) before name h = elim (Bool-cases (falls_through p)) [
  | inl through ↦ cc (rw through at h)
  | inr ends ↦ rw ends (all_define-no_fall ps before name (rw ends at h))
]

pub all_define-before : (ps : List ControlPath) (name : String) → all_define ps true name ≡ true
all_define-before [] name = refl
all_define-before (p ∷ ps) name = elim (Bool-cases (falls_through p)) [
  | inl through ↦ rw through (all_define-before ps name)
  | inr ends ↦ rw ends (all_define-before ps name)
]

-- Where the flow does not leave a branch normally, no path of it falls through.
no_fall :
    {ps : List ControlPath} {e e' : TypeEnvironment}
    → IsSound ps e e'
    → normal e ≡ true
    → normal e' ≡ false
    → may_fall ps ≡ false
no_fall {ps} s n stop = elim (Bool-cases (may_fall ps)) [
  | inl through ↦ cc (s.flows through n)
  | inr none_falls ↦ none_falls
]

pub AreSound-nil : (e : TypeEnvironment) → AreSound [] e []
AreSound-nil e = record { flows = λ h. h; defines = λ i name h d. refl }

pub AreSound-cons :
    (ps qs : List ControlPath) {e e' : TypeEnvironment} {es : List TypeEnvironment}
    → normal e ≡ true
    → IsSound ps e e'
    → AreSound qs e es
    → AreSound (ps ++ qs) e (e' ∷ es)
AreSound-cons ps qs {e} {e'} {es} n s r = elim (Bool-cases (normal e')) [
  | inl goes ↦ record {
    flows = λ _. rw goes refl;
    defines = λ i name h d.
        let (first, rest) = and_true (defined_in (fields e').locals i name) _ (rw goes at d) in
        all_define-append ps qs _ name
        ∙ rw (s.defines goes i name h first) (r.defines i name h rest);
  }
  | inr stops ↦ record {
    flows = λ h. rw stops (r.flows (sym (rw (no_fall s n stops) at (may_fall-append ps qs)) ∙ h));
    defines = λ i name h d.
        all_define-append ps qs _ name
        ∙ rw (all_define-no_fall ps _ name (no_fall s n stops))
            (r.defines i name h (rw stops at d));
  }
]

-- Paths that are left out do no harm.
pub AreSound-fewer :
    (ps qs : List ControlPath) {e : TypeEnvironment} {es : List TypeEnvironment}
    → AreSound (ps ++ qs) e es
    → AreSound ps e es
AreSound-fewer ps qs {e} s = record {
  flows = λ h. s.flows (may_fall-append ps qs ∙ rw h refl);
  defines = λ i name h d.
      (and_true (all_define ps (defined_in (fields e).locals i name) name) _
        (sym (all_define-append ps qs _ name) ∙ s.defines i name h d)).0;
}

-- The environment itself, for a path that does nothing.
pub IsSound-falls : (e : TypeEnvironment) → IsSound (ends_at falls ∷ []) e e
IsSound-falls e = Keeps-IsSound [] (Keeps-refl e)

-- Staying in an environment with normal flow is sound for any paths.
pub IsSound-stays : (ps : List ControlPath) (e : TypeEnvironment) → IsSound ps e e
IsSound-stays ps e = record {
  flows = λ _ n. n;
  starts = λ n. n;
  defines = λ _ i name h d. rw d (all_define-before ps name);
}

-- A path that aborts adds nothing.
pub IsSound-aborts :
    (ps : List ControlPath) {e e' : TypeEnvironment}
    → IsSound ps e e'
    → IsSound (ends_at aborts ∷ ps) e e'
IsSound-aborts ps s = record { flows = s.flows; starts = s.starts; defines = s.defines }

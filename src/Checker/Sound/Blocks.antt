-- ===== src/Checker/Sound/Blocks.antt =====
-- A block keeps what its statements establish: `checkBlockStatement`.
use bosque_core.Prelude.{
  Bool, true, false, ◌≡◌, sym, ◌∙◌, ap, some, List, [], ◌∷◌, length-append, arith, some-injective,
  subst,
}
use bosque_core.CheckerEnv.Syntax.{Frame, EnvFields, TypeEnvironment, fields}
use bosque_core.CheckerEnv.Operations.{pop_local_scope, push_new_local_scope, reset_retypes}
use bosque_core.CheckerEnv.Operations.Reset.{reset_retypes_lem}
use bosque_core.CheckerEnv.Extends.{Extends, fields-rebuild}
use bosque_core.Checker.Report.{or_throw}
use bosque_core.Checker.Flow.{Run, check_block_with}
use bosque_core.Checker.Paths.{ControlPath, all_define}
use bosque_core.Checker.Sound.Ensures.{
  Ensures, Ensures-weaken, Ensures-map, Ensures-bind, Ensures-or_throw,
}
use bosque_core.Checker.Sound.Keeps.{normal, defined_var, IsSound}
use bosque_core.Checker.Sound.Ready.{IsReady}
use bosque_core.Checker.Sound.Scopes.{
  KeepsDefined, entered, entered-KeepsDefined, entered-has_at, Extends-IsInner, pop_local_scope_lem,
}
use bosque_core.CheckerEnv.Frames.{var_at-has_at}

-- Where the environment extends the one round it, a reset succeeds and still extends it.
pub reset_retypes-Extends :
    (e p : TypeEnvironment)
    → Extends e p
    → (r : TypeEnvironment) × (reset_retypes p e ≡ some r) × Extends e r × KeepsDefined e p r
reset_retypes-Extends e p ext =
    let (r, went, locals, _, _, _, changes, still) = reset_retypes_lem p e ext in
    (
      r,
      went,
      still,
      record {
        flow = ap normal changes ∙ ap (λ (f : EnvFields). f.normalflow) (fields-rebuild p _);
        defined = λ i name h.
            let (ov, orig) = var_at-has_at (fields e).locals i name h in
            let (v, there) = var_at-has_at (fields p).locals i name (ext.locals i name h) in
            ap defined_var (locals i name ov v orig there) ∙ ap defined_var (sym there);
      },
    )

-- A run that is sound for the paths `ps` where the flow is normal, and raises nothing where `Ok`
-- holds and the environment is ready.
abbrev pub IsSoundRun : Frame → Type 0 → List ControlPath → Run → Type 0
IsSoundRun args Ok ps run =
    (e : TypeEnvironment)
    → normal e ≡ true
    → Ensures (Ok × IsReady args e) (Extends e) (IsSound ps e) (run e)

pub IsSound-keeps :
    {ps : List ControlPath} {e c e' : TypeEnvironment}
    → KeepsDefined e c e'
    → IsSound ps e c
    → IsSound ps e e'
IsSound-keeps k s = record {
  flows = λ p n. k.flow ∙ s.flows p n;
  starts = λ n. s.starts (sym k.flow ∙ n);
  defines = λ n i name h d. s.defines (sym k.flow ∙ n) i name h (sym (k.defined i name h) ∙ d);
}

-- From the environment inside a new scope to the one round it.
pub IsSound-entered :
    (e : TypeEnvironment) (f : Frame) {ps : List ControlPath} {c : TypeEnvironment}
    → IsSound ps (entered e f) c
    → IsSound ps e c
IsSound-entered e f {ps} s = record {
  flows = s.flows;
  starts = s.starts;
  defines = λ n i name h d.
      ap (λ b. all_define ps b name) (sym ((entered-KeepsDefined e f).defined i name h))
      ∙ s.defines n i name (entered-has_at e f i name h) d;
}

pub IsReady-entered :
    (e : TypeEnvironment) (f : Frame) {args : Frame} → IsReady args e → IsReady args (entered e f)
IsReady-entered e f r = record {
  scope = omega (arith, length-append (fields e).locals (f ∷ []));
  params = r.params;
}

-- Leaving the scope, after a run inside it.
pub popped-Ensures :
    {Ok : Type 0} (ps : List ControlPath) (e c : TypeEnvironment) (f : Frame)
    → Extends (entered e f) c
    → Ensures Ok
        (Extends e)
        (λ p. IsSound ps (entered e f) c → IsSound ps e p)
        (or_throw (pop_local_scope c))
popped-Ensures ps e c f ext =
    let (p, popped, ext', kept) = pop_local_scope_lem e c (Extends-IsInner e f ext) in
    Ensures-or_throw _ (λ stuck _. cc)
      (λ q eq.
        let same : p ≡ q = some-injective p q (sym popped ∙ eq) in
        subst (λ x. Extends e x × (IsSound ps (entered e f) c → IsSound ps e x)) same
          (ext', λ s. IsSound-keeps kept (IsSound-entered e f s)))

pub reset-Ensures :
    {Ok : Type 0} (ps : List ControlPath) (e p : TypeEnvironment)
    → Extends e p
    → Ensures Ok (Extends e) (λ r. IsSound ps e p → IsSound ps e r) (or_throw (reset_retypes p e))
reset-Ensures ps e p ext =
    let (r, went, ext', kept) = reset_retypes-Extends e p ext in
    Ensures-or_throw _ (λ stuck _. cc)
      (λ q eq.
        let same : r ≡ q = some-injective r q (sym went ∙ eq) in
        subst (λ x. Extends e x × (IsSound ps e p → IsSound ps e x)) same
          (ext', IsSound-keeps kept))

pub check_block_with-IsSound :
    (args : Frame) (Ok : Type 0) (ps : List ControlPath) (is_scoping : Bool) (body : Run)
    → IsSoundRun args Ok ps body
    → IsSoundRun args Ok ps (check_block_with is_scoping body)
unfolding check_block_with push_new_local_scope
check_block_with-IsSound args Ok ps true body sound e n =
    Ensures-bind (Ensures-weaken (λ ok. (ok.0, IsReady-entered e [] ok.1)) (sound (entered e []) n))
      (λ c ext. Ensures-bind (popped-Ensures ps e c [] ext) (λ p ext'.
        Ensures-map (λ a x. x) (λ a _ back leave inside. back (leave inside))
          (reset-Ensures ps e p ext')))
check_block_with-IsSound args Ok ps false body sound e n =
    Ensures-bind (sound e n) (λ p ext. reset-Ensures ps e p ext)

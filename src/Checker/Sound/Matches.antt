-- ===== src/Checker/Sound/Matches.antt =====
-- A match is sound for its paths.
use bosque_core.Prelude.{
  ℕ, Bool, true, false, not, ◌≡◌, refl, sym, Option, none, some, List, [], ◌∷◌, ◌++◌, All, nat_eq,
  subst, Bool-cases, Option-cases, inl, inr, append-nil,
}
use bosque_core.Types.Syntax.{TypeSignature}
use bosque_core.CheckerEnv.Syntax.{Frame, TypeEnvironment}
use bosque_core.CheckerEnv.Merge.{BinderInfo, merge_environments_simple}
use bosque_core.CheckerEnv.Extends.{Extends, Extends-refl, KeepsLocals}
use bosque_core.Checker.Syntax.{Expression}
use bosque_core.Checker.Report.{pure, or_throw, Refined, Checks}
use bosque_core.Checker.Sound.Returns.{Sound}
use bosque_core.Checker.Variables.{is_error}
use bosque_core.Checker.Flow.{Run}
use bosque_core.Checker.Statements.{
  in_binder, MatchFlows, with_match, check_match_type, check_match_flows, match_types,
  check_match_case, check_match,
}
use bosque_core.Checker.Paths.{aborts, ControlPath, ends_at}
use bosque_core.Checker.Sound.Ensures.{
  Ensures, Ensures-weaken, Ensures-map, Ensures-bind, Ensures-then, Ensures-pure, Ensures-guard,
  Runs-asked, Runs-check_error, Runs-report_error,
}
use bosque_core.Checker.Sound.Choices.{in_binder-Sound}
use bosque_core.Checker.Sound.Keeps.{normal, IsSound}
use bosque_core.Checker.Sound.Ready.{IsReady}
use bosque_core.Checker.Sound.Blocks.{IsSoundRun}
use bosque_core.Checker.Sound.Branches.{
  AreSound, AreSound-nil, AreSound-cons, IsSound-stays, IsSound-aborts,
}
use bosque_core.Checker.Sound.Merges.{merge-Ensures}

-- What holds of the branches of a match that has not returned early.
abbrev pub Of : (List TypeEnvironment → Type 0) → Option (List TypeEnvironment) → Type 0
Of P none = Unit
Of P (some es) = P es

not-false : (b : Bool) → not b ≡ false → b ≡ true
not-false true h = refl
not-false false h = cc

module _ (args : Frame) where
  abbrev pub AreSoundMatches : Type 0 → List ControlPath → MatchFlows → Type 0
  AreSoundMatches Ok ps flows =
      (ts : List TypeSignature) (e : TypeEnvironment)
      → normal e ≡ true
      → Ensures (Ok × IsReady args e) (Of (All (KeepsLocals e))) (Of (AreSound ps e)) (flows ts e)

  with_match_results :
      {Ok : Type 0} (ps qs : List ControlPath) (e b : TypeEnvironment)
      (results : Option (List TypeEnvironment))
      → normal e ≡ true
      → Extends e b
      → Of (All (KeepsLocals e)) results
      → Ensures Ok
          (Of (All (KeepsLocals e)))
          (λ r. Of (AreSound qs e) results → IsSound ps e b → Of (AreSound (ps ++ qs) e) r)
          (pure (elim results [ none ↦ none | some es ↦ some (b ∷ es) ]))
  with_match_results ps qs e b none n ext kept = Ensures-pure none tt (λ _ _. tt)
  with_match_results ps qs e b (some es) n ext kept =
      Ensures-pure _ (ext.locals, kept) (λ more s. AreSound-cons ps qs n s more)

  with_match-AreSound :
      (S T : Type 0) (ps qs : List ControlPath) (run : Run) (rest : MatchFlows)
      → IsSoundRun args S ps run
      → AreSoundMatches T qs rest
      → AreSoundMatches (S × T) (ps ++ qs) (with_match run rest)
  unfolding with_match
  with_match-AreSound S T ps qs run rest sound sounds ts e n =
      Ensures-bind (Ensures-weaken (λ o. (o.0.0, o.1)) (sound e n)) (λ b ext.
        Ensures-bind (Ensures-weaken (λ o. (o.0.1, o.1)) (sounds ts e n))
          (λ results kept. with_match_results ps qs e b results n ext kept))

  pub no_matches-AreSound : (T : Type 0) → AreSoundMatches T [] (λ ts e. pure (some []))
  no_matches-AreSound T ts e n = Ensures-pure (some []) tt (AreSound-nil e)

  -- A choice with a type. Where nothing remains, no choice may stand after it.
  check_match_type-AreSound :
      (binder : Option BinderInfo) (mtype : TypeSignature) (bline : ℕ) (splits : Refined)
      (after : ℕ) (S T : Type 0) (ps qs : List ControlPath) (run : Run) (rest : MatchFlows)
      (remain : List TypeSignature)
      → splits.remain ≡ remain
      → (nat_eq after 0 ≡ true → qs ≡ [])
      → IsSoundRun args S ps run
      → AreSoundMatches T qs rest
      → AreSoundMatches
          (S × T)
          (ps ++ qs)
          (check_match_type binder mtype bline splits after run rest)
  unfolding check_match_type
  check_match_type-AreSound binder mtype bline splits after S T ps qs run rest [] left last sound
        sounds ts e n =
      rw (left, check_match_type)
        (Ensures-then (Runs-check_error bline _ _) (λ _.
          Ensures-guard bline (not (nat_eq after 0)) _ (λ _.
            Ensures-map (λ r x. x)
              (λ r _ s go. subst (λ q. Of (AreSound (ps ++ q) e) r) (sym (last (not-false _ go))) s)
              (with_match-AreSound S T ps [] (in_binder binder mtype run) _
                (in_binder-Sound args S ps binder mtype run sound) (no_matches-AreSound T) [] e
                n))))
  check_match_type-AreSound binder mtype bline splits after S T ps qs run rest (t ∷ remain) left
        last sound sounds ts e n =
      rw (left, check_match_type)
        (Ensures-then (Runs-check_error bline _ _) (λ _.
          Ensures-then (Runs-check_error bline _ _) (λ _.
            with_match-AreSound S T ps qs (in_binder binder mtype run) rest
              (in_binder-Sound args S ps binder mtype run sound) sounds (t ∷ remain) e n)))

  pub check_match_case-AreSound :
      (c : Checks) (eetype : TypeSignature) (binder : Option BinderInfo) (mtype : TypeSignature)
      (bline after : ℕ) (S T : Type 0) (ps qs : List ControlPath) (run : Run) (rest : MatchFlows)
      → (nat_eq after 0 ≡ true → qs ≡ [])
      → IsSoundRun args S ps run
      → AreSoundMatches T qs rest
      → AreSoundMatches
          (S × T)
          (ps ++ qs)
          (check_match_case c eetype binder (some mtype) bline after run rest)
  unfolding check_match_case
  check_match_case-AreSound c eetype binder mtype bline after S T ps qs run rest last sound sounds
        ts e n =
      Ensures-then (Runs-asked _) (λ _. elim (Bool-cases (is_error mtype)) [
        | inl wrong ↦ rw (wrong, check_match_case) (Ensures-pure none tt tt)
        | inr right ↦ elim (Option-cases (c.refine_match_type ts mtype)) [
          | inl stuck ↦
              rw (right, check_match_case)
                (rw (stuck, check_match_case)
                  (Ensures-then (Runs-report_error bline _) (λ _. Ensures-pure none tt tt)))
          | inr (splits, refined) ↦
              rw (right, check_match_case)
                (rw (refined, check_match_case)
                  (check_match_type-AreSound binder mtype bline splits after S T ps qs run rest _
                    refl last sound sounds ts e n))
        ]
      ])

  -- A wildcard, whatever comes after it.
  pub check_match_wildcard-AreSound :
      (c : Checks) (eetype : TypeSignature) (binder : Option BinderInfo) (bline after : ℕ)
      (S : Type 0) (ps : List ControlPath) (run : Run) (rest : MatchFlows)
      → IsSoundRun args S ps run
      → AreSoundMatches S ps (check_match_case c eetype binder none bline after run rest)
  unfolding check_match_case
  check_match_wildcard-AreSound c eetype binder bline after S ps run rest sound ts e n =
      Ensures-then (Runs-check_error bline _ _) (λ _.
        Ensures-weaken (λ o. ((o.0, tt), o.1))
          (Ensures-map (λ a x. x) (λ r _ s. subst (λ q. Of (AreSound q e) r) (append-nil ps) s)
            (with_match-AreSound S Unit ps [] (in_binder binder _ run) _
              (in_binder-Sound args S ps binder _ run sound) (no_matches-AreSound Unit) ts e n)))

  -- A match that returns early keeps the environment.
  match_results :
      {Ok : Type 0} (ps : List ControlPath) (e : TypeEnvironment)
      (results : Option (List TypeEnvironment))
      → normal e ≡ true
      → Of (All (KeepsLocals e)) results
      → Ensures Ok
          (Extends e)
          (λ m. Of (AreSound ps e) results → IsSound ps e m)
          (elim results [ none ↦ pure e | some es ↦ or_throw (merge_environments_simple e es) ])
  match_results ps e none n kept = Ensures-pure e (Extends-refl e) (λ _. IsSound-stays ps e)
  match_results ps e (some es) n kept = merge-Ensures ps e es n kept

  check_match_flows-Sound :
      (line choices : ℕ) (ctype : List TypeSignature) (S : Type 0) (ps : List ControlPath)
      (flows : MatchFlows)
      → AreSoundMatches S ps flows
      → IsSoundRun args S ps (check_match_flows line choices ctype flows)
  unfolding check_match_flows
  check_match_flows-Sound line choices ctype S ps flows sounds e n =
      Ensures-then (Runs-check_error line _ _)
        (λ _. Ensures-bind (sounds ctype e n) (λ results kept. match_results ps e results n kept))

  -- What a match goes on with: its type decomposed.
  match_decomposed :
      (c : Checks) (line : ℕ) (sval : Expression) (choices : ℕ) (S : Type 0) (ps : List ControlPath)
      (flows : MatchFlows) (decomposed : Option (List TypeSignature))
      → AreSoundMatches S ps flows
      → (e : TypeEnvironment) → normal e ≡ true
      → Sound args S ps e (match_types line sval choices flows decomposed e)
  unfolding match_types
  match_decomposed c line sval choices S ps flows none sounds e n =
      Ensures-then (Runs-report_error sval.line _)
        (λ _. Ensures-pure e (Extends-refl e) (IsSound-stays ps e))
  match_decomposed c line sval choices S ps flows (some []) sounds e n =
      Ensures-then (Runs-report_error sval.line _)
        (λ _. Ensures-pure e (Extends-refl e) (IsSound-stays ps e))
  match_decomposed c line sval choices S ps flows (some (t ∷ ts)) sounds e n =
      check_match_flows-Sound line choices (t ∷ ts) S ps flows sounds e n

  pub check_match-Sound :
      (c : Checks) (line : ℕ) (sval : Expression) (choices : ℕ) (S : Type 0) (ps : List ControlPath)
      (flows : TypeSignature → MatchFlows)
      → ((eetype : TypeSignature) → AreSoundMatches S ps (flows eetype))
      → IsSoundRun args S (ends_at aborts ∷ ps) (check_match c line sval choices flows)
  unfolding check_match
  check_match-Sound c line sval choices S ps flows sounds e n =
      Ensures-map (λ m x. x) (λ m _. IsSound-aborts ps)
        (Ensures-then (Runs-asked _) (λ eetype. elim (Bool-cases (is_error eetype)) [
          | inl wrong ↦
              rw (wrong, check_match) (Ensures-pure e (Extends-refl e) (IsSound-stays ps e))
          | inr right ↦
              rw (right, check_match)
                (match_decomposed c line sval choices S ps (flows eetype) _ (sounds eetype) e n)
        ]))

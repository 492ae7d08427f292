-- ===== src/Relations/ResultSplit/Agree.antt =====
-- `splitOnOk` and `splitOnErr` see the same parts of a type.
use bosque_core.Prelude.{
  true, ◌≡◌, refl, Option, none, some, and_true, List, [], ◌∷◌, inl, inr, Bool-cases, Option-cases,
}
use bosque_core.Types.Syntax.{
  TypeSignature, error, void, auto, template, nominal, elist, lambda, format_string,
}
use bosque_core.Assembly.{DeclKind, ok_decl, fail_decl, result_decl, Declarations}
use bosque_core.Relations.Outcome.{RelState, Outcome, done, asserted, out_of_fuel, pure, bind}
use bosque_core.Relations.Provides.{arg_at}
use bosque_core.Relations.Split.{CoreTypes, decompose_type, is_error}
use bosque_core.Relations.ResultSplit.{
  Parts, is_result_decl, every_result, ok_flags, err_flags, scan_parts, OkSplit, ErrSplit,
  ok_result, err_result, no_parts, split_on_ok_decomposed_set, split_on_err_decomposed_set,
  split_on_ok, split_on_err,
}

-- The answer of `splitOnErr` that stands for an answer of `splitOnOk`.
abbrev pub turned : Option OkSplit → Option ErrSplit
turned none = none
turned (some r) = some (record { overlap_err_e = r.remain_err_e; remain_ok_t = r.overlap_ok_t })

flags-agree : (k : DeclKind) (st : Parts) → is_result_decl k ≡ true → err_flags k st ≡ ok_flags k st
unfolding is_result_decl err_flags ok_flags
flags-agree ok_decl st h = refl
flags-agree fail_decl st h = refl
flags-agree result_decl st h = refl
flags-agree _ st h = cc

results-turned : (st : Option Parts) → err_result st ≡ turned (ok_result st)
unfolding err_result ok_result
results-turned none = refl
results-turned (some st) = refl

module _ (ds : Declarations) where
  scan-agree :
      (dcs : List TypeSignature) (st : Parts)
      → every_result ds dcs ≡ true
      → scan_parts err_flags ds dcs st ≡ scan_parts ok_flags ds dcs st
  unfolding scan_parts every_result
  scan-agree [] st h = refl
  scan-agree (nominal decl altns args ∷ dcs) st h =
      let (here, rest) = and_true (is_result_decl (ds decl).kind) (every_result ds dcs) h in
      rw
        (
          flags-agree (ds decl).kind (record st { type_t = arg_at args 0; type_e = arg_at args 1 })
              here,
          scan-agree dcs
              (ok_flags (ds decl).kind
                (record st { type_t = arg_at args 0; type_e = arg_at args 1 }))
              rest,
        )
        refl
  scan-agree (error ns ∷ dcs) st h = cc
  scan-agree (void ∷ dcs) st h = cc
  scan-agree (auto ∷ dcs) st h = cc
  scan-agree (template name ∷ dcs) st h = cc
  scan-agree (elist ts ∷ dcs) st h = cc
  scan-agree (lambda r n ps t ∷ dcs) st h = cc
  scan-agree (format_string o t ts ∷ dcs) st h = cc

  turn :
      (o : Outcome (Option Parts))
      → bind o (λ st. pure (err_result st))
        ≡ bind (bind o (λ st. pure (ok_result st))) (λ r. pure (turned r))
  turn (done st s) = rw (results-turned st) refl
  turn asserted = refl
  turn out_of_fuel = refl

  decomposed-agree :
      (dcs : List TypeSignature) (s : RelState)
      → split_on_err_decomposed_set ds dcs s
        ≡ bind (split_on_ok_decomposed_set ds dcs s) (λ r. pure (turned r))
  unfolding split_on_err_decomposed_set split_on_ok_decomposed_set
  decomposed-agree dcs s = elim (Bool-cases (every_result ds dcs)) [
    | inl h ↦ rw (h, scan-agree dcs no_parts h) (turn (scan_parts ok_flags ds dcs no_parts s))
    | inr h ↦ rw h refl
  ]

-- `splitOnErr` answers what `splitOnOk` does, with the overlap and the rest exchanged: they fail on the
-- same types, answer undefined on the same types, give the same type for each part, and leave the same
-- tables.
pub split_on_err-agrees :
    (ds : Declarations) (core : CoreTypes) (src : TypeSignature) (s : RelState)
    → split_on_err ds core src s ≡ bind (split_on_ok ds core src s) (λ r. pure (turned r))
unfolding split_on_err split_on_ok
split_on_err-agrees ds core src s = elim (Bool-cases (is_error src)) [
  | inl h ↦ rw h refl
  | inr h ↦ elim (Option-cases (decompose_type ds core src)) [
    | inl absent ↦ rw (h, absent) refl
    | inr (dct, found) ↦ rw (h, found) (decomposed-agree ds dct s)
  ]
]

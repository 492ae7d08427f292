-- ===== src/Relations/ResultSplit.antt =====
-- `splitOnOk`, `splitOnErr` and their loops over a decomposed set, of
-- src/frontend/checker_relations.ts: what a test for `ok` or `fail` leaves of a result type.
pub mod Agree
pub mod Decomposed
use bosque_core.Prelude.{
  ℕ, Bool, true, false, ◌&&◌, not, Option, none, some, List, [], ◌∷◌, if◌then◌else◌,
}
use bosque_core.Types.Syntax.{TypeSignature, nominal}
use bosque_core.Assembly.{
  DeclKind, ok_decl, fail_decl, result_decl, is_special_result_entity, Declarations,
}
use bosque_core.Relations.Outcome.{RelState, Outcome, done, Rel, pure, fail, bind, ◌>>=◌}
use bosque_core.Relations.Same.{are_same_types}
use bosque_core.Relations.Provides.{arg_at}
use bosque_core.Relations.Split.{CoreTypes, decompose_type, is_error}

-- The local variables of the loops.
pub record Parts : Type 0 where
  pub type_t : Option TypeSignature
  pub type_e : Option TypeSignature
  pub has_ok : Bool
  pub has_err : Bool

abbrev pub no_parts : Parts
no_parts = record { type_t = none; type_e = none; has_ok = false; has_err = false }

unfoldable pub is_result_decl : DeclKind → Bool
is_result_decl ok_decl = true
is_result_decl fail_decl = true
is_result_decl result_decl = true
is_result_decl _ = false

-- The test of `dcs.every`.
unfoldable pub every_result : Declarations → List TypeSignature → Bool
every_result ds [] = true
every_result ds (nominal decl altns args ∷ dcs) =
    is_result_decl (ds decl).kind && every_result ds dcs
every_result ds (_ ∷ dcs) = false

-- The flags that `splitOnOkDecomposedSet` sets for a declaration.
unfoldable pub ok_flags : DeclKind → Parts → Parts
ok_flags result_decl st = record st { has_ok = true; has_err = true }
ok_flags fail_decl st = record st { has_err = true }
ok_flags _ st = record st { has_ok = true }

-- The flags that `splitOnErrDecomposedSet` sets for a declaration.
unfoldable pub err_flags : DeclKind → Parts → Parts
err_flags result_decl st = record st { has_err = true; has_ok = true }
err_flags ok_decl st = record st { has_ok = true }
err_flags _ st = record st { has_err = true }

-- `type === undefined || this.areSameTypes(type, opt)`. With a missing argument the source throws.
unfoldable pub unset_or_same : Declarations → Option TypeSignature → Option TypeSignature → Rel Bool
unset_or_same ds none opt = pure true
unset_or_same ds (some t) (some u) = are_same_types ds t u
unset_or_same ds (some t) none = fail

-- The loop of both, from the flags that it sets for a declaration.
unfoldable pub scan_parts :
    (DeclKind → Parts → Parts) → Declarations → List TypeSignature → Parts → Rel (Option Parts)
scan_parts flags ds [] st = pure (some st)
scan_parts flags ds (nominal decl altns args ∷ dcs) st = do
  same_t ← unset_or_same ds st.type_t (arg_at args 0)
  if not same_t then pure none else (do
    same_e ← unset_or_same ds st.type_e (arg_at args 1)
    if not same_e
        then pure none
        else scan_parts flags ds dcs
            (flags (ds decl).kind (record st { type_t = arg_at args 0; type_e = arg_at args 1 })))
scan_parts flags ds (_ ∷ dcs) st = fail

pub record OkSplit : Type 0 where
  pub overlap_ok_t : Option TypeSignature
  pub remain_err_e : Option TypeSignature

pub record ErrSplit : Type 0 where
  pub overlap_err_e : Option TypeSignature
  pub remain_ok_t : Option TypeSignature

-- `flag ? type : undefined`
abbrev pub when : Bool → Option TypeSignature → Option TypeSignature
when flag t = if flag then t else none

unfoldable pub ok_result : Option Parts → Option OkSplit
ok_result none = none
ok_result (some st) =
    some
      (record { overlap_ok_t = when st.has_ok st.type_t; remain_err_e = when st.has_err st.type_e })

unfoldable pub err_result : Option Parts → Option ErrSplit
err_result none = none
err_result (some st) =
    some
      (record { overlap_err_e = when st.has_err st.type_e; remain_ok_t = when st.has_ok st.type_t })

unfoldable pub split_on_ok_decomposed_set : Declarations → List TypeSignature → Rel (Option OkSplit)
split_on_ok_decomposed_set ds dcs =
    if not (every_result ds dcs)
    then pure none
    else (do st ← scan_parts ok_flags ds dcs no_parts; pure (ok_result st))

unfoldable pub split_on_err_decomposed_set :
    Declarations → List TypeSignature → Rel (Option ErrSplit)
split_on_err_decomposed_set ds dcs =
    if not (every_result ds dcs)
    then pure none
    else (do st ← scan_parts err_flags ds dcs no_parts; pure (err_result st))

unfoldable pub split_on_ok : Declarations → CoreTypes → TypeSignature → Rel (Option OkSplit)
split_on_ok ds core src =
    if is_error src
    then pure (some (record { overlap_ok_t = none; remain_err_e = none }))
    else elim (decompose_type ds core src) [
      | none ↦ fail
      | some dct ↦ split_on_ok_decomposed_set ds dct
    ]

unfoldable pub split_on_err : Declarations → CoreTypes → TypeSignature → Rel (Option ErrSplit)
split_on_err ds core src =
    if is_error src
    then pure (some (record { overlap_err_e = none; remain_ok_t = none }))
    else elim (decompose_type ds core src) [
      | none ↦ fail
      | some dct ↦ split_on_err_decomposed_set ds dct
    ]

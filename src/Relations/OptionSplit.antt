-- ===== src/Relations/OptionSplit.antt =====
-- `splitOnNone`, `splitOnSome` and their loops over a decomposed set, of
-- src/frontend/checker_relations.ts: what a test for `none` or `some` leaves of an option type.
-- `is_sub` is `isSubtypeOf` in the constraint scope.
pub mod Decomposed
use bosque_core.Prelude.{
  ℕ, Bool, true, false, ◌&&◌, ◌||◌, not, Option, none, some, List, [], ◌∷◌, if◌then◌else◌,
}
use bosque_core.Types.Syntax.{TypeSignature, nominal}
use bosque_core.Assembly.{DeclKind, some_decl, option_decl, NominalTypeDecl, Declarations}
use bosque_core.Relations.Outcome.{RelState, Outcome, done, Rel, pure, fail, bind, ◌>>=◌}
use bosque_core.Relations.Provides.{arg_at}
use bosque_core.Relations.Subtype.{is_none_decl, or_rest}
use bosque_core.Relations.Split.{CoreTypes, decompose_type, is_error}
use bosque_core.Relations.ResultSplit.{unset_or_same}

-- The local variables of the loops.
pub record OptionParts : Type 0 where
  pub has_none : Bool
  pub some_t : Option TypeSignature

-- `(t.decl instanceof SomeTypeDecl) || (t.decl instanceof OptionTypeDecl)`
unfoldable pub has_some : DeclKind → Bool
has_some some_decl = true
has_some option_decl = true
has_some _ = false

-- The test of `dcs.every`.
unfoldable pub every_option : Declarations → List TypeSignature → Bool
every_option ds [] = true
every_option ds (nominal decl altns args ∷ dcs) =
    (has_some (ds decl).kind || is_none_decl (ds decl)) && every_option ds dcs
every_option ds (_ ∷ dcs) = false

-- The body of the `if` on the declaration, then the rest of the loop.
unfoldable pub take_some :
    Declarations
    → DeclKind
    → Option TypeSignature
    → Option TypeSignature
    → (Option TypeSignature → Rel (Option OptionParts))
    → Rel (Option OptionParts)
take_some ds kind some_t topt rest =
    if has_some kind
    then (do same ← unset_or_same ds some_t topt; if not same then pure none else rest topt)
    else rest some_t

-- The loop of both.
unfoldable pub scan_options :
    (TypeSignature → TypeSignature → Rel Bool)
    → Declarations
    → CoreTypes
    → List TypeSignature
    → OptionParts
    → Rel (Option OptionParts)
scan_options is_sub ds core [] st = pure (some st)
scan_options is_sub ds core (nominal decl altns args ∷ dcs) st = do
  has_none ← or_rest st.has_none (is_sub core.none_type (nominal decl altns args))
  take_some ds (ds decl).kind st.some_t (arg_at args 0)
      (λ some_t. scan_options is_sub ds core dcs (record { has_none = has_none; some_t = some_t }))
scan_options is_sub ds core (_ ∷ dcs) st = fail

pub record NoneSplit : Type 0 where
  pub has_none : Bool
  pub remain_some_t : Option TypeSignature

pub record SomeSplit : Type 0 where
  pub overlap_some_t : Option TypeSignature
  pub has_none : Bool

unfoldable pub none_result : Option OptionParts → Option NoneSplit
none_result none = none
none_result (some st) = some (record { has_none = st.has_none; remain_some_t = st.some_t })

unfoldable pub some_result : Option OptionParts → Option SomeSplit
some_result none = none
some_result (some st) = some (record { overlap_some_t = st.some_t; has_none = st.has_none })

module _ (is_sub : TypeSignature → TypeSignature → Rel Bool) (ds : Declarations)
    (core : CoreTypes) where
  unfoldable pub split_on_none_decomposed_set : List TypeSignature → Rel (Option NoneSplit)
  split_on_none_decomposed_set dcs = if not (every_option ds dcs) then pure none else (do
    st ← scan_options is_sub ds core dcs (record { has_none = false; some_t = none })
    pure (none_result st))

  unfoldable pub split_on_some_decomposed_set : List TypeSignature → Rel (Option SomeSplit)
  split_on_some_decomposed_set dcs = if not (every_option ds dcs) then pure none else (do
    st ← scan_options is_sub ds core dcs (record { has_none = false; some_t = none })
    pure (some_result st))

  unfoldable pub split_on_none : TypeSignature → Rel (Option NoneSplit)
  split_on_none src =
      if is_error src
      then pure (some (record { has_none = false; remain_some_t = none }))
      else elim (decompose_type ds core src) [
        | none ↦ fail
        | some dct ↦ split_on_none_decomposed_set dct
      ]

  unfoldable pub split_on_some : TypeSignature → Rel (Option SomeSplit)
  split_on_some src =
      if is_error src
      then pure (some (record { overlap_some_t = none; has_none = false }))
      else elim (decompose_type ds core src) [
        | none ↦ fail
        | some dct ↦ split_on_some_decomposed_set dct
      ]

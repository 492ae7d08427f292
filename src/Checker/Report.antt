-- ===== src/Checker/Report.antt =====
-- The errors of `TypeChecker` in src/frontend/checker.ts, and what it asks of the checks of
-- expressions and of the type relations. A run of the checker returns with the errors that it has
-- pushed, or raises an exception.
use bosque_core.Prelude.{ℕ, String, Bool, true, false, Option, none, some, List, [], ◌∷◌, ◌++◌}
use bosque_core.Types.Syntax.{TypeSignature}
use bosque_core.CheckerEnv.Syntax.{TypeInferContext, TypeEnvironment}
use bosque_core.Checker.Syntax.{Expression, ITest}

-- The messages of the statements, without the text that they print; `in_expression` stands for those
-- of the other checks.
pub data Message : Type 0 where
  in_expression : ℕ → Message
  unreachable_code : Message
  cannot_be_assigned : TypeSignature → Option TypeSignature → Message
  elist_cannot_be_assigned : TypeSignature → Option TypeSignature → Message
  mismatch_in_number : Message
  wildcard_with_explicit_expressions : Message
  expected_elist : Message
  not_declared not_defined assignable_not_refined reference_not_refined : String → Message
  const_not_assigned : String → Message
  retype_fails : Message
  expected_void_return expected_return expected_void_call : Message
  multiple_return_without_elist mismatch_in_returns : Message
  requires_bool binder_without_itest never_true never_false : Message
  expected_boolean too_few_choices wildcard_not_last : Message
  requires_key_type cannot_compare : Message
  requires_decomposable requires_subtype match_never_true match_never_false : Message
  cannot_be_updated not_updatable not_a_field not_assignable_to_field : String → Message
  no_return_in_all_paths wrong_expression_body : Message

-- `file` is the same for a whole body.
pub record TypeError : Type 0 where
  pub line : ℕ
  pub msg : Message

pub data Checked {ℓ} (A : Type ℓ) : Type ℓ where
  threw : Checked A
  checked : List TypeError → A → Checked A

abbrev pub pure {ℓ} : {A : Type ℓ} → A → Checked A
pure a = checked [] a

-- The errors of a call come after those pushed before it.
abbrev pub after {ℓ} : {A : Type ℓ} → List TypeError → Checked A → Checked A
after errs threw = threw
after errs (checked more a) = checked (errs ++ more) a

infixl 5 ◌>>=◌
abbrev pub ◌>>=◌ {ℓ κ} : {A : Type ℓ} {B : Type κ} → Checked A → (A → Checked B) → Checked B
threw >>= f = threw
(checked errs a) >>= f = after errs (f a)

unfoldable pub report_error : ℕ → Message → Checked Bool
report_error line msg = checked (record { line = line; msg = msg } ∷ []) true

unfoldable pub check_error : ℕ → Bool → Message → Checked Bool
unfolding report_error
check_error line cond msg = elim cond [ true ↦ report_error line msg | false ↦ pure false ]

-- `none` is the failed assertion or the property of undefined.
unfoldable pub or_throw {ℓ} : {A : Type ℓ} → Option A → Checked A
or_throw none = threw
or_throw (some a) = pure a

-- A call outside the statements: its answer, and the errors that it pushes.
unfoldable pub asked {ℓ} : {A : Type ℓ} → A × List TypeError → Checked A
asked (a, errs) = checked errs a

-- `{ ttrue, tspecialfubx, tfalse, fspecialfubx }`
pub record Splits : Type 0 where
  pub ttrue : Option TypeSignature
  pub tspecialfubx : Option String
  pub tfalse : Option TypeSignature
  pub fspecialfubx : Option String

-- `{ overlap, remain }`
pub record Refined : Type 0 where
  pub overlap : List TypeSignature
  pub remain : List TypeSignature

-- The methods of `TypeChecker` and `TypeCheckerRelations` that the statements call, in the
-- constraint scope of the body, and the well-known type `Bool`.
pub record Checks : Type 0 where
  pub check_expression :
      TypeEnvironment → Expression → Option TypeInferContext → TypeSignature × List TypeError
  pub check_expression_rhs :
      TypeEnvironment → Expression → Option TypeInferContext → TypeSignature × List TypeError
  pub check_type_signature : TypeSignature → Bool × List TypeError
  pub process_itest_as_convert :
      ℕ → TypeEnvironment → TypeSignature → ITest → Splits × List TypeError
  pub check_value_eq_is_err :
      Expression → TypeSignature → Expression → TypeSignature → Bool × List TypeError
  pub bool_type : TypeSignature
  pub is_boolean_type : TypeSignature → Bool
  pub is_key_type : TypeSignature → Bool
  pub is_subtype_of : TypeSignature → TypeSignature → Bool
  pub are_same_types : TypeSignature → TypeSignature → Bool
  pub convert_type_signature_to_type_infer_ctx : TypeSignature → TypeInferContext
  pub decompose_type : TypeSignature → Option (List TypeSignature)
  pub refine_match_type : List TypeSignature → TypeSignature → Option Refined
  pub flow_type_lub : TypeSignature → List TypeSignature → TypeSignature
  pub is_type_updatable : TypeSignature → Bool
  pub get_field_type : TypeSignature → String → Option TypeSignature

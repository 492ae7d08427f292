-- ===== src/Relations/Split.antt =====
-- `decomposeType`, `mustDisjointCheckForSplit`, `splitOnTypeDecomposedSet`, `refineMatchType` and
-- `refineType` of src/frontend/checker_relations.ts: what a type test leaves of a type. `is_sub` is
-- `isSubtypeOf` in the constraint scope.
pub mod Decides
pub mod Correct
pub mod Covers
use bosque_core.Prelude.{
  ℕ, String, Bool, true, false, not, ◌||◌, Option, none, some, List, [], ◌∷◌, map, if◌then◌else◌,
}
use bosque_core.Types.Syntax.{TypeSignature, error, template, nominal, TypeSignatures}
use bosque_core.Types.Constraints.{TemplateConstraintScope, resolve_constraint}
use bosque_core.Assembly.{
  DeclKind, option_decl, result_decl, datatype, Declarations, is_abstract_entity,
}
use bosque_core.Relations.Outcome.{RelState, Outcome, done, Rel, pure, fail, bind, ◌>>=◌}
use bosque_core.Relations.Subtype.{or_rest}

-- The declarations that the source looks up in the core namespace, and the well-known type `None`.
pub record CoreTypes : Type 0 where
  pub some_decl : ℕ
  pub ok_decl : ℕ
  pub fail_decl : ℕ
  pub none_type : TypeSignature

unfoldable pub decompose_nominal :
    CoreTypes → DeclKind → TypeSignature → TypeSignatures → (ℕ → TypeSignature) → List TypeSignature
decompose_nominal core option_decl t args member =
    core.none_type ∷ nominal core.some_decl none args ∷ []
decompose_nominal core result_decl t args member =
    nominal core.ok_decl none args ∷ nominal core.fail_decl none args ∷ []
decompose_nominal core (datatype members) t args member = map member members
decompose_nominal core _ t args member = t ∷ []

-- `none` is the failed assertion.
unfoldable pub decompose_type :
    Declarations → CoreTypes → TypeSignature → Option (List TypeSignature)
decompose_type ds core (nominal decl altns args) = some (
    decompose_nominal core (ds decl).kind (nominal decl altns args) args
      (λ mem. nominal mem altns args))
decompose_type ds core (template name) = some (template name ∷ [])
decompose_type ds core _ = none

unfoldable pub is_datatype : DeclKind → Bool
is_datatype (datatype members) = true
is_datatype _ = false

unfoldable pub is_unique_split_check_type : Declarations → TypeSignature → Bool
is_unique_split_check_type ds (nominal decl altns args) =
    is_abstract_entity (ds decl).kind || is_datatype (ds decl).kind
is_unique_split_check_type ds _ = false

-- A template is replaced by its constraint. `none` is where the source returns false.
unfoldable pub split_bound : TemplateConstraintScope → TypeSignature → Option TypeSignature
split_bound tconstrain (template name) = elim (resolve_constraint tconstrain name) [
  | none ↦ none
  | some tl ↦ tl.tconstraint
]
split_bound tconstrain t = some t

-- `!isSub(t1, t2) && !isSub(t2, t1)`
unfoldable pub neither_is_subtype :
    (TypeSignature → TypeSignature → Rel Bool) → TypeSignature → TypeSignature → Rel Bool
neither_is_subtype is_sub t1 t2 = do
  below ← is_sub t1 t2
  if below then pure false else (do above ← is_sub t2 t1; pure (not above))

unfoldable pub must_disjoint_bounds :
    (TypeSignature → TypeSignature → Rel Bool)
    → Declarations
    → Option TypeSignature
    → Option TypeSignature
    → Rel Bool
must_disjoint_bounds is_sub ds (some t1) (some t2) =
    if is_unique_split_check_type ds t1 || is_unique_split_check_type ds t2
    then neither_is_subtype is_sub t1 t2
    else pure false
must_disjoint_bounds is_sub ds _ _ = pure false

unfoldable pub must_disjoint_check_for_split :
    (TypeSignature → TypeSignature → Rel Bool)
    → Declarations
    → TemplateConstraintScope
    → TypeSignature
    → TypeSignature
    → Rel Bool
must_disjoint_check_for_split is_sub ds tconstrain t1 t2 =
    must_disjoint_bounds is_sub ds (split_bound tconstrain t1) (split_bound tconstrain t2)

-- `refine.some((rt) => !this.mustDisjointCheckForSplit(dct, rt, tconstrain))`
unfoldable pub some_may_overlap :
    (TypeSignature → TypeSignature → Rel Bool)
    → Declarations
    → TemplateConstraintScope
    → TypeSignature
    → List TypeSignature
    → Rel Bool
some_may_overlap is_sub ds tconstrain dct [] = pure false
some_may_overlap is_sub ds tconstrain dct (rt ∷ refine) = do
  disjoint ← must_disjoint_check_for_split is_sub ds tconstrain dct rt
  or_rest (not disjoint) (some_may_overlap is_sub ds tconstrain dct refine)

-- `refine.some((rt) => this.isSubtypeOf(dct, rt, tconstrain))`
unfoldable pub some_is_supertype :
    (TypeSignature → TypeSignature → Rel Bool) → TypeSignature → List TypeSignature → Rel Bool
some_is_supertype is_sub dct [] = pure false
some_is_supertype is_sub dct (rt ∷ refine) = do
  above ← is_sub dct rt
  or_rest above (some_is_supertype is_sub dct refine)

-- The two sets of the result.
pub record Split : Type 0 where
  pub overlap : List TypeSignature
  pub remain : List TypeSignature

-- `if(test) { set.push(t); }`, seen from the end of the loop.
abbrev pub keep_if : Bool → TypeSignature → List TypeSignature → List TypeSignature
keep_if test t set = if test then t ∷ set else set

unfoldable pub split_on_type_decomposed_set :
    (TypeSignature → TypeSignature → Rel Bool)
    → Declarations
    → TemplateConstraintScope
    → List TypeSignature
    → List TypeSignature
    → Rel Split
split_on_type_decomposed_set is_sub ds tconstrain [] refine =
    pure (record { overlap = []; remain = [] })
split_on_type_decomposed_set is_sub ds tconstrain (dct ∷ dcs) refine = do
  isoverlap ← some_may_overlap is_sub ds tconstrain dct refine
  issub ← some_is_supertype is_sub dct refine
  rest ← split_on_type_decomposed_set is_sub ds tconstrain dcs refine
  pure (record {
    overlap = keep_if isoverlap dct rest.overlap;
    remain = keep_if (not issub) dct rest.remain;
  })

unfoldable pub is_error : TypeSignature → Bool
is_error (error ns) = true
is_error _ = false

unfoldable pub refine_match_type :
    (TypeSignature → TypeSignature → Rel Bool)
    → Declarations
    → CoreTypes
    → TemplateConstraintScope
    → List TypeSignature
    → TypeSignature
    → Rel Split
refine_match_type is_sub ds core tconstrain src refine = elim (decompose_type ds core refine) [
  | none ↦ fail
  | some dcr ↦ split_on_type_decomposed_set is_sub ds tconstrain src dcr
]

unfoldable pub refine_type :
    (TypeSignature → TypeSignature → Rel Bool)
    → Declarations
    → CoreTypes
    → TemplateConstraintScope
    → TypeSignature
    → TypeSignature
    → Rel Split
refine_type is_sub ds core tconstrain src refine =
    if is_error src || is_error refine
    then pure (record { overlap = []; remain = [] })
    else elim (decompose_type ds core src) [
      | none ↦ fail
      | some dct ↦ refine_match_type is_sub ds core tconstrain dct refine
    ]

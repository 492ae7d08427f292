-- ===== src/Types/Constraints.antt =====
-- `TemplateConstraintScope` of src/frontend/type.ts, with the restriction clauses of
-- src/frontend/assembly.ts. `none` is the exception that JavaScript raises on a property of
-- undefined.
pub mod Scoping
pub mod Restriction
use bosque_core.Prelude.{
  String, Bool, Option, none, some, List, [], ◌∷◌, ◌++◌, reverse, any, find?, drop_last, ◌==◌,
  if◌then◌else◌,
}
use bosque_core.Types.Syntax.{TypeSignature}
use bosque_core.Assembly.{TemplateTermDeclExtraTag, key_type, numeric, tag_eq, TemplateTermDecl}

-- `t` is the name of the clause's template.
pub record InvokeTemplateTypeRestrictionClause : Type 0 where
  pub t : String
  pub subtype : Option TypeSignature
  pub extra_tags : List TemplateTermDeclExtraTag

abbrev pub InvokeTemplateTypeRestriction : Type 0
InvokeTemplateTypeRestriction = List InvokeTemplateTypeRestrictionClause

pub record TemplateConstraintScope : Type 0 where
  pub constraints : List (List TemplateTermDecl)

abbrev pub find_term : String → List TemplateTermDecl → Option TemplateTermDecl
find_term name terms = find? (λ (cc : TemplateTermDecl). cc.name == name) terms

-- The loop of `resolveConstraint`, over the frames from the last to the first.
unfoldable pub search_frames : String → List (List TemplateTermDecl) → Option TemplateTermDecl
search_frames name [] = none
search_frames name (frame ∷ rest) = elim (find_term name frame) [
  | none ↦ search_frames name rest
  | some res ↦ some res
]

unfoldable pub resolve_constraint : TemplateConstraintScope → String → Option TemplateTermDecl
unfolding search_frames
resolve_constraint s name = search_frames name (reverse s.constraints)

unfoldable pub includes : TemplateTermDeclExtraTag → List TemplateTermDeclExtraTag → Bool
unfolding tag_eq
includes tag tags = any (tag_eq tag) tags

-- `tc.subtype || btt.tconstraint`
unfoldable pub subtype_or :
    Option TypeSignature → Option TemplateTermDecl → Option (Option TypeSignature)
subtype_or (some t) btt = some (some t)
subtype_or none (some b) = some b.tconstraint
subtype_or none none = none

-- `if(!tcextra.includes(tag) && btt.extraTags.includes(tag)) tcextra.push(tag);`
unfoldable pub inherit_tag :
    TemplateTermDeclExtraTag
    → List TemplateTermDeclExtraTag
    → Option TemplateTermDecl
    → Option (List TemplateTermDeclExtraTag)
unfolding includes
inherit_tag tag tags btt = if includes tag tags then some tags else elim btt [
  | none ↦ none
  | some b ↦ some (if includes tag b.extra_tags then tags ++ tag ∷ [] else tags)
]

infixl 5 ◌>>=◌
abbrev pub ◌>>=◌ {ℓ κ} : {A : Type ℓ} {B : Type κ} → Option A → (A → Option B) → Option B
none >>= f = none
some a >>= f = f a

unfoldable pub restrict_clause :
    TemplateConstraintScope → InvokeTemplateTypeRestrictionClause → Option TemplateTermDecl
restrict_clause s tc = do
  let btt = resolve_constraint s tc.t
  tcsub ← subtype_or tc.subtype btt
  keyed ← inherit_tag key_type tc.extra_tags btt
  tcextra ← inherit_tag numeric keyed btt
  some (record { name = tc.t; tconstraint = tcsub; extra_tags = tcextra })

unfoldable pub restrict_clauses :
    TemplateConstraintScope → InvokeTemplateTypeRestriction → Option (List TemplateTermDecl)
restrict_clauses s [] = some []
restrict_clauses s (tc ∷ tcs) = do
  d ← restrict_clause s tc
  ds ← restrict_clauses s tcs
  some (d ∷ ds)

-- The restriction is read in the scope that has the terms already.
unfoldable pub push_constraint_scope :
    TemplateConstraintScope
    → List TemplateTermDecl
    → Option InvokeTemplateTypeRestriction
    → Option TemplateConstraintScope
push_constraint_scope s terms none = some (record { constraints = s.constraints ++ terms ∷ [] })
push_constraint_scope s terms (some trestrict) = do
  let s' : TemplateConstraintScope = record { constraints = s.constraints ++ terms ∷ [] }
  nrestrict ← restrict_clauses s' trestrict
  some (record { constraints = s'.constraints ++ nrestrict ∷ [] })

unfoldable pub pop_constraint_scope : TemplateConstraintScope → TemplateConstraintScope
pop_constraint_scope s = record { constraints = drop_last s.constraints }

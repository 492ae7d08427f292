-- ===== src/Types/Constraints/Restriction.antt =====
-- What `where` clauses make of the declared constraints.
use bosque_core.Prelude.{
  ◌≡◌, refl, true, Option, none, some, List, [], ◌∷◌, ◌++◌, arith, false, ◌∙◌, ap, if◌then◌else◌,
  ◌||◌,
}
use bosque_core.Types.Syntax.{TypeSignature}
use bosque_core.Assembly.{TemplateTermDeclExtraTag, key_type, numeric, TemplateTermDecl}
use bosque_core.Types.Constraints.Scoping.{◌or_else◌}
use bosque_core.Types.Constraints.{
  TemplateConstraintScope, InvokeTemplateTypeRestrictionClause, resolve_constraint, includes,
  subtype_or, inherit_tag, restrict_clause,
}

includes-append :
    (tag : TemplateTermDeclExtraTag) (tags more : List TemplateTermDeclExtraTag)
    → includes tag (tags ++ more) ≡ (includes tag tags || includes tag more)
unfolding includes
includes-append tag [] more = refl
includes-append tag (t ∷ tags) more = ground (arith, includes-append tag tags more)

includes_self : (tag : TemplateTermDeclExtraTag) → includes tag (tag ∷ []) ≡ true
unfolding includes
includes_self key_type = refl
includes_self numeric = refl

-- The tags after `inherit_tag`, where the base declaration is there.
abbrev inherited :
    TemplateTermDeclExtraTag
    → List TemplateTermDeclExtraTag
    → TemplateTermDecl
    → List TemplateTermDeclExtraTag
inherited tag tags b =
    if includes tag tags then tags else if includes tag b.extra_tags then tags ++ tag ∷ [] else tags

inherit_tag-some :
    (tag : TemplateTermDeclExtraTag) (tags : List TemplateTermDeclExtraTag) (b : TemplateTermDecl)
    → inherit_tag tag tags (some b) ≡ some (inherited tag tags b)
unfolding inherit_tag
inherit_tag-some tag tags b = ground arith

includes-inherited_self :
    (tag : TemplateTermDeclExtraTag) (tags : List TemplateTermDeclExtraTag) (b : TemplateTermDecl)
    → includes tag (inherited tag tags b) ≡ (includes tag tags || includes tag b.extra_tags)
includes-inherited_self tag tags b =
    ground (arith, includes-append tag tags (tag ∷ []), includes_self tag)

includes-inherited_other :
    (tag other : TemplateTermDeclExtraTag) (tags : List TemplateTermDeclExtraTag)
    (b : TemplateTermDecl)
    → includes other (tag ∷ []) ≡ false
    → includes other (inherited tag tags b) ≡ includes other tags
includes-inherited_other tag other tags b h = ground (arith, includes-append other tags (tag ∷ []))

subtype_or-some :
    (t : Option TypeSignature) (b : TemplateTermDecl)
    → subtype_or t (some b) ≡ some (t or_else b.tconstraint)
unfolding subtype_or
subtype_or-some none b = refl
subtype_or-some (some t) b = refl

abbrev restricted_tags :
    List TemplateTermDeclExtraTag → TemplateTermDecl → List TemplateTermDeclExtraTag
restricted_tags tags b = inherited numeric (inherited key_type tags b) b

includes-restricted :
    (tags : List TemplateTermDeclExtraTag) (b : TemplateTermDecl) (tag : TemplateTermDeclExtraTag)
    → includes tag (restricted_tags tags b) ≡ (includes tag tags || includes tag b.extra_tags)
includes-restricted tags b key_type =
    includes-inherited_other numeric key_type (inherited key_type tags b) b
      (unfold includes in refl)
    ∙ includes-inherited_self key_type tags b
includes-restricted tags b numeric =
    includes-inherited_self numeric (inherited key_type tags b) b
    ∙ ap (λ here. here || includes numeric b.extra_tags)
        (includes-inherited_other key_type numeric tags b (unfold includes in refl))

-- A clause about a declared template never raises. The result has the clause's subtype if it states
-- one and the template's own constraint if not, and exactly the tags of the two together.
pub restrict_clause_lem :
    (s : TemplateConstraintScope) (tc : InvokeTemplateTypeRestrictionClause) (b : TemplateTermDecl)
    → resolve_constraint s tc.t ≡ some b
    → (d : TemplateTermDecl) × (restrict_clause s tc ≡ some d)
      × (d.name ≡ tc.t)
      × (d.tconstraint ≡ (tc.subtype or_else b.tconstraint))
      × ((tag : TemplateTermDeclExtraTag)
          → includes tag d.extra_tags ≡ (includes tag tc.extra_tags || includes tag b.extra_tags))
unfolding restrict_clause
restrict_clause_lem s tc b found = (
  record {
    name = tc.t;
    tconstraint = tc.subtype or_else b.tconstraint;
    extra_tags = restricted_tags tc.extra_tags b;
  },
  simp (found, subtype_or-some, inherit_tag-some),
  refl,
  refl,
  includes-restricted tc.extra_tags b,
)

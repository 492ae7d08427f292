-- ===== src/Tests/TypesTests.antt =====
-- Signatures, mappers and constraint scopes at which the theorems on src/frontend/type.ts are applied.
use bosque_core.Prelude.{◌≡◌, refl, none, some, [], ◌∷◌}
use bosque_core.Types.Syntax.{
  FullyQualifiedNamespace, TypeSignature, template, nominal, elist, no_types, ty,
}
use bosque_core.Assembly.{key_type, numeric, TemplateTermDecl}
use bosque_core.Types.Mapper.{
  get, TemplateNameMapper, merge, scan, create_initial_mapping, resolve_template_mapping,
  remap_template_bindings, compute_binding_set,
}
use bosque_core.Types.Mapper.Merge.{remap-merge}
use bosque_core.Types.Mapper.Closed.{
  templates, image_templates, IsGround, templates-remap, remap-IsGround, remap-unchanged,
}
use bosque_core.Types.Mapper.BindingSet.{compute_binding_set-resolves}
use bosque_core.Types.Constraints.{
  TemplateConstraintScope, InvokeTemplateTypeRestrictionClause, find_term, search_frames,
  resolve_constraint, includes, subtype_or, inherit_tag, restrict_clause, restrict_clauses,
  push_constraint_scope, pop_constraint_scope,
}
use bosque_core.Types.Constraints.Scoping.{
  extend, ◌or_else◌, resolve_constraint-push, pop-push_restricted,
}

abbrev core_ns : FullyQualifiedNamespace
core_ns = record { ns = "Core" ∷ [] }

abbrev main_ns : FullyQualifiedNamespace
main_ns = record { ns = "Main" ∷ [] }

abbrev nat_type : TypeSignature
nat_type = nominal 0 none no_types

-- `T` stands for `Nat`, and `U` for `T`.
abbrev outer_map : TemplateNameMapper
outer_map = create_initial_mapping (("T", nat_type) ∷ [])

abbrev inner_map : TemplateNameMapper
inner_map = create_initial_mapping (("U", template "T") ∷ [])

abbrev pair_of_u : TypeSignature
pair_of_u = elist (ty (template "U") (ty nat_type no_types))

remap-merge_example :
    remap_template_bindings (merge outer_map inner_map) pair_of_u
    ≡ remap_template_bindings outer_map (remap_template_bindings inner_map pair_of_u)
remap-merge_example = remap-merge outer_map inner_map pair_of_u ((tt, tt), tt)

templates-remap_example :
    templates (remap_template_bindings inner_map pair_of_u)
    ≡ image_templates inner_map (templates pair_of_u)
templates-remap_example = templates-remap inner_map pair_of_u

u-IsGround : IsGround (resolve_template_mapping (merge outer_map inner_map) "U")
unfolding resolve_template_mapping scan get templates
u-IsGround = refl

remap-IsGround_example : IsGround (remap_template_bindings (merge outer_map inner_map) pair_of_u)
unfolding templates
remap-IsGround_example = remap-IsGround (merge outer_map inner_map) pair_of_u (u-IsGround, tt)

t_stays : resolve_template_mapping inner_map "T" ≡ template "T"
unfolding resolve_template_mapping scan get
t_stays = refl

remap-unchanged_example : remap_template_bindings inner_map (template "T") ≡ template "T"
unfolding templates
remap-unchanged_example = remap-unchanged inner_map (template "T") (t_stays, tt)

compute_binding_set-resolves_example :
    resolve_template_mapping
      (create_initial_mapping (compute_binding_set (merge outer_map inner_map)))
      "U"
    ≡ resolve_template_mapping (merge outer_map inner_map) "U"
compute_binding_set-resolves_example = compute_binding_set-resolves (merge outer_map inner_map) "U"

abbrev term_t : TemplateTermDecl
term_t = record { name = "T"; tconstraint = none; extra_tags = numeric ∷ [] }

abbrev empty_scope : TemplateConstraintScope
empty_scope = record { constraints = [] }

abbrev in_scope : TemplateConstraintScope
in_scope = record { constraints = (term_t ∷ []) ∷ [] }

abbrev t_is_key : InvokeTemplateTypeRestrictionClause
t_is_key = record { t = "T"; subtype = none; extra_tags = key_type ∷ [] }

-- `T` after the restriction.
abbrev keyed_t : TemplateTermDecl
keyed_t = record { name = "T"; tconstraint = none; extra_tags = key_type ∷ numeric ∷ [] }

abbrev restricted_scope : TemplateConstraintScope
restricted_scope = record { constraints = (term_t ∷ []) ∷ (keyed_t ∷ []) ∷ [] }

t_is_declared : resolve_constraint in_scope "T" ≡ some term_t
unfolding resolve_constraint search_frames
t_is_declared = refl

t_is_restricted :
    restrict_clauses (extend empty_scope (term_t ∷ [])) (t_is_key ∷ []) ≡ some (keyed_t ∷ [])
unfolding restrict_clauses restrict_clause resolve_constraint search_frames subtype_or inherit_tag
    includes bosque_core.Assembly.tag_eq
t_is_restricted = refl

restriction_is_pushed :
    push_constraint_scope empty_scope (term_t ∷ []) (some (t_is_key ∷ [])) ≡ some restricted_scope
unfolding push_constraint_scope restrict_clauses restrict_clause resolve_constraint search_frames
    subtype_or inherit_tag includes bosque_core.Assembly.tag_eq
restriction_is_pushed = refl

resolve_constraint-push_example : resolve_constraint restricted_scope "T" ≡ (
    find_term "T" (keyed_t ∷ [])
    or_else find_term "T" (term_t ∷ [])
    or_else resolve_constraint empty_scope "T")
resolve_constraint-push_example =
    resolve_constraint-push empty_scope (term_t ∷ []) (t_is_key ∷ []) (keyed_t ∷ [])
      restricted_scope "T" t_is_restricted restriction_is_pushed

pop-push_restricted_example :
    (pop_constraint_scope restricted_scope ≡ extend empty_scope (term_t ∷ []))
    × (resolve_constraint (pop_constraint_scope restricted_scope) "T"
        ≡ (find_term "T" (term_t ∷ []) or_else resolve_constraint empty_scope "T"))
pop-push_restricted_example =
    pop-push_restricted empty_scope restricted_scope (term_t ∷ []) (t_is_key ∷ []) "T"
      restriction_is_pushed

-- ===== src/Relations/Provides.antt =====
-- The template mapping of a type and what it provides directly: `generateTemplateMappingForTypeDecl`,
-- `resolveTemplateAsNeededForNameLookup` and `resolveDirectProvidesDecls` of
-- src/frontend/checker_relations.ts.
use bosque_core.Prelude.{
  ℕ, zero, suc, String, Option, none, some, List, [], ◌∷◌, ◌++◌, length, nat_eq, ◌&&◌,
  if◌then◌else◌,
}
use bosque_core.Types.Syntax.{TypeSignature, template, nominal, TypeSignatures, no_types, ty}
use bosque_core.Types.Mapper.{TemplateMap, set, TemplateNameMapper, create_initial_mapping, merge}
use bosque_core.Types.Constraints.{TemplateConstraintScope, resolve_constraint}
use bosque_core.Assembly.{
  TemplateTermDecl, NominalTypeDecl, Declarations, is_special_result_entity,
  is_special_api_result_entity, is_abstract_concept,
}
use bosque_core.Relations.Same.{length_types}

pub record TypeLookupInfo : Type 0 where
  pub tsig : TypeSignature
  pub mapping : TemplateNameMapper

-- `alltermargs[j]`
unfoldable pub arg_at : TypeSignatures → ℕ → Option TypeSignature
arg_at no_types j = none
arg_at (ty t ts) zero = some t
arg_at (ty t ts) (suc j) = arg_at ts j

-- `pmap.set(name, arg)`. A name that is set to undefined is left out: a lookup does not tell it from
-- one that is absent.
unfoldable pub set_arg : String → Option TypeSignature → TemplateMap → TemplateMap
set_arg name none pmap = pmap
set_arg name (some t) pmap = set name t pmap

-- The loop over the terms, from the position `j` on.
unfoldable pub set_terms : List TemplateTermDecl → ℕ → TypeSignatures → TemplateMap → TemplateMap
set_terms [] j args pmap = pmap
set_terms (term ∷ terms) j args pmap =
    set_terms terms (suc j) args (set_arg term.name (arg_at args j) pmap)

unfoldable pub generate_template_mapping_for_type_decl :
    NominalTypeDecl → TypeSignatures → TemplateNameMapper
generate_template_mapping_for_type_decl d args = create_initial_mapping (
    if is_special_result_entity d.kind
    then set_arg "E" (arg_at args 1) (set_arg "T" (arg_at args 0) [])
    else if is_special_api_result_entity d.kind
    then set_arg "T" (arg_at args 0) []
    else set_terms d.terms 0 args [])

unfoldable pub resolve_template_as_needed_for_name_lookup :
    TypeSignature → TemplateConstraintScope → Option TypeSignature
resolve_template_as_needed_for_name_lookup (nominal decl altns args) tconstrain =
    some (nominal decl altns args)
resolve_template_as_needed_for_name_lookup (template name) tconstrain =
    elim (resolve_constraint tconstrain name) [ none ↦ none | some tcs ↦ tcs.tconstraint ]
resolve_template_as_needed_for_name_lookup _ tconstrain = none

-- One pass of the loop over `provides`: nothing where the source continues.
unfoldable pub provided : Declarations → TemplateNameMapper → TypeSignature → List TypeLookupInfo
provided ds tnmapping (nominal decl altns args) =
    if is_abstract_concept (ds decl).kind && nat_eq (length (ds decl).terms) (length_types args)
    then record {
      tsig = nominal decl altns args;
      mapping = merge tnmapping (generate_template_mapping_for_type_decl (ds decl) args);
    }
      ∷ []
    else []
provided ds tnmapping _ = []

unfoldable pub provided_each :
    Declarations → TemplateNameMapper → List TypeSignature → List TypeLookupInfo
provided_each ds tnmapping [] = []
provided_each ds tnmapping (ptype ∷ provides) =
    provided ds tnmapping ptype ++ provided_each ds tnmapping provides

-- What a resolved name provides; `_` stands for the types that are not nominal.
unfoldable pub provided_by : Declarations → Option TypeSignature → List TypeLookupInfo
provided_by ds (some (nominal decl altns args)) =
    provided_each ds (generate_template_mapping_for_type_decl (ds decl) args) (ds decl).provides
provided_by ds _ = []

unfoldable pub resolve_direct_provides_decls :
    Declarations → TypeSignature → TemplateConstraintScope → List TypeLookupInfo
resolve_direct_provides_decls ds ttype tconstrain =
    provided_by ds (resolve_template_as_needed_for_name_lookup ttype tconstrain)

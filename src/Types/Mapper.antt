-- ===== src/Types/Mapper.antt =====
-- `TemplateNameMapper` of src/frontend/type.ts, and `remapTemplateBindings` of each signature class.
pub mod Merge
pub mod Closed
pub mod BindingSet
use bosque_core.Prelude.{
  String, Bool, true, false, Option, none, some, List, [], ◌∷◌, ◌++◌, map, reverse, ◌==◌,
  if◌then◌else◌,
}
use bosque_core.Types.Syntax.{
  TypeSignature, error, void, auto, template, nominal, elist, lambda, format_string, TypeSignatures,
  no_types, ty, Params, no_params, param, Terms, no_terms, term,
}

-- A `Map<string, TypeSignature>`, in insertion order.
abbrev pub TemplateMap : Type 0
TemplateMap = List (String × TypeSignature)

unfoldable pub get : String → TemplateMap → Option TypeSignature
get k [] = none
get k ((j, t) ∷ m) = if j == k then some t else get k m

-- `Map.set` keeps the place of a key that is there, and appends one that is not.
unfoldable pub set : String → TypeSignature → TemplateMap → TemplateMap
set k t [] = (k, t) ∷ []
set k t ((j, u) ∷ m) = if j == k then (j, t) ∷ m else (j, u) ∷ set k t m

abbrev pub keys : TemplateMap → List String
keys m = map (λ (e : String × TypeSignature). e.0) m

pub record TemplateNameMapper : Type 0 where
  pub mapper : List TemplateMap

abbrev pub create_empty : TemplateNameMapper
create_empty = record { mapper = [] }

abbrev pub create_initial_mapping : TemplateMap → TemplateNameMapper
create_initial_mapping m = record { mapper = m ∷ [] }

abbrev pub merge : TemplateNameMapper → TemplateNameMapper → TemplateNameMapper
merge m1 m2 = record { mapper = m1.mapper ++ m2.mapper }

unfoldable pub try_merge :
    Option TemplateNameMapper → Option TemplateNameMapper → Option TemplateNameMapper
try_merge none none = none
try_merge none (some m2) = some m2
try_merge (some m1) none = some m1
try_merge (some m1) (some m2) = some (record { mapper = m1.mapper ++ m2.mapper })

-- The loop of `resolveTemplateMapping`, over the maps in the order in which it visits them, from
-- the last to the first. A template as an image goes on as the name sought; any other is returned.
unfoldable pub scan : List TemplateMap → String → TypeSignature
scan [] name = template name
scan (m ∷ rest) name = elim (get name m) [
  | none ↦ scan rest name
  | some res ↦ elim res [ template name' ↦ scan rest name' | other ↦ other ]
]

unfoldable pub resolve_template_mapping : TemplateNameMapper → String → TypeSignature
unfolding scan
resolve_template_mapping m name = scan (reverse m.mapper) name

-- `allterms`: the keys of the last map first.
unfoldable pub all_terms : List TemplateMap → List String
all_terms [] = []
all_terms (m ∷ rest) = keys m ++ all_terms rest

unfoldable pub compute_binding_set : TemplateNameMapper → List (String × TypeSignature)
unfolding all_terms
compute_binding_set m =
    map (λ tt. (tt, resolve_template_mapping m tt)) (all_terms (reverse m.mapper))

unfoldable mutual
  pub remap_template_bindings : TemplateNameMapper → TypeSignature → TypeSignature
  remap_template_bindings m (error ns) = error ns
  remap_template_bindings m void = void
  remap_template_bindings m auto = auto
  remap_template_bindings m (template name) = resolve_template_mapping m name
  remap_template_bindings m (nominal decl altns alltermargs) =
      nominal decl altns (remap_types m alltermargs)
  remap_template_bindings m (elist entries) = elist (remap_types m entries)
  remap_template_bindings m (lambda recursive name params result) =
      lambda recursive name (remap_params m params) (remap_template_bindings m result)
  remap_template_bindings m (format_string oftype rtype terms) =
      format_string oftype (remap_template_bindings m rtype) (remap_terms m terms)

  pub remap_types : TemplateNameMapper → TypeSignatures → TypeSignatures
  remap_types m no_types = no_types
  remap_types m (ty t ts) = ty (remap_template_bindings m t) (remap_types m ts)

  pub remap_params : TemplateNameMapper → Params → Params
  remap_params m no_params = no_params
  remap_params m (param name t is_ref is_rest ps) =
      param name (remap_template_bindings m t) is_ref is_rest (remap_params m ps)

  pub remap_terms : TemplateNameMapper → Terms → Terms
  remap_terms m no_terms = no_terms
  remap_terms m (term name t ts) = term name (remap_template_bindings m t) (remap_terms m ts)

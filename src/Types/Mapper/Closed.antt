-- ===== src/Types/Mapper/Closed.antt =====
-- The templates of a signature, and what remapping does to them: instantiation closes signatures.
use bosque_core.Prelude.{
  String, ◌≡◌, refl, List, [], ◌∷◌, ◌++◌, All, All-append_left, All-append_right, ◌∙◌,
}
use mathlib.Core.List.{append-nil, append_assoc}
use bosque_core.Types.Syntax.{
  TypeSignature, template, nominal, elist, lambda, format_string, TypeSignatures, no_types, ty,
  Params, no_params, param, Terms, no_terms, term,
}
use bosque_core.Types.Mapper.{
  TemplateNameMapper, create_empty, resolve_template_mapping, scan, remap_template_bindings,
  remap_types, remap_params, remap_terms,
}

-- The names of the templates in a signature, from left to right.
unfoldable mutual
  pub templates : TypeSignature → List String
  templates (template name) = name ∷ []
  templates (nominal decl altns args) = templates_types args
  templates (elist entries) = templates_types entries
  templates (lambda recursive name params result) = templates_params params ++ templates result
  templates (format_string oftype rtype terms) = templates rtype ++ templates_terms terms
  templates _ = []

  pub templates_types : TypeSignatures → List String
  templates_types no_types = []
  templates_types (ty t ts) = templates t ++ templates_types ts

  pub templates_params : Params → List String
  templates_params no_params = []
  templates_params (param name t is_ref is_rest ps) = templates t ++ templates_params ps

  pub templates_terms : Terms → List String
  templates_terms no_terms = []
  templates_terms (term name t ts) = templates t ++ templates_terms ts

-- The templates of what the templates `names` resolve to.
pub image_templates : TemplateNameMapper → List String → List String
image_templates m [] = []
image_templates m (name ∷ names) =
    templates (resolve_template_mapping m name) ++ image_templates m names

image_templates-append :
    (m : TemplateNameMapper) (xs ys : List String)
    → image_templates m (xs ++ ys) ≡ image_templates m xs ++ image_templates m ys
unfolding image_templates
image_templates-append m [] ys = refl
image_templates-append m (x ∷ xs) ys = rw (image_templates-append m xs ys, append_assoc)

image_templates-singleton :
    (m : TemplateNameMapper) (name : String)
    → templates (resolve_template_mapping m name) ≡ image_templates m (name ∷ [])
unfolding image_templates
image_templates-singleton m name = rw append-nil

-- The templates of a remapped signature are those of the images of its templates, in order.
pub templates-remap :
    (m : TemplateNameMapper) (t : TypeSignature)
    → templates (remap_template_bindings m t) ≡ image_templates m (templates t)
unfolding remap_template_bindings templates
templates-remap m t =
    elim t
      as (λ t. templates (remap_template_bindings m t) ≡ image_templates m (templates t)) (λ ts.
        templates_types (remap_types m ts) ≡ image_templates m (templates_types ts)) (λ ps.
          templates_params (remap_params m ps) ≡ image_templates m (templates_params ps)) (λ ts.
            templates_terms (remap_terms m ts) ≡ image_templates m (templates_terms ts)) [
              | template name ↦ image_templates-singleton m name
              | nominal decl altns (args → ih) ↦ ih
              | elist (entries → ih) ↦ ih
              | lambda recursive name (ps → ihp) (result → ih) ↦
                  rw (image_templates-append, ihp, ih)
              | format_string oftype (rtype → ih) (terms → iht) ↦
                  rw (image_templates-append, ih, iht)
              | ty (u → ih) (us → ihs) ↦ rw (image_templates-append, ih, ihs)
              | param name (u → ih) is_ref is_rest (ps → ihs) ↦ rw (image_templates-append, ih, ihs)
              | term name (u → ih) (us → ihs) ↦ rw (image_templates-append, ih, ihs)
              | _ ↦ unfold image_templates in refl
            ]

abbrev pub IsGround : TypeSignature → Type 0
IsGround t = templates t ≡ []

image_templates-IsGround :
    (m : TemplateNameMapper) (names : List String)
    → All (λ name. IsGround (resolve_template_mapping m name)) names
    → image_templates m names ≡ []
unfolding image_templates
image_templates-IsGround m [] h = refl
image_templates-IsGround m (name ∷ names) h = rw (h.0, image_templates-IsGround m names h.1)

-- A mapper that sends every template of a signature to a ground signature grounds the signature.
pub remap-IsGround :
    (m : TemplateNameMapper) (t : TypeSignature)
    → All (λ name. IsGround (resolve_template_mapping m name)) (templates t)
    → IsGround (remap_template_bindings m t)
remap-IsGround m t h = templates-remap m t ∙ image_templates-IsGround m (templates t) h

abbrev Unchanged : TemplateNameMapper → List String → Type 0
Unchanged m = All (λ name. resolve_template_mapping m name ≡ template name)

-- Remapping leaves a signature as it is when it resolves none of its templates to anything else.
pub remap-unchanged :
    (m : TemplateNameMapper) (t : TypeSignature)
    → All (λ name. resolve_template_mapping m name ≡ template name) (templates t)
    → remap_template_bindings m t ≡ t
unfolding remap_template_bindings templates
remap-unchanged m t =
    elim t
      as (λ t. Unchanged m (templates t) → remap_template_bindings m t ≡ t) (λ ts.
        Unchanged m (templates_types ts) → remap_types m ts ≡ ts) (λ ps.
          Unchanged m (templates_params ps) → remap_params m ps ≡ ps) (λ ts.
            Unchanged m (templates_terms ts) → remap_terms m ts ≡ ts) [
              | template name ↦ λ h. h.0
              | nominal decl altns (args → ih) ↦ λ h. rw (ih h)
              | elist (entries → ih) ↦ λ h. rw (ih h)
              | lambda recursive name (params → ihp) (result → ih) ↦ λ h. rw (
                ihp (All-append_left _ _ _ h),
                ih (All-append_right _ (templates_params params) _ h),
              )
              | format_string oftype (rtype → ih) (terms → iht) ↦ λ h.
                  rw (ih (All-append_left _ _ _ h), iht (All-append_right _ (templates rtype) _ h))
              | ty (u → ih) (us → ihs) ↦
                  λ h. rw (ih (All-append_left _ _ _ h), ihs (All-append_right _ (templates u) _ h))
              | param name (u → ih) is_ref is_rest (ps → ihs) ↦
                  λ h. rw (ih (All-append_left _ _ _ h), ihs (All-append_right _ (templates u) _ h))
              | term name (u → ih) (us → ihs) ↦
                  λ h. rw (ih (All-append_left _ _ _ h), ihs (All-append_right _ (templates u) _ h))
              | _ ↦ λ h. refl
            ]

pub remap-create_empty : (t : TypeSignature) → remap_template_bindings create_empty t ≡ t
remap-create_empty t = remap-unchanged create_empty t (all_unchanged (templates t))
  where
    all_unchanged : (names : List String) → Unchanged create_empty names
    all_unchanged [] = tt
    all_unchanged (name ∷ names) =
        (unfold resolve_template_mapping scan in refl, all_unchanged names)

-- ===== src/Types/Mapper/Merge.antt =====
-- What `merge` means for `resolveTemplateMapping` and `remapTemplateBindings`.
use bosque_core.Prelude.{
  String, ◌≡◌, refl, some, List, [], ◌∷◌, ◌++◌, reverse, inl, inr, Option-cases, Bool-cases, All,
  All-reverse, ◌∙◌, sym, ◌==◌, subst, some-injective,
}
use mathlib.Core.List.{reverse-append}
use bosque_core.Types.Syntax.{
  TypeSignature, template, nominal, elist, lambda, format_string, ty, param, term,
}
use bosque_core.Types.Mapper.{
  TemplateMap, get, TemplateNameMapper, merge, scan, resolve_template_mapping,
  remap_template_bindings, remap_types, remap_params, remap_terms,
}

-- The scan goes on through more maps only while the name sought is a template's.
abbrev pub continue : List TemplateMap → TypeSignature → TypeSignature
continue ms (template name) = scan ms name
continue ms t = t

scan-append :
    (ms ns : List TemplateMap) (name : String) → scan (ms ++ ns) name ≡ continue ns (scan ms name)
unfolding scan
scan-append [] ns name = refl
scan-append (m ∷ ms) ns name = elim (Option-cases (get name m)) [
  | inl e ↦ rw (e, scan) (scan-append ms ns name)
  | inr (template name', e) ↦ rw (e, scan) (scan-append ms ns name')
  | inr (t, e) ↦ rw (e, scan)
]

-- A template that the later mapper sends to a template is looked up in the earlier mapper, and any
-- other image is the result, with no remapping of what stands inside it.
pub resolve_template_mapping-merge :
    (m1 m2 : TemplateNameMapper) (name : String)
    → resolve_template_mapping (merge m1 m2) name
      ≡ continue (reverse m1.mapper) (resolve_template_mapping m2 name)
unfolding resolve_template_mapping
resolve_template_mapping-merge m1 m2 name =
    rw reverse-append (scan-append (reverse m2.mapper) (reverse m1.mapper) name)

-- Every image in the maps is a template, or `m` leaves it as it is.
abbrev pub IsFixedImage : TemplateNameMapper → TypeSignature → Type 0
IsFixedImage m (template name) = Unit
IsFixedImage m t = remap_template_bindings m t ≡ t

abbrev pub ImagesFixed : TemplateNameMapper → List TemplateMap → Type 0
ImagesFixed m ms = All (All (λ (e : String × TypeSignature). IsFixedImage m e.1)) ms

get-IsFixedImage :
    (m : TemplateNameMapper) (name : String) (map : TemplateMap) {t : TypeSignature}
    → All (λ (e : String × TypeSignature). IsFixedImage m e.1) map
    → get name map ≡ some t
    → IsFixedImage m t
unfolding get
get-IsFixedImage m name [] h e = cc
get-IsFixedImage m name ((j, u) ∷ map) h e = elim (Bool-cases (j == name)) [
  | inl hit ↦ subst (IsFixedImage m) (some-injective u _ (rw hit at e)) h.0
  | inr miss ↦ get-IsFixedImage m name map h.1 (rw miss at e)
]

-- Where the scan stops at an image, that image is fixed; otherwise it ends in a template.
continue-scan :
    (m : TemplateNameMapper) (ms : List TemplateMap) (name : String)
    → ImagesFixed m ms
    → continue (reverse m.mapper) (scan ms name) ≡ remap_template_bindings m (scan ms name)
unfolding scan remap_template_bindings resolve_template_mapping
continue-scan m [] name h = refl
continue-scan m (map ∷ ms) name h = elim (Option-cases (get name map)) [
  | inl e ↦ rw (e, scan) (continue-scan m ms name h.1)
  | inr (template name', e) ↦ rw (e, scan) (continue-scan m ms name' h.1)
  | inr (t, e) ↦ rw (e, scan) (sym (get-IsFixedImage m name map h.0 e))
]

resolve-merge :
    (m1 m2 : TemplateNameMapper) (name : String)
    → ImagesFixed m1 m2.mapper
    → resolve_template_mapping (merge m1 m2) name
      ≡ remap_template_bindings m1 (resolve_template_mapping m2 name)
resolve-merge m1 m2 name h =
    resolve_template_mapping-merge m1 m2 name
    ∙ (unfold resolve_template_mapping in
        continue-scan m1 (reverse m2.mapper) name (All-reverse _ m2.mapper h))

-- Remapping by merged mappers is remapping by the later and then by the earlier one, provided that
-- the earlier one leaves each image of the later one alone that is not a bare template.
pub remap-merge :
    (m1 m2 : TemplateNameMapper) (t : TypeSignature)
    → ImagesFixed m1 m2.mapper
    → remap_template_bindings (merge m1 m2) t
      ≡ remap_template_bindings m1 (remap_template_bindings m2 t)
unfolding remap_template_bindings
remap-merge m1 m2 t h =
    elim t
      as (λ t.
        remap_template_bindings (merge m1 m2) t
        ≡ remap_template_bindings m1 (remap_template_bindings m2 t)) (λ ts.
          remap_types (merge m1 m2) ts ≡ remap_types m1 (remap_types m2 ts)) (λ ps.
            remap_params (merge m1 m2) ps ≡ remap_params m1 (remap_params m2 ps)) (λ ts.
              remap_terms (merge m1 m2) ts ≡ remap_terms m1 (remap_terms m2 ts)) [
                | template name ↦ resolve-merge m1 m2 name h
                | nominal decl altns (args → ih) ↦ rw ih
                | elist (entries → ih) ↦ rw ih
                | lambda recursive name (ps → ihp) (result → ih) ↦ rw (ihp, ih)
                | format_string oftype (rtype → ih) (terms → iht) ↦ rw (ih, iht)
                | ty (u → ih) (us → ihs) ↦ rw (ih, ihs)
                | param name (u → ih) is_ref is_rest (ps → ihs) ↦ rw (ih, ihs)
                | term name (u → ih) (us → ihs) ↦ rw (ih, ihs)
                | _ ↦ refl
              ]

-- ===== src/Types/Mapper/BindingSet.antt =====
-- `computeBindingSet` flattens the stack of maps of a mapper to one list of bindings.
use bosque_core.Prelude.{
  String, Bool, ◌≡◌, refl, none, some, List, [], ◌∷◌, ◌++◌, map, reverse, any, ◌||◌, arith, sym,
  or-eq-false, inl, inr, Bool-cases, ◌==◌, eq_iff, false, if◌then◌else◌, ◌∙◌,
}
use bosque_core.Types.Syntax.{TypeSignature, template}
use bosque_core.Types.Mapper.{
  TemplateMap, get, keys, TemplateNameMapper, create_initial_mapping, scan,
  resolve_template_mapping, all_terms, compute_binding_set,
}

abbrev pub is_bound : String → List String → Bool
is_bound name names = any (λ n. n == name) names

-- A list of bindings made from a function of the name answers by that function.
get-map :
    (f : String → TypeSignature) (names : List String) (name : String)
    → get name (map (λ n. (n, f n)) names) ≡ (if is_bound name names then some (f name) else none)
unfolding get
get-map f [] name = refl
get-map f (n ∷ names) name = ground (arith, get-map f names name, eq_iff n name)

is_bound-append :
    (name : String) (xs ys : List String)
    → is_bound name (xs ++ ys) ≡ (is_bound name xs || is_bound name ys)
is_bound-append name [] ys = refl
is_bound-append name (x ∷ xs) ys = ground (arith, is_bound-append name xs ys)

get-unbound : (name : String) (m : TemplateMap) → is_bound name (keys m) ≡ false → get name m ≡ none
unfolding get
get-unbound name [] h = refl
get-unbound name ((j, t) ∷ m) h = ground (arith, get-unbound name m)

-- A name that no map has is its own image.
scan-unbound :
    (ms : List TemplateMap) (name : String)
    → is_bound name (all_terms ms) ≡ false
    → scan ms name ≡ template name
unfolding scan all_terms
scan-unbound [] name h = refl
scan-unbound (m ∷ ms) name h =
    let split = or-eq-false _ _ (sym (is_bound-append name (keys m) (all_terms ms)) ∙ h) in
    rw (get-unbound name m split.0, scan) (scan-unbound ms name split.1)

scan-bound :
    (m : TemplateMap) (name : String) (t : TypeSignature)
    → get name m ≡ some t
    → scan (m ∷ []) name ≡ t
unfolding scan
scan-bound m name (template name') e = rw (e, scan)
scan-bound m name t e = rw (e, scan)

-- The binding set, taken as a mapper of one map, resolves every name as the mapper does.
pub compute_binding_set-resolves :
    (m : TemplateNameMapper) (name : String)
    → resolve_template_mapping (create_initial_mapping (compute_binding_set m)) name
      ≡ resolve_template_mapping m name
unfolding compute_binding_set
compute_binding_set-resolves m name =
    let found = get-map (resolve_template_mapping m) (all_terms (reverse m.mapper)) name in
    elim (Bool-cases (is_bound name (all_terms (reverse m.mapper)))) [
      | inl hit ↦ unfold resolve_template_mapping in scan-bound _ name _ (rw hit at found)
      | inr miss ↦
          unfold resolve_template_mapping scan in
          rw (found, scan, miss) (sym (scan-unbound (reverse m.mapper) name miss))
    ]

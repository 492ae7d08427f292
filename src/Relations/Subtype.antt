-- ===== src/Relations/Subtype.antt =====
-- `isSubtypeOf` of src/frontend/checker_relations.ts, with its memo table. The recursion follows the
-- constraints and the provided concepts, which may be circular, so it runs on fuel.
pub mod Remembers
pub mod Spec
pub mod Decides
pub mod Correct
use Prim.Native.String.{◌++◌}
use bosque_core.Prelude.{
  ℕ, zero, suc, String, Bool, true, false, ◌&&◌, ◌||◌, Option, none, some, List, [], ◌∷◌, map, ◌==◌,
  if◌then◌else◌,
}
use bosque_core.Types.Syntax.{TypeSignature, template, nominal}
use bosque_core.Types.Keys.{tkeystr}
use bosque_core.Types.Mapper.{remap_template_bindings}
use bosque_core.Types.Constraints.{TemplateConstraintScope, resolve_constraint}
use bosque_core.Assembly.{DeclKind, primitive_entity, option_decl, NominalTypeDecl, Declarations}
use bosque_core.Relations.Outcome.{
  Memo, lookup, RelState, Outcome, done, asserted, out_of_fuel, Rel, pure, fail, starve, bind,
  ◌>>=◌,
}
use bosque_core.Relations.Same.{is_error_or_auto, are_same_types}
use bosque_core.Relations.Provides.{TypeLookupInfo, resolve_direct_provides_decls}

unfoldable pub subtype_key : Declarations → TypeSignature → TypeSignature → String
subtype_key ds t1 t2 = "(" ++ tkeystr ds t1 ++ " <: " ++ tkeystr ds t2 ++ ")"

-- `memoizedTypeSubtypeRelation.set(kstr, res); return res;`
unfoldable pub memoize_subtype : String → Bool → Rel Bool
memoize_subtype kstr res s = done res (record s { subtype = (kstr, res) ∷ s.subtype })

unfoldable pub through_subtype_memo : String → Rel Bool → Rel Bool
through_subtype_memo kstr compute s = elim (lookup kstr s.subtype) [
  | some memoval ↦ done memoval s
  | none ↦ bind (compute s) (memoize_subtype kstr)
]

unfoldable pub is_primitive_entity : DeclKind → Bool
is_primitive_entity primitive_entity = true
is_primitive_entity _ = false

unfoldable pub is_option_decl : DeclKind → Bool
is_option_decl option_decl = true
is_option_decl _ = false

-- `t1.decl instanceof PrimitiveEntityTypeDecl && t1.decl.name === "None"`
unfoldable pub is_none_decl : NominalTypeDecl → Bool
is_none_decl d = is_primitive_entity d.kind && d.name == "None"

-- `t2 instanceof NominalTypeSignature && t2.decl instanceof OptionTypeDecl`
unfoldable pub is_option_type : Declarations → TypeSignature → Bool
is_option_type ds (nominal decl altns args) = is_option_decl (ds decl).kind
is_option_type ds _ = false

-- The concepts that a type provides, as types.
unfoldable pub provided_types :
    Declarations → TypeSignature → TemplateConstraintScope → List TypeSignature
provided_types ds t1 tconstrain =
    map (λ (pp : TypeLookupInfo). remap_template_bindings pp.mapping pp.tsig)
      (resolve_direct_provides_decls ds t1 tconstrain)

-- `some` stops at the first answer that is true.
unfoldable pub or_rest : Bool → Rel Bool → Rel Bool
or_rest true rest s = done true s
or_rest false rest s = rest s

-- `isSub` is `isSubtypeOf` in the same constraint scope.
unfoldable pub some_is_subtype_of :
    (TypeSignature → TypeSignature → Rel Bool) → List TypeSignature → TypeSignature → Rel Bool
some_is_subtype_of is_sub [] t2 = pure false
some_is_subtype_of is_sub (t ∷ ts) t2 = do
  found ← is_sub t t2
  or_rest found (some_is_subtype_of is_sub ts t2)

-- `cons !== undefined && cons.tconstraint !== undefined && this.isSubtypeOf(cons.tconstraint, …)`
unfoldable pub template_is_subtype_of :
    (TypeSignature → TypeSignature → Rel Bool)
    → TemplateConstraintScope
    → String
    → TypeSignature
    → Rel Bool
template_is_subtype_of is_sub tconstrain name t2 = elim (resolve_constraint tconstrain name) [
  | none ↦ pure false
  | some cons ↦ elim cons.tconstraint [ none ↦ pure false | some t ↦ is_sub t t2 ]
]

unfoldable pub nominal_is_subtype_of :
    (TypeSignature → TypeSignature → Rel Bool)
    → Declarations
    → TemplateConstraintScope
    → NominalTypeDecl
    → TypeSignature
    → TypeSignature
    → Rel Bool
nominal_is_subtype_of is_sub ds tconstrain d t1 t2 =
    if is_none_decl d
    then pure (is_option_type ds t2)
    else some_is_subtype_of is_sub (provided_types ds t1 tconstrain) t2

-- The branches on `t1` where the types are not the same.
unfoldable pub widened :
    (TypeSignature → TypeSignature → Rel Bool)
    → Declarations
    → TemplateConstraintScope
    → TypeSignature
    → TypeSignature
    → Rel Bool
widened is_sub ds tconstrain (template name) t2 = template_is_subtype_of is_sub tconstrain name t2
widened is_sub ds tconstrain (nominal decl altns args) t2 =
    nominal_is_subtype_of is_sub ds tconstrain (ds decl) (nominal decl altns args) t2
widened is_sub ds tconstrain _ t2 = pure false

unfoldable pub is_subtype_of :
    ℕ → Declarations → TemplateConstraintScope → TypeSignature → TypeSignature → Rel Bool
is_subtype_of zero ds tconstrain t1 t2 = starve
is_subtype_of (suc fuel) ds tconstrain t1 t2 =
    if is_error_or_auto t1 || is_error_or_auto t2
    then fail
    else through_subtype_memo (subtype_key ds t1 t2) (do
      same ← are_same_types ds t1 t2
      or_rest same (widened (is_subtype_of fuel ds tconstrain) ds tconstrain t1 t2))

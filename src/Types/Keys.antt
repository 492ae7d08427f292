-- ===== src/Types/Keys.antt =====
-- `tkeystr`, the key that each constructor of src/frontend/type.ts computes, and `emit`.
use Prim.Native.String.{◌++◌}
use bosque_core.Prelude.{String, Option, none, some, List, [], ◌∷◌, ◌==◌, if◌then◌else◌}
use bosque_core.Types.Syntax.{
  FullyQualifiedNamespace, RecursiveAnnotation, rec_yes, rec_no, rec_cond, LambdaName, fn, pred,
  FormatOf, of_string, of_cstring, TypeSignature, error, void, auto, template, nominal, elist,
  lambda, format_string, TypeSignatures, no_types, ty, Params, no_params, param, Terms, no_terms,
  term,
}
use bosque_core.Types.Namespace.{join, scope}
use bosque_core.Assembly.{
  Declarations, NominalTypeDecl, is_special_result_entity, is_special_api_result_entity,
}

-- `alltermargs.length !== 0 ? ("<" + … .join(", ") + ">") : ""`
unfoldable pub term_scope : List String → String
term_scope [] = ""
term_scope (k ∷ ks) = "<" ++ join ", " (k ∷ ks) ++ ">"

unfoldable pub qualify : String → String
qualify nscope = if nscope == "" then nscope else nscope ++ "::"

-- A declaration's name in its scope, with the type arguments: a nested result type stands behind the
-- arguments of the type that it is nested in.
unfoldable pub nominal_name : NominalTypeDecl → String → String → String
unfolding is_special_result_entity is_special_api_result_entity qualify
nominal_name d nscope tscope =
    if is_special_result_entity d.kind
    then "Result" ++ tscope ++ "::" ++ d.name
    else if is_special_api_result_entity d.kind
    then "APIResult" ++ tscope ++ "::" ++ d.name
    else qualify nscope ++ d.name ++ tscope

-- The scope that `emit` prints: an alternative namespace stands in for any but one of Core.
unfoldable pub emit_scope : List String → Option FullyQualifiedNamespace → String
unfolding scope join
emit_scope ns none = scope ns
emit_scope [] (some altns) = join "::" altns.ns
emit_scope (n ∷ ns) (some altns) = if n == "Core" then join "::" ns else join "::" altns.ns

unfoldable pub emit_lambda_name : LambdaName → String
emit_lambda_name fn = "fn"
emit_lambda_name pred = "pred"

unfoldable pub emit_recursive : RecursiveAnnotation → String
emit_recursive rec_yes = "recursive "
emit_recursive rec_cond = "recursive? "
emit_recursive rec_no = ""

unfoldable pub emit_format_of : FormatOf → String
emit_format_of of_string = "String"
emit_format_of of_cstring = "CString"

-- `buildkstr`, from the emitted terms and the emitted result
unfoldable pub build_kstr : FormatOf → List String → String → String
unfolding emit_format_of join
build_kstr oftype [] rtype = "F" ++ emit_format_of oftype ++ "<" ++ rtype ++ ">"
build_kstr oftype (a ∷ as') rtype =
    "F" ++ emit_format_of oftype ++ "<" ++ join ", " (a ∷ as') ++ ", " ++ rtype ++ ">"

unfoldable mutual
  pub emit : Declarations → TypeSignature → String
  emit ds (error ns) = "^error^"
  emit ds void = "Void"
  emit ds auto = "^auto^"
  emit ds (template name) = name
  emit ds (nominal decl altns args) =
      nominal_name (ds decl) (emit_scope (ds decl).ns.ns altns) (term_scope (emit_types ds args))
  emit ds (elist entries) = "(|" ++ join ", " (emit_types ds entries) ++ "|)"
  emit ds (lambda recursive name params result) =
      emit_recursive recursive
      ++ emit_lambda_name name
      ++ "("
      ++ join ", " (emit_params ds params)
      ++ ") -> "
      ++ emit ds result
  emit ds (format_string oftype rtype terms) =
      build_kstr oftype (emit_terms ds terms) (emit ds rtype)

  pub emit_types : Declarations → TypeSignatures → List String
  emit_types ds no_types = []
  emit_types ds (ty t ts) = emit ds t ∷ emit_types ds ts

  -- `LambdaParameterSignature.emit`: the name is not printed
  pub emit_params : Declarations → Params → List String
  emit_params ds no_params = []
  emit_params ds (param name t is_ref is_rest ps) =
      ((if is_ref then "ref " else "") ++ (if is_rest then "..." else "") ++ emit ds t)
      ∷ emit_params ds ps

  pub emit_terms : Declarations → Terms → List String
  emit_terms ds no_terms = []
  emit_terms ds (term name t ts) = (name ++ ": " ++ emit ds t) ∷ emit_terms ds ts

-- The keys of lambda parameters and of the parts of a format string are their emitted forms.
unfoldable mutual
  pub tkeystr : Declarations → TypeSignature → String
  tkeystr ds (error ns) = "^error^"
  tkeystr ds void = "Void"
  tkeystr ds auto = "^auto^"
  tkeystr ds (template name) = name
  tkeystr ds (nominal decl altns args) =
      nominal_name (ds decl) (scope (ds decl).ns.ns) (term_scope (tkeystrs ds args))
  tkeystr ds (elist entries) = "(|" ++ join ", " (tkeystrs ds entries) ++ "|)"
  tkeystr ds (lambda recursive name params result) =
      (elim recursive [ rec_yes ↦ "rec " | _ ↦ "" ])
      ++ emit_lambda_name name
      ++ "("
      ++ join ", " (emit_params ds params)
      ++ "): "
      ++ tkeystr ds result
  tkeystr ds (format_string oftype rtype terms) =
      build_kstr oftype (emit_terms ds terms) (emit ds rtype)

  pub tkeystrs : Declarations → TypeSignatures → List String
  tkeystrs ds no_types = []
  tkeystrs ds (ty t ts) = tkeystr ds t ∷ tkeystrs ds ts

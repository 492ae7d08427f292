-- ===== src/Assembly.antt =====
-- The nominal type declarations of src/frontend/assembly.ts that the type system reads.
-- The source compares declarations by reference: here an assembly holds each under a number.
use bosque_core.Prelude.{ℕ, String, Bool, true, false, Option, List, ◌==◌, any}
use bosque_core.Types.Syntax.{FullyQualifiedNamespace, TypeSignature}

pub data TemplateTermDeclExtraTag : Type 0 where
  key_type numeric : TemplateTermDeclExtraTag

unfoldable pub tag_eq : TemplateTermDeclExtraTag → TemplateTermDeclExtraTag → Bool
tag_eq key_type key_type = true
tag_eq numeric numeric = true
tag_eq _ _ = false

pub record TemplateTermDecl : Type 0 where
  pub name : String
  pub tconstraint : Option TypeSignature
  pub extra_tags : List TemplateTermDeclExtraTag

-- The concrete subclasses of `AbstractNominalTypeDecl`, with the fields of their own that the type
-- system reads: a typedecl's value type, the members of a datatype and the parent of a member.
pub data DeclKind : Type 0 where
  enum_decl primitive_entity ok_decl fail_decl : DeclKind
  api_rejected api_failed api_error api_success : DeclKind
  some_decl map_entry list_decl crope crope_iterator : DeclKind
  unicode_rope unicode_rope_iterator stack queue set_decl map_decl event_list : DeclKind
  entity option_decl result_decl api_result concept task : DeclKind
  typedecl : TypeSignature → DeclKind
  datatype_member : ℕ → DeclKind
  datatype : List ℕ → DeclKind

pub record NominalTypeDecl : Type 0 where
  pub kind : DeclKind
  pub attributes : List String
  pub ns : FullyQualifiedNamespace
  pub name : String
  pub terms : List TemplateTermDecl
  pub provides : List TypeSignature

-- What stands behind a reference to a declaration.
abbrev pub Declarations : Type 0
Declarations = ℕ → NominalTypeDecl

-- `this instanceof OkTypeDecl || this instanceof FailTypeDecl`
unfoldable pub is_special_result_entity : DeclKind → Bool
is_special_result_entity ok_decl = true
is_special_result_entity fail_decl = true
is_special_result_entity _ = false

unfoldable pub is_special_api_result_entity : DeclKind → Bool
is_special_api_result_entity api_rejected = true
is_special_api_result_entity api_failed = true
is_special_api_result_entity api_error = true
is_special_api_result_entity api_success = true
is_special_api_result_entity _ = false

-- `instanceof AbstractConceptTypeDecl`
unfoldable pub is_abstract_concept : DeclKind → Bool
is_abstract_concept option_decl = true
is_abstract_concept result_decl = true
is_abstract_concept api_result = true
is_abstract_concept concept = true
is_abstract_concept (datatype members) = true
is_abstract_concept _ = false

-- `instanceof AbstractEntityTypeDecl`: all that are neither concepts nor tasks
unfoldable pub is_abstract_entity : DeclKind → Bool
is_abstract_entity option_decl = false
is_abstract_entity result_decl = false
is_abstract_entity api_result = false
is_abstract_entity concept = false
is_abstract_entity task = false
is_abstract_entity (datatype members) = false
is_abstract_entity _ = true

unfoldable pub has_attribute : NominalTypeDecl → String → Bool
has_attribute d aname = any (λ attr. attr == aname) d.attributes

unfoldable pub is_key_type_restricted : NominalTypeDecl → Bool
unfolding has_attribute
is_key_type_restricted d = has_attribute d "__keycomparable"

unfoldable pub is_numeric_restricted : NominalTypeDecl → Bool
unfolding has_attribute
is_numeric_restricted d = has_attribute d "__numeric"

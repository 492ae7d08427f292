-- ===== src/Types/Syntax.antt =====
-- The class hierarchy `TypeSignature` of src/frontend/type.ts, a constructor for each class.
-- A signature's source position is left out: no operation on signatures reads it. A nominal
-- signature names its declaration by the number under which the assembly holds it, since the source
-- compares declarations by reference.
use bosque_core.Prelude.{ℕ, String, Bool, Option, List}

pub record FullyQualifiedNamespace : Type 0 where
  pub ns : List String

-- "yes" | "no" | "cond"
pub data RecursiveAnnotation : Type 0 where
  rec_yes rec_no rec_cond : RecursiveAnnotation

-- "fn" | "pred"
pub data LambdaName : Type 0 where
  fn pred : LambdaName

-- "String" | "CString"
pub data FormatOf : Type 0 where
  of_string of_cstring : FormatOf

-- `TypeSignatures`, `Params` and `Terms` are the arrays of type arguments and list entries, of
-- `LambdaParameterSignature` (name, type, isRefParam, isRestParam), and of format terms.
mutual
  pub data TypeSignature : Type 0 where
    error : Option FullyQualifiedNamespace → TypeSignature
    void : TypeSignature
    auto : TypeSignature
    template : String → TypeSignature
    nominal : ℕ → Option FullyQualifiedNamespace → TypeSignatures → TypeSignature
    elist : TypeSignatures → TypeSignature
    lambda : RecursiveAnnotation → LambdaName → Params → TypeSignature → TypeSignature
    format_string : FormatOf → TypeSignature → Terms → TypeSignature

  pub data TypeSignatures : Type 0 where
    no_types : TypeSignatures
    ty : TypeSignature → TypeSignatures → TypeSignatures

  pub data Params : Type 0 where
    no_params : Params
    param : Option String → TypeSignature → Bool → Bool → Params → Params

  pub data Terms : Type 0 where
    no_terms : Terms
    term : String → TypeSignature → Terms → Terms

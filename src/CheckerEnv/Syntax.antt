-- ===== src/CheckerEnv/Syntax.antt =====
-- `VarInfo`, `TypeInferContext` and `TypeEnvironment` of src/frontend/checker_environment.ts.
use bosque_core.Prelude.{String, Bool, true, Option, none, some, List}
use bosque_core.Types.Syntax.{TypeSignature}

-- `{ ttype: TypeSignature, specialaccess: string | undefined }`
pub record RefinedType : Type 0 where
  pub ttype : TypeSignature
  pub specialaccess : Option String

pub record VarInfo : Type 0 where
  pub srcname : String
  pub decltype : TypeSignature
  pub itype : List RefinedType
  pub is_const : Bool
  pub must_defined : Bool
  pub is_ref : Bool

abbrev pub update_type : VarInfo → List RefinedType → VarInfo
update_type v itype = record v { itype = itype }

abbrev pub reset_type : VarInfo → List RefinedType → VarInfo
reset_type v itype = record v { itype = itype }

abbrev pub update_define : VarInfo → VarInfo
update_define v = record v { must_defined = true }

pub data TypeInferContext : Type 0 where
  simple : TypeSignature → TypeInferContext
  elist_style : List (Option TypeSignature) → TypeInferContext

unfoldable pub as_simple_type : Option TypeInferContext → Option TypeSignature
as_simple_type none = none
as_simple_type (some (simple ttype)) = some ttype
as_simple_type (some (elist_style elist)) = none

unfoldable pub as_elist_options : Option TypeInferContext → Option (List (Option TypeSignature))
as_elist_options none = none
as_elist_options (some (simple ttype)) = none
as_elist_options (some (elist_style elist)) = some elist

abbrev pub Frame : Type 0
Frame = List VarInfo

-- The fields of `TypeEnvironment` but `parent`. The outermost scope is the first of `locals`.
pub record EnvFields : Type 0 where
  pub normalflow : Bool
  pub returnflow : Bool
  pub args : Frame
  pub decl_return_type : TypeSignature
  pub infer_return : TypeInferContext
  pub locals : List Frame

-- `parent` is undefined in a `top` environment.
pub data TypeEnvironment : Type 0 where
  top : EnvFields → TypeEnvironment
  inside : TypeEnvironment → EnvFields → TypeEnvironment

abbrev pub fields : TypeEnvironment → EnvFields
fields (top f) = f
fields (inside parent f) = f

-- `new TypeEnvironment(…, this.parent, …)`
abbrev pub rebuild : TypeEnvironment → EnvFields → TypeEnvironment
rebuild (top f) g = top g
rebuild (inside parent f) g = inside parent g

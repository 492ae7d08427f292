-- ===== src/ParserEnv.antt =====
-- src/frontend/parser_env.ts: the scopes that the parser keeps while it reads a body. An operation
-- that changes the environment returns the new one, and `none` is a failed assertion, or the
-- exception that JavaScript raises on a property of undefined.
pub mod Declare
pub mod Captures
use bosque_core.Prelude.{
  String, Bool, true, false, not, ◌&&◌, ◌||◌, Option, none, some, List, [], ◌∷◌, ◌++◌, ◌==◌, any,
  find?, reverse, drop_last, if◌then◌else◌, starts_with,
}
use bosque_core.Types.Syntax.{TypeSignature}

pub record LocalVariableDefinitionInfo : Type 0 where
  pub isconst : Bool
  pub name : String

-- The field `locals` of the class.
abbrev pub BlockScopeInfo : Type 0
BlockScopeInfo = List LocalVariableDefinitionInfo

unfoldable pub lookup_variable_info : BlockScopeInfo → String → Option LocalVariableDefinitionInfo
lookup_variable_info locals name =
    find? (λ (nn : LocalVariableDefinitionInfo). nn.name == name) locals

-- The fields of `ParserScopeInfo`. The innermost block is the last of `blockscope`.
pub record ScopeFields : Type 0 where
  pub resulting_type : Option TypeSignature
  pub args : List LocalVariableDefinitionInfo
  pub boundtemplates : List String
  pub blockscope : List BlockScopeInfo

-- `StandardScopeInfo` and `LambdaScopeInfo`, the latter with its enclosing scope. The set
-- `capturedVars` of a lambda is never written, and is left out.
pub data ParserScopeInfo : Type 0 where
  standard_scope : ScopeFields → ParserScopeInfo
  lambda_scope : ParserScopeInfo → ScopeFields → ParserScopeInfo

abbrev pub scope_fields : ParserScopeInfo → ScopeFields
scope_fields (standard_scope f) = f
scope_fields (lambda_scope enclosing f) = f

abbrev pub with_blockscope : ParserScopeInfo → List BlockScopeInfo → ParserScopeInfo
with_blockscope (standard_scope f) bs = standard_scope (record f { blockscope = bs })
with_blockscope (lambda_scope enclosing f) bs =
    lambda_scope enclosing (record f { blockscope = bs })

abbrev pub new_scope_fields :
    List LocalVariableDefinitionInfo → List String → Option TypeSignature → ScopeFields
new_scope_fields args boundtemplates rtype = record {
  resulting_type = rtype;
  args = args;
  boundtemplates = boundtemplates;
  blockscope = [] ∷ [];
}

-- The names that no declaration or assignment may use.
unfoldable pub is_reserved : String → Bool
is_reserved name = name == "_" || name == "this" || name == "self" || starts_with name "$"

-- `v !== undefined`
abbrev pub is_defined {ℓ} : {A : Type ℓ} → Option A → Bool
is_defined none = false
is_defined (some v) = true

unfoldable pub check_can_declare_local_var : ScopeFields → String → Bool
check_can_declare_local_var f name =
    if is_reserved name
    then false
    else (not (any (λ bs. is_defined (lookup_variable_info bs name)) f.blockscope)
        && not (any (λ (arg : LocalVariableDefinitionInfo). arg.name == name) f.args))

-- The loop over `blockscope`, in the order in which it visits the blocks, from the last to the first.
unfoldable pub search_blocks : String → List BlockScopeInfo → Option LocalVariableDefinitionInfo
search_blocks name [] = none
search_blocks name (bs ∷ rest) = elim (lookup_variable_info bs name) [
  | none ↦ search_blocks name rest
  | some vinfo ↦ some vinfo
]

unfoldable pub check_can_assign_variable : ScopeFields → String → Bool
check_can_assign_variable f name =
    if is_reserved name then false else elim (search_blocks name (reverse f.blockscope)) [
      | some vinfo ↦ not vinfo.isconst
      | none ↦ elim (find? (λ (arg : LocalVariableDefinitionInfo). arg.name == name) f.args) [
        | none ↦ false
        | some argi ↦ not argi.isconst
      ]
    ]

unfoldable pub is_defined_variable_helper : ScopeFields → String → Bool
is_defined_variable_helper f name =
    if starts_with name "$" then true else elim (search_blocks name (reverse f.blockscope)) [
      | some vv ↦ true
      | none ↦ any (λ (arg : LocalVariableDefinitionInfo). arg.name == name) f.args
    ]

unfoldable pub is_defined_variable : ParserScopeInfo → String → Bool
is_defined_variable (standard_scope f) srcname = is_defined_variable_helper f srcname
is_defined_variable (lambda_scope enclosing f) srcname =
    if is_defined_variable_helper f srcname then true else is_defined_variable enclosing srcname

-- The fields of the environment that its operations read or write.
pub record ParserEnvironment : Type 0 where
  pub current_file : String
  pub scope : Option ParserScopeInfo

unfoldable pub with_scope {ℓ} :
    {A : Type ℓ} → ParserEnvironment → (ParserScopeInfo → Option A) → Option A
with_scope env f = elim env.scope [ none ↦ none | some scope ↦ f scope ]

abbrev pub set_scope : ParserEnvironment → Option ParserScopeInfo → ParserEnvironment
set_scope env scope = record env { scope = scope }

-- `blockscope.push(new BlockScopeInfo())`
abbrev pub enter_block : ParserScopeInfo → ParserScopeInfo
enter_block s = with_blockscope s ((scope_fields s).blockscope ++ [] ∷ [])

unfoldable pub push_block_scope : ParserEnvironment → Option ParserEnvironment
push_block_scope env = with_scope env (λ s. some (set_scope env (some (enter_block s))))

-- `blockscope.pop()`
abbrev pub leave_block : ParserScopeInfo → ParserScopeInfo
leave_block s = with_blockscope s (drop_last (scope_fields s).blockscope)

unfoldable pub pop_block_scope : ParserEnvironment → Option ParserEnvironment
pop_block_scope env = with_scope env (λ s. some (set_scope env (some (leave_block s))))

unfoldable pub identifier_resolves_as_variable : ParserEnvironment → String → Option Bool
identifier_resolves_as_variable env srcname =
    with_scope env (λ s. some (is_defined_variable s srcname))

-- `blockscope[blockscope.length - 1].locals.push(v)`
unfoldable pub push_local :
    List BlockScopeInfo → LocalVariableDefinitionInfo → Option (List BlockScopeInfo)
push_local [] v = none
push_local (bs ∷ []) v = some ((bs ++ v ∷ []) ∷ [])
push_local (bs ∷ next ∷ rest) v = elim (push_local (next ∷ rest) v) [
  | none ↦ none
  | some pushed ↦ some (bs ∷ pushed)
]

-- The part of `addVariable` for a name that may be declared.
unfoldable pub declare :
    ParserEnvironment → ParserScopeInfo → String → Bool → Option (ParserEnvironment × Bool)
declare env s name isconst =
    elim (push_local (scope_fields s).blockscope (record { isconst = isconst; name = name })) [
      | none ↦ none
      | some pushed ↦ some (set_scope env (some (with_blockscope s pushed)), true)
    ]

unfoldable pub add_variable :
    ParserEnvironment → String → Bool → Bool → Option (ParserEnvironment × Bool)
add_variable env name isconst ignoreok = with_scope env (λ s.
    if name == "_"
    then some (env, ignoreok)
    else if check_can_declare_local_var (scope_fields s) name
    then declare env s name isconst
    else some (env, false))

unfoldable pub assign_variable : ParserEnvironment → String → Option Bool
assign_variable env srcname = with_scope env (λ s.
    if srcname == "_" then some true else some (check_can_assign_variable (scope_fields s) srcname))

unfoldable pub is_template_name_defined : ParserEnvironment → String → Option Bool
is_template_name_defined env name =
    with_scope env (λ s. some (any (λ t. t == name) (scope_fields s).boundtemplates))

unfoldable pub push_lambda_scope :
    ParserEnvironment
    → List LocalVariableDefinitionInfo
    → Option TypeSignature
    → Option ParserEnvironment
push_lambda_scope env args rtype = with_scope env (λ s. some (
    set_scope env
      (some (lambda_scope s (new_scope_fields args (scope_fields s).boundtemplates rtype)))))

unfoldable pub pop_lambda_scope : ParserEnvironment → Option ParserEnvironment
pop_lambda_scope env = with_scope env (elim [
  | standard_scope f ↦ none
  | lambda_scope enclosing f ↦ some (set_scope env (some enclosing))
])

unfoldable pub push_standard_function_scope :
    ParserEnvironment
    → List LocalVariableDefinitionInfo
    → List String
    → Option TypeSignature
    → Option ParserEnvironment
push_standard_function_scope env args terms rtype = elim env.scope [
  | some s ↦ none
  | none ↦ some (set_scope env (some (standard_scope (new_scope_fields args terms rtype))))
]

unfoldable pub pop_standard_function_scope : ParserEnvironment → Option ParserEnvironment
pop_standard_function_scope env =
    with_scope env
      (elim [ standard_scope f ↦ some (set_scope env none) | lambda_scope enclosing f ↦ none ])

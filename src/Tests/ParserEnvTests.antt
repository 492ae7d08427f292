-- ===== src/Tests/ParserEnvTests.antt =====
-- Scopes at which the theorems on src/frontend/parser_env.ts are applied.
use bosque_core.Prelude.{◌==◌, true, false, ◌≡◌, refl, none, some, [], ◌∷◌}
use bosque_core.ParserEnv.{
  LocalVariableDefinitionInfo, lookup_variable_info, ParserScopeInfo, standard_scope, scope_fields,
  new_scope_fields, is_reserved, check_can_declare_local_var, check_can_assign_variable,
  is_defined_variable, ParserEnvironment, set_scope, push_block_scope, pop_block_scope,
  add_variable, push_lambda_scope, pop_lambda_scope, assign_variable,
  identifier_resolves_as_variable,
}
use bosque_core.ParserEnv.Declare.{AllWellScoped, IsWellScoped, declared_in, add_variable_lem}
use bosque_core.ParserEnv.Captures.{
  declare_each, pop_block_scope-declare-push, push_lambda_scope_lem,
}

abbrev arg_x : LocalVariableDefinitionInfo
arg_x = record { isconst = true; name = "x" }

-- The body of a function with the argument `x`.
abbrev body_scope : ParserScopeInfo
body_scope = standard_scope (new_scope_fields (arg_x ∷ []) [] none)

abbrev body : ParserEnvironment
body = record { current_file = "main.bsq"; scope = some body_scope }

y_is_free : check_can_declare_local_var (scope_fields body_scope) "y" ≡ true
unfolding check_can_declare_local_var is_reserved lookup_variable_info
y_is_free = refl

body_scope-IsWellScoped : IsWellScoped (scope_fields body_scope)
body_scope-IsWellScoped = record { distinct = tt; fresh = tt }

add_variable_lem_example :
    (s : ParserScopeInfo) × (add_variable body "y" false false
      ≡ some (set_scope body (some s), true))
    × (s ≡ declared_in body_scope [] [] (record { isconst = false; name = "y" }))
    × AllWellScoped s
    × (is_defined_variable s "y" ≡ true)
    × (check_can_assign_variable (scope_fields s) "y" ≡ true)
    × (check_can_declare_local_var (scope_fields s) "y" ≡ false)
    × (is_defined_variable s "x" ≡ is_defined_variable body_scope "x")
    × (check_can_assign_variable (scope_fields s) "x"
        ≡ check_can_assign_variable (scope_fields body_scope) "x")
add_variable_lem_example =
    add_variable_lem body body_scope [] [] "y" "x" false false refl refl y_is_free
      body_scope-IsWellScoped refl

pop_block_scope-declare-push_example :
    (pushed declared : ParserEnvironment) × (push_block_scope body ≡ some pushed)
    × (declare_each (("y", true) ∷ ("x", false) ∷ []) pushed ≡ some declared)
    × (pop_block_scope declared ≡ some body)
pop_block_scope-declare-push_example =
    pop_block_scope-declare-push body body_scope (("y", true) ∷ ("x", false) ∷ []) refl

push_lambda_scope_lem_example :
    (inside : ParserEnvironment) × (push_lambda_scope body [] none ≡ some inside)
    × (identifier_resolves_as_variable inside "x" ≡ identifier_resolves_as_variable body "x")
    × (assign_variable inside "x" ≡ some ("x" == "_"))
    × (pop_lambda_scope inside ≡ some body)
push_lambda_scope_lem_example = push_lambda_scope_lem body body_scope [] none "x" refl refl

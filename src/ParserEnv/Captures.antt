-- ===== src/ParserEnv/Captures.antt =====
-- Blocks and lambdas: what a scope leaves behind, and what a lambda may do to the variables around it.
use bosque_core.Prelude.{
  String, Bool, true, false, ◌≡◌, refl, sym, ◌∙◌, ap, Option, none, some, List, [], ◌∷◌, ◌++◌, any,
  find?, reverse, drop_last-append, ◌==◌, Bool-cases, inl, inr, starts_with, or-eq-false,
}
use bosque_core.Types.Syntax.{TypeSignature}
use bosque_core.ParserEnv.{
  LocalVariableDefinitionInfo, BlockScopeInfo, lookup_variable_info, ScopeFields, ParserScopeInfo,
  standard_scope, lambda_scope, scope_fields, with_blockscope, new_scope_fields, is_reserved,
  check_can_declare_local_var, search_blocks, check_can_assign_variable, is_defined_variable_helper,
  is_defined_variable, ParserEnvironment, with_scope, set_scope, push_block_scope, pop_block_scope,
  add_variable, push_lambda_scope, pop_lambda_scope, assign_variable,
  identifier_resolves_as_variable,
}
use bosque_core.ParserEnv.Declare.{add_variable-adds}

blockscope-replaced :
    (s : ParserScopeInfo) (bss : List BlockScopeInfo)
    → (scope_fields (with_blockscope s bss)).blockscope ≡ bss
blockscope-replaced (standard_scope f) bss = refl
blockscope-replaced (lambda_scope enclosing f) bss = refl

replaced_twice :
    (s : ParserScopeInfo) (bss bss' : List BlockScopeInfo)
    → with_blockscope (with_blockscope s bss) bss' ≡ with_blockscope s bss'
replaced_twice (standard_scope f) bss bss' = refl
replaced_twice (lambda_scope enclosing f) bss bss' = refl

replaced_same : (s : ParserScopeInfo) → with_blockscope s (scope_fields s).blockscope ≡ s
replaced_same (standard_scope f) = refl
replaced_same (lambda_scope enclosing f) = refl

-- The environment whose scope has the block `bs` inside the blocks of `s`.
abbrev with_inner : ParserEnvironment → ParserScopeInfo → BlockScopeInfo → ParserEnvironment
with_inner env s bs =
    set_scope env (some (with_blockscope s ((scope_fields s).blockscope ++ bs ∷ [])))

add_variable-inner :
    (env : ParserEnvironment) (s : ParserScopeInfo) (bs : BlockScopeInfo) (name : String)
    (isconst ignoreok : Bool)
    → (bs' : BlockScopeInfo) × (ok : Bool) × (add_variable
          (with_inner env s bs)
          name
          isconst
          ignoreok
        ≡ some (with_inner env s bs', ok))
unfolding add_variable with_scope
add_variable-inner env s bs name isconst ignoreok =
    let bss = (scope_fields s).blockscope in
    let inner = with_blockscope s (bss ++ bs ∷ []) in
    elim (Bool-cases (name == "_")) [
      | inl ignored ↦ (bs, ignoreok, rw ignored refl)
      | inr named ↦ elim (Bool-cases (check_can_declare_local_var (scope_fields inner) name)) [
        | inl fresh ↦ (
          bs ++ (record { isconst = isconst; name = name }) ∷ [],
          true,
          add_variable-adds (with_inner env s bs) inner bss bs name isconst ignoreok refl
                (blockscope-replaced s (bss ++ bs ∷ [])) fresh
              ∙ ap (λ x. some (set_scope env (some x), true)) (replaced_twice s _ _),
        )
        | inr taken ↦ (bs, false, rw named (rw taken refl))
      ]
    ]

-- A list of declarations, one after the other, whatever each answers.
abbrev pub declare_each : List (String × Bool) → ParserEnvironment → Option ParserEnvironment
declare_each [] env = some env
declare_each (v ∷ vs) env = elim (add_variable env v.0 v.1 true) [
  | none ↦ none
  | some r ↦ declare_each vs r.0
]

declare_each-inner :
    (vs : List (String × Bool)) (env : ParserEnvironment) (s : ParserScopeInfo)
    (bs : BlockScopeInfo)
    → (bs' : BlockScopeInfo) × (declare_each vs (with_inner env s bs) ≡ some (with_inner env s bs'))
declare_each-inner [] env s bs = (bs, refl)
declare_each-inner (v ∷ vs) env s bs =
    let (bs', ok, went) = add_variable-inner env s bs v.0 v.1 true in
    let (bs'', rest) = declare_each-inner vs env s bs' in (bs'', rw (went, declare_each) rest)

-- Pushing a block on a scope, making any declarations, accepted or refused, and popping the block
-- succeeds and gives back the environment before.
pub pop_block_scope-declare-push :
    (env : ParserEnvironment) (s : ParserScopeInfo) (vs : List (String × Bool))
    → env.scope ≡ some s
    → (pushed declared : ParserEnvironment) × (push_block_scope env ≡ some pushed)
      × (declare_each vs pushed ≡ some declared)
      × (pop_block_scope declared ≡ some env)
unfolding push_block_scope pop_block_scope with_scope
pop_block_scope-declare-push env s vs here =
    let (bs, went) = declare_each-inner vs env s [] in
    (
      with_inner env s [],
      with_inner env s bs,
      rw here refl,
      went,
      rw (replaced_twice s _ _) (
          rw (blockscope-replaced s _) (
            rw (drop_last-append (scope_fields s).blockscope bs)
              (rw (replaced_same s) (ap (λ x. some (set_scope env x)) (sym here))))),
    )

no_blocks : (name : String) → search_blocks name (reverse ([] ∷ [])) ≡ none
unfolding search_blocks lookup_variable_info
no_blocks name = refl

find-any :
    (args : List LocalVariableDefinitionInfo) (name : String)
    → any (λ (arg : LocalVariableDefinitionInfo). arg.name == name) args ≡ false
    → find? (λ (arg : LocalVariableDefinitionInfo). arg.name == name) args ≡ none
find-any [] name h = refl
find-any (v ∷ args) name h =
    let parts = or-eq-false (v.name == name) _ h in rw parts.0 (find-any args name parts.1)

helper_empty :
    (f : ScopeFields) (name : String)
    → any (λ (arg : LocalVariableDefinitionInfo). arg.name == name) f.args ≡ false
    → f.blockscope ≡ [] ∷ []
    → is_defined_variable_helper f name ≡ starts_with name "$"
unfolding is_defined_variable_helper
helper_empty f name none_of empty = elim (Bool-cases (starts_with name "$")) [
  | inl binder ↦ rw (binder, is_defined_variable_helper) refl
  | inr plain ↦ rw (plain, is_defined_variable_helper) (rw empty (rw (no_blocks name) none_of))
]

-- A binder is defined in every scope.
binder_defined :
    (s : ParserScopeInfo) (name : String)
    → starts_with name "$" ≡ true
    → is_defined_variable s name ≡ true
unfolding is_defined_variable is_defined_variable_helper
binder_defined (standard_scope f) name binder =
    rw (binder, is_defined_variable, is_defined_variable_helper) refl
binder_defined (lambda_scope s f) name binder =
    rw (binder, is_defined_variable, is_defined_variable_helper) refl

captured :
    (s : ParserScopeInfo) (f : ScopeFields) (name : String)
    → is_defined_variable_helper f name ≡ starts_with name "$"
    → is_defined_variable (lambda_scope s f) name ≡ is_defined_variable s name
unfolding is_defined_variable
captured s f name same = elim (Bool-cases (starts_with name "$")) [
  | inl binder ↦ rw (same ∙ binder, is_defined_variable) (sym (binder_defined s name binder))
  | inr plain ↦ rw (same ∙ plain, is_defined_variable) refl
]

not_assigned :
    (f : ScopeFields) (name : String)
    → any (λ (arg : LocalVariableDefinitionInfo). arg.name == name) f.args ≡ false
    → f.blockscope ≡ [] ∷ []
    → check_can_assign_variable f name ≡ false
unfolding check_can_assign_variable
not_assigned f name none_of empty = elim (Bool-cases (is_reserved name)) [
  | inl reserved ↦ rw (reserved, check_can_assign_variable) refl
  | inr free ↦
      rw (free, check_can_assign_variable)
        (rw empty (rw (no_blocks name) (rw (find-any f.args name none_of) refl)))
]

-- In a new lambda a name that is not one of its arguments resolves as a variable exactly when it does
-- around the lambda, and it may be assigned only if it is `_`. Leaving the lambda gives back the
-- environment before.
pub push_lambda_scope_lem :
    (env : ParserEnvironment) (s : ParserScopeInfo) (args : List LocalVariableDefinitionInfo)
    (rtype : Option TypeSignature) (name : String)
    → env.scope ≡ some s
    → any (λ (arg : LocalVariableDefinitionInfo). arg.name == name) args ≡ false
    → (inside : ParserEnvironment) × (push_lambda_scope env args rtype ≡ some inside)
      × (identifier_resolves_as_variable inside name ≡ identifier_resolves_as_variable env name)
      × (assign_variable inside name ≡ some (name == "_"))
      × (pop_lambda_scope inside ≡ some env)
unfolding push_lambda_scope identifier_resolves_as_variable assign_variable pop_lambda_scope
    with_scope
push_lambda_scope_lem env s args rtype name here none_of =
    let f = new_scope_fields args (scope_fields s).boundtemplates rtype in
    (
      set_scope env (some (lambda_scope s f)),
      rw here refl,
      rw here (ap some (captured s f name (helper_empty f name none_of refl))),
      elim (Bool-cases (name == "_")) [
        | inl ignored ↦ rw ignored refl
        | inr named ↦ rw named (ap some (not_assigned f name none_of refl))
      ],
      ap (λ x. some (set_scope env x)) (sym here),
    )

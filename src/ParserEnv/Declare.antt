-- ===== src/ParserEnv/Declare.antt =====
-- What a declaration does to the scope of the parser.
use bosque_core.Prelude.{
  String, Bool, true, false, not, ◌&&◌, ◌||◌, ◌≡◌, refl, sym, ◌∙◌, ap, some, List, [], ◌∷◌, ◌++◌,
  map, reverse, reverse-append, append_assoc, append-nil, map-append, any, ◌==◌, Bool-cases, inl,
  inr, str_eq_refl, or-eq-false, has, Distinct, has-append, Distinct-append_new, All, All-append,
  subst, starts_with,
}
use bosque_core.ParserEnv.{
  LocalVariableDefinitionInfo, BlockScopeInfo, lookup_variable_info, ScopeFields, ParserScopeInfo,
  standard_scope, lambda_scope, scope_fields, with_blockscope, is_reserved, is_defined,
  check_can_declare_local_var, search_blocks, check_can_assign_variable, is_defined_variable_helper,
  is_defined_variable, ParserEnvironment, with_scope, set_scope, push_local, declare, add_variable,
}

abbrev pub names : BlockScopeInfo → List String
names bs = map (λ (v : LocalVariableDefinitionInfo). v.name) bs

abbrev pub all_names : List BlockScopeInfo → List String
all_names [] = []
all_names (bs ∷ rest) = names bs ++ all_names rest

-- No variable is declared twice in the blocks of a scope, and none has a reserved name or an
-- argument's.
pub record IsWellScoped (f : ScopeFields) : Type 0 where
  pub distinct : Distinct (all_names f.blockscope)
  pub fresh :
      All
        (λ n.
          (is_reserved n ≡ false)
          × (any (λ (arg : LocalVariableDefinitionInfo). arg.name == n) f.args ≡ false))
        (all_names f.blockscope)

lookup-defined :
    (name : String) (bs : BlockScopeInfo)
    → is_defined (lookup_variable_info bs name) ≡ has name (names bs)
unfolding lookup_variable_info
lookup-defined name [] = refl
lookup-defined name (v ∷ bs) = elim (Bool-cases (v.name == name)) [
  | inl hit ↦ rw (hit, lookup_variable_info) refl
  | inr miss ↦ rw (miss, lookup_variable_info) (lookup-defined name bs)
]

blocks-defined :
    (name : String) (bss : List BlockScopeInfo)
    → any (λ bs. is_defined (lookup_variable_info bs name)) bss ≡ has name (all_names bss)
blocks-defined name [] = refl
blocks-defined name (bs ∷ bss) =
    rw (lookup-defined name bs)
      (rw (blocks-defined name bss) (sym (has-append name (names bs) (all_names bss))))

all_names-append :
    (bss : List BlockScopeInfo) (bs : BlockScopeInfo)
    → all_names (bss ++ bs ∷ []) ≡ all_names bss ++ names bs
all_names-append [] bs = append-nil (names bs)
all_names-append (b ∷ bss) bs =
    ap (λ ns. names b ++ ns) (all_names-append bss bs)
    ∙ sym (append_assoc (names b) (all_names bss) (names bs))

push_local-append :
    (outer : List BlockScopeInfo) (bs : BlockScopeInfo) (v : LocalVariableDefinitionInfo)
    → push_local (outer ++ bs ∷ []) v ≡ some (outer ++ (bs ++ v ∷ []) ∷ [])
unfolding push_local
push_local-append [] bs v = refl
push_local-append (b ∷ []) bs v = refl
push_local-append (b ∷ c ∷ outer) bs v = rw (push_local-append (c ∷ outer) bs v, push_local) refl

all_names-pushed :
    (outer : List BlockScopeInfo) (bs : BlockScopeInfo) (v : LocalVariableDefinitionInfo)
    → all_names (outer ++ (bs ++ v ∷ []) ∷ []) ≡ all_names (outer ++ bs ∷ []) ++ v.name ∷ []
all_names-pushed outer bs v = rw (all_names-append outer (bs ++ v ∷ [])) (
    rw (all_names-append outer bs)
      (rw map-append (sym (append_assoc (all_names outer) (names bs) (v.name ∷ [])))))

search_blocks-append :
    (name : String) (outer : List BlockScopeInfo) (bs : BlockScopeInfo)
    → search_blocks name (reverse (outer ++ bs ∷ [])) ≡ search_blocks name (bs ∷ reverse outer)
search_blocks-append name outer bs = rw (reverse-append outer (bs ∷ []))

lookup-append_new :
    (name : String) (bs : BlockScopeInfo) (v : LocalVariableDefinitionInfo)
    → has name (names bs) ≡ false
    → v.name ≡ name
    → lookup_variable_info (bs ++ v ∷ []) name ≡ some v
unfolding lookup_variable_info
lookup-append_new name [] v absent named = rw (named, lookup_variable_info) (rw str_eq_refl refl)
lookup-append_new name (w ∷ bs) v absent named =
    let parts = or-eq-false (w.name == name) (has name (names bs)) absent in
    rw (parts.0, lookup_variable_info) (lookup-append_new name bs v parts.1 named)

lookup-append_other :
    (name : String) (bs : BlockScopeInfo) (v : LocalVariableDefinitionInfo)
    → (v.name == name) ≡ false
    → lookup_variable_info (bs ++ v ∷ []) name ≡ lookup_variable_info bs name
unfolding lookup_variable_info
lookup-append_other name [] v other = rw (other, lookup_variable_info) refl
lookup-append_other name (w ∷ bs) v other = elim (Bool-cases (w.name == name)) [
  | inl hit ↦ rw (hit, lookup_variable_info) refl
  | inr miss ↦ rw (miss, lookup_variable_info) (lookup-append_other name bs v other)
]

-- The search after a declaration.
search_blocks-new :
    (outer : List BlockScopeInfo) (bs : BlockScopeInfo) (v : LocalVariableDefinitionInfo)
    → has v.name (names bs) ≡ false
    → search_blocks v.name (reverse (outer ++ (bs ++ v ∷ []) ∷ [])) ≡ some v
unfolding search_blocks
search_blocks-new outer bs v absent =
    rw (reverse-append outer ((bs ++ v ∷ []) ∷ []))
      (rw (lookup-append_new v.name bs v absent refl, search_blocks) refl)

search_blocks-other :
    (name : String) (outer : List BlockScopeInfo) (bs : BlockScopeInfo)
    (v : LocalVariableDefinitionInfo)
    → (v.name == name) ≡ false
    → search_blocks name (reverse (outer ++ (bs ++ v ∷ []) ∷ []))
      ≡ search_blocks name (reverse (outer ++ bs ∷ []))
unfolding search_blocks
search_blocks-other name outer bs v other = rw (reverse-append outer ((bs ++ v ∷ []) ∷ [])) (
    rw (reverse-append outer (bs ∷ []))
      (rw (lookup-append_other name bs v other, search_blocks) refl))

not_both : (a b : Bool) → (not a && not b) ≡ true → (a ≡ false) × (b ≡ false)
not_both false false h = (refl, refl)
not_both false true h = cc
not_both true b h = cc

can_declare-fresh :
    (f : ScopeFields) (name : String)
    → check_can_declare_local_var f name ≡ true
    → (is_reserved name ≡ false)
      × (has name (all_names f.blockscope) ≡ false)
      × (any (λ (arg : LocalVariableDefinitionInfo). arg.name == name) f.args ≡ false)
unfolding check_can_declare_local_var
can_declare-fresh f name h = elim (Bool-cases (is_reserved name)) [
  | inl reserved ↦ cc (rw (reserved, check_can_declare_local_var) at h)
  | inr free ↦
      let parts = not_both _ _ (rw (free, check_can_declare_local_var) at h) in
      (free, sym (blocks-defined name f.blockscope) ∙ parts.0, parts.1)
]

-- A declaration in the innermost block `bs` of the scope `f`.
module _ (f : ScopeFields) (outer : List BlockScopeInfo) (bs : BlockScopeInfo) (name : String)
    (isconst : Bool) (shape : f.blockscope ≡ outer ++ bs ∷ [])
    (ok : check_can_declare_local_var f name ≡ true) where
  abbrev added : LocalVariableDefinitionInfo
  added = record { isconst = isconst; name = name }

  abbrev after : ScopeFields
  after = record f { blockscope = outer ++ (bs ++ added ∷ []) ∷ [] }

  absent : has name (all_names (outer ++ bs ∷ [])) ≡ false
  absent = rw shape at ((can_declare-fresh f name ok).1)

  absent_innermost : has name (names bs) ≡ false
  absent_innermost =
      (or-eq-false _ _ (
        sym (has-append name (all_names outer) (names bs))
        ∙ ap (has name) (sym (all_names-append outer bs))
        ∙ absent)).1

  after-IsWellScoped : IsWellScoped f → IsWellScoped after
  after-IsWellScoped w = record {
    distinct =
        subst Distinct (sym (all_names-pushed outer bs added))
          (Distinct-append_new name _ absent (rw shape at w.distinct));
    fresh = subst (All _) (sym (all_names-pushed outer bs added)) (
        All-append _ _ (name ∷ []) (rw shape at w.fresh)
          (((can_declare-fresh f name ok).0, (can_declare-fresh f name ok).2), tt));
  }

  after-defined : is_defined_variable_helper after name ≡ true
  unfolding is_defined_variable_helper
  after-defined = elim (Bool-cases (starts_with name "$")) [
    | inl binder ↦ rw (binder, is_defined_variable_helper) refl
    | inr plain ↦
        rw (plain, is_defined_variable_helper)
          (rw (search_blocks-new outer bs added absent_innermost) refl)
  ]

  after-assign : check_can_assign_variable after name ≡ not isconst
  unfolding check_can_assign_variable
  after-assign =
      rw ((can_declare-fresh f name ok).0, check_can_assign_variable)
        (rw (search_blocks-new outer bs added absent_innermost) refl)

  after-redeclare : check_can_declare_local_var after name ≡ false
  unfolding check_can_declare_local_var
  after-redeclare =
      rw ((can_declare-fresh f name ok).0, check_can_declare_local_var)
        (rw (blocks-defined name (outer ++ (bs ++ added ∷ []) ∷ [])) (
          rw (all_names-pushed outer bs added) (
            rw (has-append name (all_names (outer ++ bs ∷ [])) (name ∷ []))
              (rw (str_eq_refl name) (rw absent refl)))))

  module _ (other : String) (differs : (name == other) ≡ false) where
    other-defined : is_defined_variable_helper after other ≡ is_defined_variable_helper f other
    unfolding is_defined_variable_helper
    other-defined =
        rw (search_blocks-other other outer bs added differs, is_defined_variable_helper)
          (rw shape refl)

    other-assign : check_can_assign_variable after other ≡ check_can_assign_variable f other
    unfolding check_can_assign_variable
    other-assign =
        rw (search_blocks-other other outer bs added differs, check_can_assign_variable)
          (rw shape refl)

is_reserved-underscore : (name : String) → is_reserved name ≡ false → (name == "_") ≡ false
unfolding is_reserved
is_reserved-underscore name h =
    let parts =
      or-eq-false (name == "_" || name == "this" || name == "self") (starts_with name "$") h in
    let parts' = or-eq-false (name == "_" || name == "this") (name == "self") parts.0 in
    (or-eq-false (name == "_") (name == "this") parts'.0).0

-- The scopes around a lambda are well scoped too.
abbrev pub AllWellScoped : ParserScopeInfo → Type 0
AllWellScoped (standard_scope f) = IsWellScoped f
AllWellScoped (lambda_scope enclosing f) = AllWellScoped enclosing × IsWellScoped f

-- The scope after a declaration in its innermost block.
abbrev pub declared_in :
    ParserScopeInfo
    → List BlockScopeInfo
    → BlockScopeInfo
    → LocalVariableDefinitionInfo
    → ParserScopeInfo
declared_in s outer bs v = with_blockscope s (outer ++ (bs ++ v ∷ []) ∷ [])

pub add_variable-adds :
    (env : ParserEnvironment) (s : ParserScopeInfo) (outer : List BlockScopeInfo)
    (bs : BlockScopeInfo) (name : String) (isconst ignoreok : Bool)
    → env.scope ≡ some s
    → (scope_fields s).blockscope ≡ outer ++ bs ∷ []
    → check_can_declare_local_var (scope_fields s) name ≡ true
    → add_variable env name isconst ignoreok
      ≡ some (
        set_scope env (some (declared_in s outer bs (record { isconst = isconst; name = name }))),
        true,
      )
unfolding add_variable with_scope declare
add_variable-adds env s outer bs name isconst ignoreok here shape ok =
    let plain = is_reserved-underscore name (can_declare-fresh (scope_fields s) name ok).0 in
    rw (here, add_variable, with_scope)
      (rw plain (
        rw ok (
          rw (shape, declare)
            (rw (push_local-append outer bs (record { isconst = isconst; name = name }), declare)
              refl))))

-- Where the scopes are well scoped, the innermost one has a block, and a name may be declared in it,
-- `addVariable` appends the name to the innermost block and leaves the other blocks and all else of
-- the scopes as they are. They stay well scoped. The name is then defined, may be assigned exactly
-- when it is not constant, and may not be declared again. Any other name is defined and may be
-- assigned as before.
pub add_variable_lem :
    (env : ParserEnvironment) (s : ParserScopeInfo) (outer : List BlockScopeInfo)
    (bs : BlockScopeInfo) (name other : String) (isconst ignoreok : Bool)
    → env.scope ≡ some s
    → (scope_fields s).blockscope ≡ outer ++ bs ∷ []
    → check_can_declare_local_var (scope_fields s) name ≡ true
    → AllWellScoped s
    → (name == other) ≡ false
    → (s' : ParserScopeInfo) × (add_variable env name isconst ignoreok
        ≡ some (set_scope env (some s'), true))
      × (s' ≡ declared_in s outer bs (record { isconst = isconst; name = name }))
      × AllWellScoped s'
      × (is_defined_variable s' name ≡ true)
      × (check_can_assign_variable (scope_fields s') name ≡ not isconst)
      × (check_can_declare_local_var (scope_fields s') name ≡ false)
      × (is_defined_variable s' other ≡ is_defined_variable s other)
      × (check_can_assign_variable (scope_fields s') other
          ≡ check_can_assign_variable (scope_fields s) other)
unfolding is_defined_variable
add_variable_lem env (standard_scope f) outer bs name other isconst ignoreok here shape ok w
      differs =
    (
      declared_in (standard_scope f) outer bs (record { isconst = isconst; name = name }),
      add_variable-adds env (standard_scope f) outer bs name isconst ignoreok here shape ok,
      refl,
      after-IsWellScoped f outer bs name isconst shape ok w,
      after-defined f outer bs name isconst shape ok,
      after-assign f outer bs name isconst shape ok,
      after-redeclare f outer bs name isconst shape ok,
      other-defined f outer bs name isconst shape ok other differs,
      other-assign f outer bs name isconst shape ok other differs,
    )
add_variable_lem env (lambda_scope enclosing f) outer bs name other isconst ignoreok here shape ok w
      differs =
    (
      declared_in (lambda_scope enclosing f) outer bs (record { isconst = isconst; name = name }),
      add_variable-adds env (lambda_scope enclosing f) outer bs name isconst ignoreok here shape ok,
      refl,
      (w.0, after-IsWellScoped f outer bs name isconst shape ok w.1),
      rw (after-defined f outer bs name isconst shape ok, is_defined_variable) refl,
      after-assign f outer bs name isconst shape ok,
      after-redeclare f outer bs name isconst shape ok,
      rw (other-defined f outer bs name isconst shape ok other differs, is_defined_variable) refl,
      other-assign f outer bs name isconst shape ok other differs,
    )

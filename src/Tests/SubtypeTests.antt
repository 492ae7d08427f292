-- ===== src/Tests/SubtypeTests.antt =====
-- Two declarations at which the theorems on `isSubtypeOf` are applied: `Foo`, which provides `Bar`.
use bosque_core.Prelude.{
  ℕ, zero, ◌<◌, String, Bool, true, false, ◌≡◌, refl, sym, ◌↔◌, none, some, [], ◌∷◌, All, arith,
  subst, ◌==◌, eq_iff,
}
use bosque_core.Types.Syntax.{
  TypeSignature, error, void, auto, template, nominal, elist, lambda, format_string, no_types,
}
use bosque_core.Types.Keys.{tkeystr, nominal_name, qualify, term_scope}
use bosque_core.Types.Namespace.{scope, join}
use bosque_core.Types.Mapper.{remap_template_bindings}
use bosque_core.Types.Constraints.{TemplateConstraintScope, resolve_constraint, search_frames}
use bosque_core.Assembly.{
  Declarations, entity, concept, is_special_result_entity, is_special_api_result_entity,
  is_abstract_concept,
}
use bosque_core.Relations.Outcome.{RelState, done, lookup}
use bosque_core.Relations.Same.{
  equal_key, length_types, is_error_or_auto, are_same_types, guarded, through_equal_memo,
  memoize_equal, and_rest, on_lengths,
}
use bosque_core.Relations.Same.Spec.{same}
use bosque_core.Relations.Same.Memoized.{Within, Faithful}
use bosque_core.Relations.Provides.{
  resolve_direct_provides_decls, provided_by, provided_each, provided,
  resolve_template_as_needed_for_name_lookup,
}
use bosque_core.Relations.Subtype.{
  is_subtype_of, subtype_key, provided_types, through_subtype_memo, memoize_subtype, or_rest,
  widened, template_is_subtype_of,
}
use bosque_core.Relations.Subtype.Spec.{IsSubtype, Closed, StateOk}
use bosque_core.Relations.Subtype.Correct.{is_subtype_of_lem}
use bosque_core.Relations.Subtype.Remembers.{is_subtype_of-remembers}

abbrev pub foo : TypeSignature
foo = nominal 0 none no_types

abbrev pub bar : TypeSignature
bar = nominal 1 none no_types

abbrev pub foo_decls : Declarations
foo_decls zero = record {
  kind = entity;
  attributes = [];
  ns = record { ns = "Main" ∷ [] };
  name = "Foo";
  terms = [];
  provides = bar ∷ [];
}
foo_decls _ = record {
  kind = concept;
  attributes = [];
  ns = record { ns = "Main" ∷ [] };
  name = "Bar";
  terms = [];
  provides = [];
}

abbrev pub no_constraints : TemplateConstraintScope
no_constraints = record { constraints = [] }

abbrev pub named : Bool → TypeSignature
named true = foo
named false = bar

abbrev pub IsNamed : TypeSignature → Type 0
IsNamed t = (b : Bool) × (t ≡ named b)

abbrev pub rank : TypeSignature → ℕ
rank (nominal zero altns args) = 1
rank _ = 0

apart : (a b : String) → (a == b) ≡ false → a ≡ b → ⊥
apart a b differ e = cc (differ, (eq_iff a b).1 e)

named-equal_keys :
    (a b c d : Bool)
    → equal_key foo_decls (named a) (named b) ≡ equal_key foo_decls (named c) (named d)
    → same (named a) (named b) ≡ same (named c) (named d)
unfolding equal_key tkeystr same nominal_name qualify term_scope scope join is_special_result_entity
    is_special_api_result_entity
named-equal_keys true true true true e = refl
named-equal_keys true true true false e = absurd (apart _ _ refl e)
named-equal_keys true true false true e = absurd (apart _ _ refl e)
named-equal_keys true true false false e = absurd (apart _ _ refl e)
named-equal_keys true false true true e = absurd (apart _ _ refl e)
named-equal_keys true false true false e = refl
named-equal_keys true false false true e = absurd (apart _ _ refl e)
named-equal_keys true false false false e = absurd (apart _ _ refl e)
named-equal_keys false true true true e = absurd (apart _ _ refl e)
named-equal_keys false true true false e = absurd (apart _ _ refl e)
named-equal_keys false true false true e = refl
named-equal_keys false true false false e = absurd (apart _ _ refl e)
named-equal_keys false false true true e = absurd (apart _ _ refl e)
named-equal_keys false false true false e = absurd (apart _ _ refl e)
named-equal_keys false false false true e = absurd (apart _ _ refl e)
named-equal_keys false false false false e = refl

IsNamed-Faithful : Faithful foo_decls IsNamed
IsNamed-Faithful t u t' u' (a, ea) (b, eb) (c, ec) (d, ed) e =
    rw (ea, eb, ec, ed) (named-equal_keys a b c d (rw (ea, eb, ec, ed) at e))

abbrev NamedSubtype : TypeSignature → TypeSignature → Type 0
NamedSubtype = IsSubtype foo_decls no_constraints

named-subtype_keys :
    (a b c d : Bool)
    → subtype_key foo_decls (named a) (named b) ≡ subtype_key foo_decls (named c) (named d)
    → NamedSubtype (named a) (named b) ↔ NamedSubtype (named c) (named d)
unfolding subtype_key tkeystr nominal_name qualify term_scope scope join is_special_result_entity
    is_special_api_result_entity
named-subtype_keys true true true true e = ((λ h. h), (λ h. h))
named-subtype_keys true true true false e = absurd (apart _ _ refl e)
named-subtype_keys true true false true e = absurd (apart _ _ refl e)
named-subtype_keys true true false false e = absurd (apart _ _ refl e)
named-subtype_keys true false true true e = absurd (apart _ _ refl e)
named-subtype_keys true false true false e = ((λ h. h), (λ h. h))
named-subtype_keys true false false true e = absurd (apart _ _ refl e)
named-subtype_keys true false false false e = absurd (apart _ _ refl e)
named-subtype_keys false true true true e = absurd (apart _ _ refl e)
named-subtype_keys false true true false e = absurd (apart _ _ refl e)
named-subtype_keys false true false true e = ((λ h. h), (λ h. h))
named-subtype_keys false true false false e = absurd (apart _ _ refl e)
named-subtype_keys false false true true e = absurd (apart _ _ refl e)
named-subtype_keys false false true false e = absurd (apart _ _ refl e)
named-subtype_keys false false false true e = absurd (apart _ _ refl e)
named-subtype_keys false false false false e = ((λ h. h), (λ h. h))

pub Within-holds : (U : TypeSignature → Type 0) (t : TypeSignature) → Within U t → U t
Within-holds U (error ns) h = absurd h
Within-holds U auto h = absurd h
Within-holds U void h = h
Within-holds U (template name) h = h
Within-holds U (nominal decl altns args) h = h.0
Within-holds U (elist ts) h = h.0
Within-holds U (lambda r n ps t) h = h.0
Within-holds U (format_string o t ts) h = h

template-ne-named : (name : String) (b : Bool) → template name ≡ named b → ⊥
template-ne-named name true e = cc
template-ne-named name false e = cc

named-provides :
    (b : Bool)
    → All
        (λ p. Within IsNamed p × (rank p < rank (named b)))
        (provided_types foo_decls (named b) no_constraints)
unfolding provided_types resolve_direct_provides_decls provided_by provided_each provided
    resolve_template_as_needed_for_name_lookup remap_template_bindings is_abstract_concept
    length_types
named-provides true = ((((false, refl), tt), omega arith), tt)
named-provides false = tt

pub IsNamed-Closed : Closed foo_decls no_constraints IsNamed rank
IsNamed-Closed = record {
  faithful = IsNamed-Faithful;
  faithful_subtype = λ t u t' u' ht hu ht' hu' key.
      let (a, ea) = Within-holds IsNamed t ht in
      let (b, eb) = Within-holds IsNamed u hu in
      let (c, ec) = Within-holds IsNamed t' ht' in
      let (d, ed) = Within-holds IsNamed u' hu' in
      rw (ea, eb, ec, ed) (named-subtype_keys a b c d (rw (ea, eb, ec, ed) at key));
  constraint = λ name d t within found bound. absurd (template-ne-named name within.0 within.1);
  provides = λ t within.
      let (b, e) = Within-holds IsNamed t within in
      subst
        (λ x.
          All (λ p. Within IsNamed p × (rank p < rank x))
            (provided_types foo_decls x no_constraints))
        (sym e) (named-provides b);
}

abbrev pub no_answers : RelState
no_answers = record { equal = []; subtype = [] }

is_subtype_of_lem_example :
    (b : Bool) × (s : RelState) × (is_subtype_of 2 foo_decls no_constraints foo bar no_answers
      ≡ done b s)
    × StateOk foo_decls no_constraints IsNamed s
    × ((b ≡ true) ↔ NamedSubtype foo bar)
is_subtype_of_lem_example =
    is_subtype_of_lem 2 foo_decls no_constraints IsNamed rank foo bar no_answers IsNamed-Closed
      ((true, refl), tt) ((false, refl), tt) (omega arith) (tt, tt)

-- A scope in which `T` is a `Bar`.
abbrev t_is_bar : TemplateConstraintScope
t_is_bar = record {
  constraints = (record { name = "T"; tconstraint = some bar; extra_tags = [] } ∷ []) ∷ [];
}

-- The tables after the question whether `T` is a `Bar` in that scope.
abbrev answered : RelState
answered = record {
  equal = ("(Main::Bar <> Main::Bar)", true) ∷ ("(T <> Main::Bar)", false) ∷ [];
  subtype = ("(T <: Main::Bar)", true) ∷ ("(Main::Bar <: Main::Bar)", true) ∷ [];
}

t-answered : is_subtype_of 2 foo_decls t_is_bar (template "T") bar no_answers ≡ done true answered
unfolding is_subtype_of is_error_or_auto through_subtype_memo memoize_subtype subtype_key or_rest
    widened template_is_subtype_of resolve_constraint search_frames lookup are_same_types guarded
    through_equal_memo memoize_equal equal_key and_rest on_lengths length_types tkeystr nominal_name
    qualify term_scope scope join is_special_result_entity is_special_api_result_entity
t-answered = refl

-- The answer stands where `T` is not even declared.
is_subtype_of-remembers_example :
    is_subtype_of 1 foo_decls no_constraints (template "T") bar answered ≡ done true answered
is_subtype_of-remembers_example =
    is_subtype_of-remembers 2 0 foo_decls t_is_bar no_constraints (template "T") bar no_answers
      answered true t-answered

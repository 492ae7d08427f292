-- ===== src/Types/Constraints/Scoping.antt =====
-- Lookup after a push, and what a pop takes back.
use bosque_core.Prelude.{
  String, ◌≡◌, Option, none, some, List, [], ◌∷◌, ◌++◌, drop_last-append, arith, inl, inr,
  Option-cases,
}
use mathlib.Core.List.{reverse-append}
use bosque_core.Assembly.{TemplateTermDecl}
use bosque_core.Types.Constraints.{
  TemplateConstraintScope, InvokeTemplateTypeRestriction, find_term, search_frames,
  resolve_constraint, restrict_clauses, push_constraint_scope, pop_constraint_scope,
}

infixr 20 ◌or_else◌
abbrev pub ◌or_else◌ {ℓ} : {A : Type ℓ} → Option A → Option A → Option A
none or_else o = o
some a or_else o = some a

abbrev pub extend : TemplateConstraintScope → List TemplateTermDecl → TemplateConstraintScope
extend s frame = record { constraints = s.constraints ++ frame ∷ [] }

-- A frame on top answers first.
pub resolve_constraint-extend :
    (s : TemplateConstraintScope) (frame : List TemplateTermDecl) (name : String)
    → resolve_constraint (extend s frame) name
      ≡ (find_term name frame or_else resolve_constraint s name)
unfolding resolve_constraint search_frames
resolve_constraint-extend s frame name = rw reverse-append (ground arith)

-- After a push the restriction answers first, then the declared terms, then the scope before.
pub resolve_constraint-push :
    (s : TemplateConstraintScope) (terms : List TemplateTermDecl)
    (r : InvokeTemplateTypeRestriction) (frame : List TemplateTermDecl)
    (s' : TemplateConstraintScope) (name : String)
    → restrict_clauses (extend s terms) r ≡ some frame
    → push_constraint_scope s terms (some r) ≡ some s'
    → resolve_constraint s' name
      ≡ (find_term name frame or_else find_term name terms or_else resolve_constraint s name)
unfolding push_constraint_scope
resolve_constraint-push s terms r frame s' name restricted pushed = ground (
  arith,
  resolve_constraint-extend (extend s terms) frame name,
  resolve_constraint-extend s terms name,
)

pop-extend :
    (s : TemplateConstraintScope) (frame : List TemplateTermDecl)
    → pop_constraint_scope (extend s frame) ≡ s
unfolding pop_constraint_scope
pop-extend s frame = rw (drop_last-append s.constraints frame)

-- Without a restriction a pop undoes the push.
pub pop-push :
    (s s' : TemplateConstraintScope) (terms : List TemplateTermDecl)
    → push_constraint_scope s terms none ≡ some s'
    → pop_constraint_scope s' ≡ s
unfolding push_constraint_scope
pop-push s s' terms pushed = cc (pop-extend s terms)

pop-restricted :
    (s s' : TemplateConstraintScope) (terms : List TemplateTermDecl)
    (r : InvokeTemplateTypeRestriction)
    → push_constraint_scope s terms (some r) ≡ some s'
    → pop_constraint_scope s' ≡ extend s terms
unfolding push_constraint_scope
pop-restricted s s' terms r pushed = elim (Option-cases (restrict_clauses (extend s terms) r)) [
  | inl e ↦ cc (rw e at pushed)
  | inr (frame, e) ↦ cc (rw e at pushed, pop-extend (extend s terms) frame)
]

-- With a restriction one pop leaves the declared terms in scope: it takes away the restriction only.
pub pop-push_restricted :
    (s s' : TemplateConstraintScope) (terms : List TemplateTermDecl)
    (r : InvokeTemplateTypeRestriction) (name : String)
    → push_constraint_scope s terms (some r) ≡ some s'
    → (pop_constraint_scope s' ≡ extend s terms)
      × (resolve_constraint (pop_constraint_scope s') name
          ≡ (find_term name terms or_else resolve_constraint s name))
pop-push_restricted s s' terms r name pushed =
    let popped = pop-restricted s s' terms r pushed in
    (popped, rw popped (resolve_constraint-extend s terms name))

-- ===== src/Tests/RelationsTests.antt =====
-- Signatures at which the theorems on src/frontend/checker_relations.ts are applied.
use bosque_core.Prelude.{Bool, true, false, ◌≡◌, refl, ◌↔◌, [], ◌∷◌}
use bosque_core.Types.Syntax.{TypeSignature, void, elist, no_types, ty}
use bosque_core.Types.Keys.{tkeystr}
use bosque_core.Types.Namespace.{join}
use bosque_core.Assembly.{Declarations, entity}
use bosque_core.Relations.Outcome.{RelState, done}
use bosque_core.Relations.Same.{are_same_types, equal_key}
use bosque_core.Relations.Same.Spec.{same}
use bosque_core.Relations.Same.Memoized.{Faithful, MemoOk}
use bosque_core.Relations.Same.Correct.{are_same_types_lem}
use bosque_core.Relations.Same.Erasure.{erase}
use bosque_core.Relations.Same.Answers.{are_same_types_iff-erase}

abbrev decls : Declarations
decls n = record {
  kind = entity;
  attributes = [];
  ns = record { ns = "Main" ∷ [] };
  name = "Foo";
  terms = [];
  provides = [];
}

abbrev pub pair : TypeSignature
pair = elist (ty void (ty void no_types))

-- `Void` and `(|Void, Void|)`.
abbrev pub small : Bool → TypeSignature
small true = void
small false = pair

abbrev pub IsSmall : TypeSignature → Type 0
IsSmall t = (b : Bool) × (t ≡ small b)

small-keys :
    (ds : Declarations) (a b c d : Bool)
    → equal_key ds (small a) (small b) ≡ equal_key ds (small c) (small d)
    → same (small a) (small b) ≡ same (small c) (small d)
unfolding equal_key tkeystr same join
small-keys ds true true true true e = refl
small-keys ds true true true false e = cc
small-keys ds true true false true e = cc
small-keys ds true true false false e = cc
small-keys ds true false true true e = cc
small-keys ds true false true false e = refl
small-keys ds true false false true e = cc
small-keys ds true false false false e = cc
small-keys ds false true true true e = cc
small-keys ds false true true false e = cc
small-keys ds false true false true e = refl
small-keys ds false true false false e = cc
small-keys ds false false true true e = cc
small-keys ds false false true false e = cc
small-keys ds false false false true e = cc
small-keys ds false false false false e = refl

pub IsSmall-Faithful : (ds : Declarations) → Faithful ds IsSmall
IsSmall-Faithful ds t u t' u' (a, ea) (b, eb) (c, ec) (d, ed) e =
    rw (ea, eb, ec, ed) (small-keys ds a b c d (rw (ea, eb, ec, ed) at e))

abbrev pub no_memo : RelState
no_memo = record { equal = []; subtype = [] }

are_same_types_lem_example :
    (s : RelState) × (are_same_types decls pair void no_memo ≡ done (same pair void) s)
    × MemoOk decls IsSmall s.equal
    × (s.subtype ≡ [])
are_same_types_lem_example =
    are_same_types_lem decls IsSmall (IsSmall-Faithful decls) pair void no_memo
      ((false, refl), ((true, refl), ((true, refl), tt))) (true, refl) tt

are_same_types_iff-erase_example :
    (b : Bool) × (s : RelState) × (are_same_types decls pair pair no_memo ≡ done b s)
    × ((b ≡ true) ↔ (erase pair ≡ erase pair))
are_same_types_iff-erase_example =
    are_same_types_iff-erase decls IsSmall pair pair no_memo (IsSmall-Faithful decls)
      ((false, refl), ((true, refl), ((true, refl), tt)))
      ((false, refl), ((true, refl), ((true, refl), tt))) (tt, (tt, tt)) tt

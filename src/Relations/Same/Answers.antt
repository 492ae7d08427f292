-- ===== src/Relations/Same/Answers.antt =====
-- What `areSameTypes` answers, without its memo table.
use bosque_core.Prelude.{Bool, true, ◌≡◌, ◌↔◌}
use bosque_core.Types.Syntax.{TypeSignature}
use bosque_core.Assembly.{Declarations}
use bosque_core.Relations.Outcome.{RelState, done}
use bosque_core.Relations.Same.{are_same_types}
use bosque_core.Relations.Same.Spec.{same, IsComparable}
use bosque_core.Relations.Same.Memoized.{Within, Faithful, MemoOk}
use bosque_core.Relations.Same.Correct.{are_same_types_lem}
use bosque_core.Relations.Same.Erasure.{erase, same_iff-erase}

-- On signatures of a universe whose keys tell apart what the relation tells apart, with no error,
-- auto or format string at a compared place, `areSameTypes` returns from any sound table. It answers
-- true exactly when the two are equal up to alternative namespaces, recursive annotations and
-- parameter names.
pub are_same_types_iff-erase :
    (ds : Declarations) (U : TypeSignature → Type 0) (t u : TypeSignature) (s : RelState)
    → Faithful ds U
    → Within U t
    → Within U u
    → IsComparable t
    → MemoOk ds U s.equal
    → (b : Bool) × (s' : RelState) × (are_same_types ds t u s ≡ done b s')
      × ((b ≡ true) ↔ (erase t ≡ erase u))
are_same_types_iff-erase ds U t u s faithful ht hu comparable h =
    let (s', ran, _, _) = are_same_types_lem ds U faithful t u s ht hu h in
    (same t u, s', ran, same_iff-erase t u comparable)

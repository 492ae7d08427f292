-- ===== src/Prelude/Names.antt =====
-- Lists of names without repetition.
use Prim.Native.String.{String}
use mathlib.Core.Path.{◌≡◌, refl}
use mathlib.Core.Logic.{inl, inr}
use mathlib.Core.List.{List, [], ◌∷◌, ◌++◌}
use mathlib.Core.Bool.{Bool, false, ◌||◌}
use text.Mathlib.Text.{◌==◌}
use text.Mathlib.TextEquality.{eq_iff}
use bosque_core.Prelude.Tests.{Bool-cases, str_eq_refl, or-eq-false}

-- `names.includes(name)`
abbrev pub has : String → List String → Bool
has name [] = false
has name (n ∷ ns) = n == name || has name ns

abbrev pub Distinct : List String → Type 0
Distinct [] = Unit
Distinct (n ∷ ns) = (has n ns ≡ false) × Distinct ns

pub str_eq_sym : (a b : String) → (a == b) ≡ false → (b == a) ≡ false
str_eq_sym a b h = elim (Bool-cases (b == a)) [
  | inl e ↦ cc (rw ((eq_iff b a).0 e) at h, str_eq_refl a)
  | inr e ↦ e
]

pub has-append_new :
    (name v : String) (ns : List String)
    → has name ns ≡ false
    → (v == name) ≡ false
    → has name (ns ++ v ∷ []) ≡ false
has-append_new name v [] h other = rw other
has-append_new name v (n ∷ ns) h other =
    let parts = or-eq-false (n == name) (has name ns) h in
    rw parts.0 (has-append_new name v ns parts.1 other)

pub Distinct-append_new :
    (v : String) (ns : List String) → has v ns ≡ false → Distinct ns → Distinct (ns ++ v ∷ [])
Distinct-append_new v [] h d = (refl, tt)
Distinct-append_new v (n ∷ ns) h d =
    let parts = or-eq-false (n == v) (has v ns) h in
    (has-append_new n v ns d.0 (str_eq_sym n v parts.0), Distinct-append_new v ns parts.1 d.1)

has-append_left :
    (name : String) (ms ns : List String) → has name (ms ++ ns) ≡ false → has name ms ≡ false
has-append_left name [] ns h = refl
has-append_left name (m ∷ ms) ns h =
    let parts = or-eq-false (m == name) (has name (ms ++ ns)) h in
    rw parts.0 (has-append_left name ms ns parts.1)

pub Distinct-append_left : (ms ns : List String) → Distinct (ms ++ ns) → Distinct ms
Distinct-append_left [] ns d = tt
Distinct-append_left (m ∷ ms) ns d = (has-append_left m ms ns d.0, Distinct-append_left ms ns d.1)

pub has-append :
    (name : String) (ms ns : List String) → has name (ms ++ ns) ≡ (has name ms || has name ns)
has-append name [] ns = refl
has-append name (m ∷ ms) ns = elim (Bool-cases (m == name)) [
  | inl hit ↦ rw hit
  | inr miss ↦ rw miss (has-append name ms ns)
]

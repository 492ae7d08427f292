-- ===== src/Relations/Outcome.antt =====
-- The object `TypeCheckerRelations` as a state: its two memo tables. A method returns with a new
-- state, fails an assertion, or runs out of the model's fuel.
use bosque_core.Prelude.{String, Bool, Option, none, some, List, [], ◌∷◌, ◌==◌, if◌then◌else◌}

-- A `Map<string, boolean>`; `Map.get` and `Map.set`, where a key set anew goes in front.
abbrev pub Memo : Type 0
Memo = List (String × Bool)

unfoldable pub lookup : String → Memo → Option Bool
lookup k [] = none
lookup k ((j, b) ∷ m) = if j == k then some b else lookup k m

pub record RelState : Type 0 where
  pub equal : Memo
  pub subtype : Memo

pub data Outcome {ℓ} (A : Type ℓ) : Type ℓ where
  done : A → RelState → Outcome A
  asserted : Outcome A
  out_of_fuel : Outcome A

abbrev pub Rel {ℓ} : Type ℓ → Type ℓ
Rel A = RelState → Outcome A

module _ {ℓ} {A : Type ℓ} where
  abbrev pub pure : A → Rel A
  pure a s = done a s

  abbrev pub fail : Rel A
  fail s = asserted

  abbrev pub starve : Rel A
  starve s = out_of_fuel

module _ {ℓ κ} {A : Type ℓ} {B : Type κ} where
  abbrev pub bind : Outcome A → (A → Rel B) → Outcome B
  bind (done a s) f = f a s
  bind asserted f = asserted
  bind out_of_fuel f = out_of_fuel

  infixl 5 ◌>>=◌
  abbrev pub ◌>>=◌ : Rel A → (A → Rel B) → Rel B
  ◌>>=◌ m f s = bind (m s) f

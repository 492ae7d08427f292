-- ===== src/Checker/Sound/Ensures.antt =====
-- Postconditions of a run of the checker: the run raises an exception only where `Ok` fails; `P`
-- holds of its result, and `Q` does too where no error has been reported.
use mathlib.Core.Path.{subst}
use bosque_core.Prelude.{
  ℕ, Bool, true, false, ◌≡◌, refl, Option, none, some, List, [], ◌∷◌, ◌++◌, if◌then◌else◌,
}
use bosque_core.Checker.Report.{
  TypeError, Message, Checked, threw, checked, pure, after, ◌>>=◌, report_error, check_error,
  or_throw, asked,
}

pub data Ensures {ℓ} (Ok : Type 0) {A : Type ℓ} (P Q : A → Type 0) : Checked A → Type ℓ where
  raises : ¬ Ok → Ensures Ok P Q threw
  answers :
      {errs : List TypeError} {a : A} → P a → (errs ≡ [] → Q a) → Ensures Ok P Q (checked errs a)

-- The run raises only where `Ok` fails.
abbrev pub Runs {ℓ} : {A : Type ℓ} → Type 0 → Checked A → Type ℓ
Runs Ok m = Ensures Ok (λ _. Unit) (λ _. Unit) m

append-eq-nil : (xs ys : List TypeError) → (xs ++ ys) ≡ [] → (xs ≡ []) × (ys ≡ [])
append-eq-nil [] ys e = (refl, e)
append-eq-nil (x ∷ xs) ys e = cc

module _ {ℓ} {A : Type ℓ} {Ok : Type 0} {P Q : A → Type 0} where
  pub Ensures-weaken :
      {Ok' : Type 0} {m : Checked A} → (Ok → Ok') → Ensures Ok' P Q m → Ensures Ok P Q m
  Ensures-weaken f (raises h) = raises (λ o. h (f o))
  Ensures-weaken f (answers p q) = answers p q

  pub Ensures-map :
      {P' Q' : A → Type 0} {m : Checked A}
      → ((a : A) → P' a → P a)
      → ((a : A) → P' a → Q' a → Q a)
      → Ensures Ok P' Q' m
      → Ensures Ok P Q m
  Ensures-map f g (raises h) = raises h
  Ensures-map f g (answers {errs} {a} p q) = answers (f a p) (λ e. g a p (q e))

module _ {ℓ} {A : Type ℓ} {Ok : Type 0} {P Q : A → Type 0} where
  -- The postcondition where errors have been reported before.
  pub Ensures-after :
      (errs : List TypeError) {m : Checked A}
      → Ensures Ok P (λ a. errs ≡ [] → Q a) m
      → Ensures Ok P Q (after errs m)
  Ensures-after errs (raises h) = raises h
  Ensures-after errs (answers {errs = more} p q) =
      answers p
        (λ e. let (none_before, none_more) = append-eq-nil errs more e in q none_more none_before)

  pub Ensures-bind {κ} :
      {B : Type κ} {P' Q' : B → Type 0} {m : Checked B} {f : B → Checked A}
      → Ensures Ok P' Q' m
      → ((b : B) → P' b → Ensures Ok P (λ a. Q' b → Q a) (f b))
      → Ensures Ok P Q (m >>= f)
  Ensures-bind (raises h) k = raises h
  Ensures-bind (answers {errs} {a} p q) k =
      Ensures-after errs (Ensures-map (λ a x. x) (λ a x y e. y (q e)) (k a p))

  pub Ensures-then {κ} :
      {B : Type κ} {m : Checked B} {f : B → Checked A}
      → Runs Ok m
      → ((b : B) → Ensures Ok P Q (f b))
      → Ensures Ok P Q (m >>= f)
  Ensures-then r k = Ensures-bind r (λ b _. Ensures-map (λ a x. x) (λ a x y _. y) (k b))

  pub Ensures-pure : (a : A) → P a → Q a → Ensures Ok P Q (pure a)
  Ensures-pure a p q = answers p (λ _. q)

  pub Ensures-or_throw :
      (o : Option A)
      → (o ≡ none → ¬ Ok)
      → ((a : A) → o ≡ some a → P a × Q a)
      → Ensures Ok P Q (or_throw o)
  unfolding or_throw
  Ensures-or_throw none stuck went = raises (stuck refl)
  Ensures-or_throw (some a) stuck went = answers (went a refl).0 (λ _. (went a refl).1)

  pub Ensures-if :
      (b : Bool) {m n : Checked A}
      → (b ≡ true → Ensures Ok P Q m)
      → (b ≡ false → Ensures Ok P Q n)
      → Ensures Ok P Q (if b then m else n)
  Ensures-if true h k = h refl
  Ensures-if false h k = k refl

  -- After a report nothing is promised of `Q`.
  pub Ensures-reported :
      (line : ℕ) (msg : Message) {f : Bool → Checked A}
      → ((b : Bool) → Ensures Ok P (λ _. Unit) (f b))
      → Ensures Ok P Q (report_error line msg >>= f)
  unfolding report_error
  Ensures-reported line msg k =
      let pushed : List TypeError = record { line = line; msg = msg } ∷ [] in
      Ensures-after pushed
        (Ensures-map (λ a x. x) (λ a x _ (e : pushed ≡ []). absurd (cc)) (k true))

  pub Ensures-guard :
      (line : ℕ) (cond : Bool) (msg : Message) {f : Bool → Checked A}
      → ((b : Bool) → Ensures Ok P (λ a. cond ≡ false → Q a) (f b))
      → Ensures Ok P Q (check_error line cond msg >>= f)
  unfolding check_error
  Ensures-guard line true msg k =
      Ensures-reported line msg (λ b. Ensures-map (λ a x. x) (λ a x _. tt) (k b))
  Ensures-guard line false msg k =
      Ensures-after [] (Ensures-map (λ a x. x) (λ a x y _. y refl) (k false))

pub Runs-asked {ℓ} : {A : Type ℓ} {Ok : Type 0} (call : A × List TypeError) → Runs Ok (asked call)
unfolding asked
Runs-asked (a, errs) = answers tt (λ _. tt)

pub Runs-check_error :
    {Ok : Type 0} (line : ℕ) (cond : Bool) (msg : Message) → Runs Ok (check_error line cond msg)
unfolding check_error report_error
Runs-check_error line true msg = answers tt (λ _. tt)
Runs-check_error line false msg = answers tt (λ _. tt)

pub Runs-report_error : {Ok : Type 0} (line : ℕ) (msg : Message) → Runs Ok (report_error line msg)
unfolding report_error
Runs-report_error line msg = answers tt (λ _. tt)

pub Ensures-check_error :
    {Ok : Type 0} (line : ℕ) (cond : Bool) (msg : Message)
    → Ensures Ok (λ _. Unit) (λ _. cond ≡ false) (check_error line cond msg)
unfolding check_error report_error
Ensures-check_error line true msg =
    let pushed : List TypeError = record { line = line; msg = msg } ∷ [] in
    answers tt (λ (e : pushed ≡ []). absurd (cc))
Ensures-check_error line false msg = answers tt (λ _. refl)

-- A run that returns without an error has both postconditions.
pub Ensures-clean {ℓ} :
    {A : Type ℓ} {Ok : Type 0} {P Q : A → Type 0} {m : Checked A} {a : A}
    → Ensures Ok P Q m
    → m ≡ checked [] a
    → P a × Q a
Ensures-clean (raises h) eq = cc
Ensures-clean {P} {Q} {a} (answers {errs} {a = b} p q) eq =
    let no_errs : errs ≡ [] = cc in
    let same : b ≡ a = cc in (subst P same p, subst Q same (q no_errs))

-- A run returns where `Ok` holds.
pub Ensures-returned {ℓ} :
    {A : Type ℓ} {Ok : Type 0} {P Q : A → Type 0} {m : Checked A}
    → Ensures Ok P Q m
    → Ok
    → (errs : List TypeError) × (a : A) × (m ≡ checked errs a)
Ensures-returned (raises h) ok = absurd (h ok)
Ensures-returned (answers {errs} {a} p q) ok = (errs, a, refl)

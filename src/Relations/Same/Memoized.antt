-- ===== src/Relations/Same/Memoized.antt =====
-- The memo table does not change the answers of `areSameTypes`, on signatures whose keys tell apart
-- what the relation tells apart.
use bosque_core.Prelude.{
  ℕ, String, Bool, true, false, ◌≡◌, ◌≢◌, refl, sym, ◌∙◌, ap, ◌==◌, eq_iff, nat_eq, nat_eq_iff,
  ◌&&◌, some, some-injective, [], ◌∷◌, All, inl, inr, Bool-cases, Option-cases, arith,
}
use bosque_core.Types.Syntax.{
  TypeSignature, error, void, auto, template, nominal, elist, lambda, format_string, TypeSignatures,
  no_types, ty, Params, no_params, param,
}
use bosque_core.Assembly.{Declarations}
use bosque_core.Relations.Outcome.{Memo, lookup, RelState, done, Rel, pure, ◌>>=◌}
use bosque_core.Relations.Same.{
  equal_key, is_error_or_auto, through_equal_memo, guarded, and_rest, on_lengths,
}
use bosque_core.Relations.Same.Spec.{same}

-- A signature of the universe `U` with all its compared parts, none of them an error or auto.
abbrev mutual
  pub Within : (TypeSignature → Type 0) → TypeSignature → Type 0
  Within U (error ns) = ⊥
  Within U auto = ⊥
  Within U void = U void
  Within U (template name) = U (template name)
  Within U (nominal d alt ts) = U (nominal d alt ts) × WithinTypes U ts
  Within U (elist ts) = U (elist ts) × WithinTypes U ts
  Within U (lambda r n ps t) = U (lambda r n ps t) × WithinParams U ps × Within U t
  Within U (format_string o t ts) = U (format_string o t ts)

  pub WithinTypes : (TypeSignature → Type 0) → TypeSignatures → Type 0
  WithinTypes U no_types = Unit
  WithinTypes U (ty t ts) = Within U t × WithinTypes U ts

  pub WithinParams : (TypeSignature → Type 0) → Params → Type 0
  WithinParams U no_params = Unit
  WithinParams U (param n t r s ps) = Within U t × WithinParams U ps

-- Equal keys mean equal answers.
abbrev pub Faithful : Declarations → (TypeSignature → Type 0) → Type 0
Faithful ds U =
    (t u t' u' : TypeSignature)
    → U t
    → U u
    → U t'
    → U u'
    → equal_key ds t u ≡ equal_key ds t' u'
    → same t u ≡ same t' u'

abbrev pub EntryOk : Declarations → (TypeSignature → Type 0) → String × Bool → Type 0
EntryOk ds U e = (t u : TypeSignature) → U t → U u → equal_key ds t u ≡ e.0 → same t u ≡ e.1

-- Every entry of the table is the answer for all signatures of the universe that have its key.
abbrev pub MemoOk : Declarations → (TypeSignature → Type 0) → Memo → Type 0
MemoOk ds U = All (EntryOk ds U)

lookup-EntryOk :
    (ds : Declarations) (U : TypeSignature → Type 0) (m : Memo) (k : String) (b : Bool)
    → MemoOk ds U m
    → lookup k m ≡ some b
    → EntryOk ds U (k, b)
unfolding lookup
lookup-EntryOk ds U [] k b h e = cc
lookup-EntryOk ds U ((j, c) ∷ m) k b h e = elim (Bool-cases (j == k)) [
  | inl hit ↦ λ t u ht hu key.
      h.0 t u ht hu (key ∙ sym ((eq_iff j k).0 hit)) ∙ some-injective c b (rw hit at e)
  | inr miss ↦ lookup-EntryOk ds U m k b h.1 (rw miss at e)
]

-- From a sound table the method returns `b` and leaves a sound table.
pub record Computes (ds : Declarations) (U : TypeSignature → Type 0) (m : Rel Bool) (b : Bool)
    : Type 0 where
  pub run :
      (s : RelState)
      → MemoOk ds U s.equal
      → (s' : RelState) × (m s ≡ done b s') × MemoOk ds U s'.equal × (s'.subtype ≡ s.subtype)

module _ (ds : Declarations) (U : TypeSignature → Type 0) where
  pub Computes-pure : (b : Bool) → Computes ds U (pure b) b
  Computes-pure b = record { run = λ s h. (s, refl, h, refl) }

  pub Computes-bind :
      {m : Rel Bool} {b c : Bool} (f : Bool → Rel Bool)
      → Computes ds U m b
      → Computes ds U (f b) c
      → Computes ds U (m >>= f) c
  Computes-bind f hm hf = record {
    run = λ s h.
        let (s1, e1, h1, k1) = hm.run s h in
        let (s2, e2, h2, k2) = hf.run s1 h1 in (s2, rw e1 e2, h2, k2 ∙ k1);
  }

  pub Computes-and_rest :
      {m : Rel Bool} {c : Bool} (b : Bool)
      → (b ≡ true → Computes ds U m c)
      → Computes ds U (and_rest b m) (b && c)
  unfolding and_rest
  Computes-and_rest true h = record { run = (h refl).run }
  Computes-and_rest false h = record { run = λ s ok. (s, refl, ok, refl) }

  pub Computes-on_lengths :
      {loop : Rel Bool} {b : Bool} (n m : ℕ)
      → (n ≡ m → Computes ds U loop b)
      → (n ≢ m → b ≡ false)
      → Computes ds U (on_lengths n m loop) b
  unfolding on_lengths and_rest
  Computes-on_lengths {b} n m equal differ = elim (Bool-cases (nat_eq n m)) [
    | inl e ↦ record { run = λ s h. rw e ((equal ((nat_eq_iff n m).0 e)).run s h) }
    | inr e ↦ record {
      run = λ s h. (
        s,
        rw e (ap (λ x. done x s) (sym (differ (λ p. ground (arith, nat_eq_iff n m))))),
        h,
        refl,
      );
    }
  ]

module _ (ds : Declarations) (U : TypeSignature → Type 0) (faithful : Faithful ds U) where
  pub Computes-through_equal_memo :
      (t u : TypeSignature) {m : Rel Bool}
      → U t
      → U u
      → Computes ds U m (same t u)
      → Computes ds U (through_equal_memo (equal_key ds t u) m) (same t u)
  unfolding through_equal_memo
  Computes-through_equal_memo t u {m} ht hu hm = record {
    run = λ s h. elim (Option-cases (lookup (equal_key ds t u) s.equal)) [
      | inl e ↦
          let (s', run, h', k) = hm.run s h in
          (
            record s' { equal = (equal_key ds t u, same t u) ∷ s'.equal },
            rw (e, through_equal_memo) (rw run refl),
            ((λ t' u' ht' hu' key. faithful t' u' t u ht' hu' ht hu key), h'),
            k,
          )
      | inr (b, e) ↦ (
        s,
        rw (e, through_equal_memo)
            (ap (λ x. done x s) (sym (lookup-EntryOk ds U s.equal _ b h e t u ht hu refl))),
        h,
        refl,
      )
    ];
  }

  pub Computes-guarded :
      (t u : TypeSignature) {m : Rel Bool}
      → is_error_or_auto t ≡ false
      → is_error_or_auto u ≡ false
      → U t
      → U u
      → Computes ds U m (same t u)
      → Computes ds U (guarded ds t u m) (same t u)
  unfolding guarded
  Computes-guarded t u et eu ht hu hm = record {
    run = λ s h. rw (et, eu) ((Computes-through_equal_memo t u ht hu hm).run s h);
  }

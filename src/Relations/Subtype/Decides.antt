-- ===== src/Relations/Subtype/Decides.antt =====
-- Methods of the checker's relations that return from sound tables with a decision.
use bosque_core.Prelude.{
  Bool, true, false, ◌≡◌, refl, sym, ◌∙◌, some, some-injective, [], ◌∷◌, String, ◌==◌, eq_iff,
  Bool-cases, Option-cases, inl, inr, ◌⊎◌, ◌↔◌, subst, All,
}
use bosque_core.Types.Syntax.{TypeSignature}
use bosque_core.Types.Constraints.{TemplateConstraintScope}
use bosque_core.Assembly.{Declarations}
use bosque_core.Relations.Outcome.{Memo, lookup, RelState, done, Rel, pure, ◌>>=◌}
use bosque_core.Relations.Same.Memoized.{Within}
use bosque_core.Relations.Subtype.{subtype_key, memoize_subtype, through_subtype_memo, or_rest}
use bosque_core.Relations.Subtype.Spec.{IsSubtype, SubtypeEntryOk, StateOk}

-- From sound tables the method returns, keeps the tables sound, and answers true exactly when `P`.
pub record Decides (ds : Declarations) (c : TemplateConstraintScope) (U : TypeSignature → Type 0)
    (m : Rel Bool) (P : Type 0) : Type 0 where
  pub run :
      (s : RelState)
      → StateOk ds c U s
      → (b : Bool) × (s' : RelState) × (m s ≡ done b s') × StateOk ds c U s' × ((b ≡ true) ↔ P)

module _ (ds : Declarations) (c : TemplateConstraintScope) (U : TypeSignature → Type 0) where
  pub Decides-pure : {P : Type 0} (b : Bool) → ((b ≡ true) ↔ P) → Decides ds c U (pure b) P
  Decides-pure b h = record { run = λ s ok. (b, s, refl, ok, h) }

  pub Decides-false : {P : Type 0} → (P → ⊥) → Decides ds c U (pure false) P
  Decides-false h = Decides-pure false (λ e. cc, λ p. absurd (h p))

  pub Decides-bind :
      {P Q : Type 0} (m : Rel Bool) (f : Bool → Rel Bool)
      → Decides ds c U m Q
      → ((b : Bool) → ((b ≡ true) ↔ Q) → Decides ds c U (f b) P)
      → Decides ds c U (m >>= f) P
  Decides-bind m f hm hf = record {
    run = λ s ok.
        let (b1, s1, e1, ok1, q) = hm.run s ok in
        let (b2, s2, e2, ok2, p) = (hf b1 q).run s1 ok1 in (b2, s2, rw e1 e2, ok2, p);
  }

  pub Decides-iff :
      {P Q : Type 0} (m : Rel Bool) → (P ↔ Q) → Decides ds c U m P → Decides ds c U m Q
  Decides-iff m h hm = record {
    run = λ s ok.
        let (b, s', e, ok', p) = hm.run s ok in
        (b, s', e, ok', (λ y. h.0 (p.0 y), λ q. p.1 (h.1 q)));
  }

  pub Decides-or_rest :
      {P Q : Type 0} (b : Bool) (rest : Rel Bool)
      → ((b ≡ true) ↔ Q)
      → Decides ds c U rest P
      → Decides ds c U (or_rest b rest) (Q ⊎ P)
  unfolding or_rest
  Decides-or_rest true rest q hr = record {
    run = λ s ok. (true, s, refl, ok, (λ e. inl (q.0 refl), λ h. refl));
  }
  Decides-or_rest false rest q hr = record {
    run = λ s ok.
        let (b, s', e, ok', p) = hr.run s ok in
        (b, s', e, ok', (λ y. inr (p.0 y), elim [ inl h ↦ cc (q.1 h) | inr h ↦ p.1 h ]));
  }

  lookup-SubtypeEntryOk :
      (m : Memo) (k : String) (b : Bool)
      → All (SubtypeEntryOk ds c U) m
      → lookup k m ≡ some b
      → SubtypeEntryOk ds c U (k, b)
  unfolding lookup
  lookup-SubtypeEntryOk [] k b h e = cc
  lookup-SubtypeEntryOk ((j, d) ∷ m) k b h e = elim (Bool-cases (j == k)) [
    | inl hit ↦ λ t u ht hu key.
        subst (λ x. (x ≡ true) ↔ IsSubtype ds c t u) (some-injective d b (rw hit at e))
          (h.0 t u ht hu (key ∙ sym ((eq_iff j k).0 hit)))
    | inr miss ↦ lookup-SubtypeEntryOk m k b h.1 (rw miss at e)
  ]

  pub Decides-through_subtype_memo :
      (t u : TypeSignature) (m : Rel Bool)
      → ((t' u' : TypeSignature)
          → Within U t'
          → Within U u'
          → subtype_key ds t u ≡ subtype_key ds t' u'
          → IsSubtype ds c t u ↔ IsSubtype ds c t' u')
      → Within U t
      → Within U u
      → Decides ds c U m (IsSubtype ds c t u)
      → Decides ds c U (through_subtype_memo (subtype_key ds t u) m) (IsSubtype ds c t u)
  unfolding through_subtype_memo memoize_subtype
  Decides-through_subtype_memo t u m faithful ht hu hm = record {
    run = λ s ok. elim (Option-cases (lookup (subtype_key ds t u) s.subtype)) [
      | inl absent ↦
          let (b, s', ran, ok', p) = hm.run s ok in
          let entry : SubtypeEntryOk ds c U (subtype_key ds t u, b) = λ t' u' ht' hu' key.
            let f = faithful t' u' ht' hu' (sym key) in (λ y. f.0 (p.0 y), λ q. p.1 (f.1 q)) in
          (
            b,
            record s' { subtype = (subtype_key ds t u, b) ∷ s'.subtype },
            rw (absent, through_subtype_memo) (rw ran refl),
            (ok'.0, (entry, ok'.1)),
            p,
          )
      | inr (b, found) ↦ (
        b,
        s,
        rw (found, through_subtype_memo) refl,
        ok,
        lookup-SubtypeEntryOk s.subtype (subtype_key ds t u) b ok.1 found t u ht hu refl,
      )
    ];
  }

-- ===== src/Relations/Same/Correct.antt =====
-- `areSameTypes` with its memo table computes the relation `same`.
use bosque_core.Prelude.{suc, Bool, true, false, ◌≡◌, ◌≢◌, refl, ap, nat_eq, ◌&&◌, ◌==◌, arith}
use mathlib.Core.Bool.{and-false}
use bosque_core.Types.Syntax.{
  TypeSignature, error, void, auto, template, nominal, elist, lambda, format_string, TypeSignatures,
  no_types, ty, Params, no_params, param,
}
use bosque_core.Assembly.{Declarations}
use bosque_core.Relations.Outcome.{RelState, done, Rel}
use bosque_core.Relations.Same.{
  is_error_or_auto, guarded, length_types, length_params, name_eq, bool_eq, are_same_types,
  are_same_entries, are_same_params,
}
use bosque_core.Relations.Same.Spec.{same, same_entries, same_params}
use bosque_core.Relations.Same.Memoized.{
  Within, WithinTypes, WithinParams, Faithful, MemoOk, Computes, Computes-pure, Computes-bind,
  Computes-and_rest, Computes-on_lengths, Computes-guarded,
}

same_entries-lengths :
    (ts us : TypeSignatures) → length_types ts ≢ length_types us → same_entries ts us ≡ false
unfolding same length_types
same_entries-lengths no_types no_types h = absurd (h refl)
same_entries-lengths (ty t ts) (ty u us) h =
    simp (same_entries-lengths ts us (λ e. h (ap suc e)), and-false)
same_entries-lengths ts us h = refl

same_params-lengths :
    (ps qs : Params) → length_params ps ≢ length_params qs → same_params ps qs ≡ false
unfolding same length_params
same_params-lengths no_params no_params h = absurd (h refl)
same_params-lengths (param n t r s ps) (param m u r' s' qs) h =
    simp (same_params-lengths ps qs (λ e. h (ap suc e)), and-false)
same_params-lengths ps qs h = refl

module _ (ds : Declarations) (U : TypeSignature → Type 0) (faithful : Faithful ds U) where
  Within-ok : (t : TypeSignature) → Within U t → (is_error_or_auto t ≡ false) × U t
  unfolding is_error_or_auto
  Within-ok void h = (refl, h)
  Within-ok (template name) h = (refl, h)
  Within-ok (nominal d alt ts) h = (refl, h.0)
  Within-ok (elist ts) h = (refl, h.0)
  Within-ok (lambda r n ps t) h = (refl, h.0)
  Within-ok (format_string o t ts) h = (refl, h)
  Within-ok (error ns) h = absurd h
  Within-ok auto h = absurd h

  Computes-compared :
      (t u : TypeSignature) {m : Rel Bool}
      → Within U t
      → Within U u
      → Computes ds U m (same t u)
      → Computes ds U (guarded ds t u m) (same t u)
  Computes-compared t u ht hu h =
      let (et, wt) = Within-ok t ht in
      let (eu, wu) = Within-ok u hu in Computes-guarded ds U faithful t u et eu wt wu h

  mutual
    unfolding same are_same_types length_types length_params

    are_same_types-Computes :
        (t u : TypeSignature)
        → Within U t
        → Within U u
        → Computes ds U (are_same_types ds t u) (same t u)
    are_same_types-Computes void void ht hu =
        Computes-compared void void ht hu (Computes-pure ds U true)
    are_same_types-Computes (template a) (template b) ht hu =
        Computes-compared (template a) (template b) ht hu (Computes-pure ds U (a == b))
    are_same_types-Computes (nominal d alt1 ts) (nominal e alt2 us) ht hu =
        Computes-compared (nominal d alt1 ts) (nominal e alt2 us) ht hu (
          Computes-and_rest ds U (nat_eq d e) (λ _.
            Computes-on_lengths ds U (length_types ts) (length_types us)
              (are_same_entries-Computes ts us ht.1 hu.1) (same_entries-lengths ts us)))
    are_same_types-Computes (elist ts) (elist us) ht hu =
        Computes-compared (elist ts) (elist us) ht hu (
          Computes-on_lengths ds U (length_types ts) (length_types us)
            (are_same_entries-Computes ts us ht.1 hu.1) (same_entries-lengths ts us))
    are_same_types-Computes (lambda r1 n1 ps t) (lambda r2 n2 qs u) ht hu =
        Computes-compared (lambda r1 n1 ps t) (lambda r2 n2 qs u) ht hu (
          Computes-and_rest ds U (name_eq n1 n2) (λ _.
            Computes-bind ds U _
              (Computes-on_lengths ds U (length_params ps) (length_params qs)
                (are_same_params-Computes ps qs ht.1 hu.1) (same_params-lengths ps qs))
              (Computes-bind ds U _ (are_same_types-Computes t u ht.2 hu.2)
                (Computes-pure ds U _))))
    are_same_types-Computes t u ht hu = Computes-compared t u ht hu (Computes-pure ds U false)

    are_same_entries-Computes :
        (ts us : TypeSignatures)
        → WithinTypes U ts
        → WithinTypes U us
        → length_types ts ≡ length_types us
        → Computes ds U (are_same_entries ds ts us) (same_entries ts us)
    are_same_entries-Computes (ty t ts) (ty u us) ht hu e =
        Computes-bind ds U _ (are_same_types-Computes t u ht.0 hu.0) (
          Computes-and_rest ds U (same t u)
            (λ _. are_same_entries-Computes ts us ht.1 hu.1 (omega (arith, e))))
    are_same_entries-Computes no_types no_types ht hu e = Computes-pure ds U true
    are_same_entries-Computes no_types (ty u us) ht hu e = absurd (omega (arith, e))
    are_same_entries-Computes (ty t ts) no_types ht hu e = absurd (omega (arith, e))

    are_same_params-Computes :
        (ps qs : Params)
        → WithinParams U ps
        → WithinParams U qs
        → length_params ps ≡ length_params qs
        → Computes ds U (are_same_params ds ps qs) (same_params ps qs)
    are_same_params-Computes (param n t r s ps) (param m u r' s' qs) ht hu e =
        Computes-and_rest ds U (bool_eq r r' && bool_eq s s') (λ _.
          Computes-bind ds U _ (are_same_types-Computes t u ht.0 hu.0) (
            Computes-and_rest ds U (same t u)
              (λ _. are_same_params-Computes ps qs ht.1 hu.1 (omega (arith, e)))))
    are_same_params-Computes no_params no_params ht hu e = Computes-pure ds U true
    are_same_params-Computes no_params (param m u r' s' qs) ht hu e = absurd (omega (arith, e))
    are_same_params-Computes (param n t r s ps) no_params ht hu e = absurd (omega (arith, e))

  -- On signatures of a universe whose keys tell apart what the relation tells apart, and that holds
  -- no error or auto at a compared place, `areSameTypes` returns from any sound table, with the
  -- answer of the relation; its table stays sound and the subtype table is not touched.
  pub are_same_types_lem :
      (t u : TypeSignature) (s : RelState)
      → Within U t
      → Within U u
      → MemoOk ds U s.equal
      → (s' : RelState) × (are_same_types ds t u s ≡ done (same t u) s')
        × MemoOk ds U s'.equal
        × (s'.subtype ≡ s.subtype)
  are_same_types_lem t u s ht hu h = (are_same_types-Computes t u ht hu).run s h

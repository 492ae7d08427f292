-- ===== src/Relations/Same/Erasure.antt =====
-- Two signatures are the same when they are equal once what `areSameTypes` ignores is erased.
use bosque_core.Prelude.{
  Bool, true, false, ◌≡◌, refl, sym, ◌∙◌, ◌↔◌, nat_eq, ◌&&◌, arith, eq_iff, nat_eq_refl, nat_eq_iff,
  str_eq_refl, none, and_true,
}
use bosque_core.Types.Syntax.{
  LambdaName, fn, pred, rec_no, TypeSignature, error, void, auto, template, nominal, elist, lambda,
  format_string, TypeSignatures, no_types, ty, Params, no_params, param,
}
use bosque_core.Relations.Same.{name_eq, bool_eq}
use bosque_core.Relations.Same.Spec.{
  same, same_entries, same_params, IsComparable, AreComparable, AreComparableParams,
}

unfoldable mutual
  pub erase : TypeSignature → TypeSignature
  erase (nominal d alt ts) = nominal d none (erase_types ts)
  erase (elist ts) = elist (erase_types ts)
  erase (lambda r n ps t) = lambda rec_no n (erase_params ps) (erase t)
  erase t = t

  pub erase_types : TypeSignatures → TypeSignatures
  erase_types no_types = no_types
  erase_types (ty t ts) = ty (erase t) (erase_types ts)

  pub erase_params : Params → Params
  erase_params no_params = no_params
  erase_params (param n t r s ps) = param none (erase t) r s (erase_params ps)

name_eq_refl : (n : LambdaName) → name_eq n n ≡ true
unfolding name_eq
name_eq_refl fn = refl
name_eq_refl pred = refl

bool_eq_refl : (b : Bool) → bool_eq b b ≡ true
unfolding bool_eq
bool_eq_refl true = refl
bool_eq_refl false = refl

name_eq→eq : (n m : LambdaName) → name_eq n m ≡ true → n ≡ m
unfolding name_eq
name_eq→eq fn fn h = refl
name_eq→eq n m h = ground arith

bool_eq→eq : (b c : Bool) → bool_eq b c ≡ true → b ≡ c
unfolding bool_eq
bool_eq→eq true c h = sym h
bool_eq→eq false c h = ground arith

mutual
  unfolding same

  pub same_self : (t : TypeSignature) → IsComparable t → same t t ≡ true
  same_self void h = refl
  same_self (template name) h = str_eq_refl name
  same_self (nominal d alt ts) h = rw (nat_eq_refl, same_entries_self ts h)
  same_self (elist ts) h = same_entries_self ts h
  same_self (lambda r n ps t) h = rw (name_eq_refl, same_params_self ps h.0, same_self t h.1)
  same_self (error ns) h = absurd h
  same_self auto h = absurd h
  same_self (format_string o t ts) h = absurd h

  same_entries_self : (ts : TypeSignatures) → AreComparable ts → same_entries ts ts ≡ true
  same_entries_self no_types h = refl
  same_entries_self (ty t ts) h = rw (same_self t h.0, same_entries_self ts h.1)

  same_params_self : (ps : Params) → AreComparableParams ps → same_params ps ps ≡ true
  same_params_self no_params h = refl
  same_params_self (param n t r s ps) h =
      simp (bool_eq_refl, same_self t h.0, same_params_self ps h.1)

mutual
  unfolding same erase

  same-erase : (t u : TypeSignature) → same (erase t) (erase u) ≡ same t u
  same-erase (nominal d alt1 ts) (nominal e alt2 us) = rw (same_entries-erase ts us)
  same-erase (elist ts) (elist us) = same_entries-erase ts us
  same-erase (lambda r n ps t) (lambda r' m qs u) = rw (same_params-erase ps qs, same-erase t u)
  same-erase void void = refl
  same-erase (template a) (template b) = refl
  same-erase (error ns) void = refl
  same-erase auto void = refl
  same-erase (format_string o t ts) void = refl
  same-erase t u = refl

  same_entries-erase :
      (ts us : TypeSignatures) → same_entries (erase_types ts) (erase_types us) ≡ same_entries ts us
  same_entries-erase (ty t ts) (ty u us) = rw (same-erase t u, same_entries-erase ts us)
  same_entries-erase no_types no_types = refl
  same_entries-erase ts us = refl

  same_params-erase :
      (ps qs : Params) → same_params (erase_params ps) (erase_params qs) ≡ same_params ps qs
  same_params-erase (param n t r s ps) (param m u r' s' qs) =
      rw (same-erase t u, same_params-erase ps qs)
  same_params-erase no_params no_params = refl
  same_params-erase ps qs = refl

mutual
  unfolding same erase

  same→erase : (t u : TypeSignature) → same t u ≡ true → erase t ≡ erase u
  same→erase void void h = refl
  same→erase (template a) (template b) h = cc ((eq_iff a b).0 h)
  same→erase (nominal d alt1 ts) (nominal e alt2 us) h =
      let parts = and_true (nat_eq d e) _ h in
      cc ((nat_eq_iff d e).0 parts.0, same_entries→erase ts us parts.1)
  same→erase (elist ts) (elist us) h = cc (same_entries→erase ts us h)
  same→erase (lambda r n ps t) (lambda r' m qs u) h =
      let outer = and_true (name_eq n m) _ h in
      let inner = and_true (same_params ps qs) _ outer.1 in
      cc (name_eq→eq n m outer.0, same_params→erase ps qs inner.0, same→erase t u inner.1)
  same→erase t u h = cc

  same_entries→erase :
      (ts us : TypeSignatures) → same_entries ts us ≡ true → erase_types ts ≡ erase_types us
  same_entries→erase no_types no_types h = refl
  same_entries→erase (ty t ts) (ty u us) h =
      let parts = and_true (same t u) _ h in
      cc (same→erase t u parts.0, same_entries→erase ts us parts.1)
  same_entries→erase ts us h = cc

  same_params→erase :
      (ps qs : Params) → same_params ps qs ≡ true → erase_params ps ≡ erase_params qs
  same_params→erase no_params no_params h = refl
  same_params→erase (param n t r s ps) (param m u r' s' qs) h =
      let outer = and_true (bool_eq r r' && bool_eq s s') _ h in
      let flags = and_true (bool_eq r r') _ outer.0 in
      let inner = and_true (same t u) _ outer.1 in
      cc (
        bool_eq→eq r r' flags.0,
        bool_eq→eq s s' flags.1,
        same→erase t u inner.0,
        same_params→erase ps qs inner.1,
      )
  same_params→erase ps qs h = cc

-- A signature with no error, auto or format string at a place that is compared is the same as
-- another exactly when the two are equal up to alternative namespaces, recursive annotations and
-- parameter names.
pub same_iff-erase :
    (t u : TypeSignature) → IsComparable t → (same t u ≡ true) ↔ (erase t ≡ erase u)
same_iff-erase t u h =
    (same→erase t u, λ e. sym (same-erase t u) ∙ (rw (← e) (same-erase t t ∙ same_self t h)))

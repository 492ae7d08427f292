-- ===== src/Relations/Same.antt =====
-- `areSameTypes`, `areSameTypeSignatureLists` and `areSameFunctionParamLists` of
-- src/frontend/checker_relations.ts, with their memo table.
pub mod Spec
pub mod Memoized
pub mod Correct
pub mod Erasure
pub mod Answers
use Prim.Native.String.{◌++◌}
use bosque_core.Prelude.{
  ℕ, suc, String, Bool, true, false, Option, none, some, ◌==◌, nat_eq, ◌&&◌, ◌||◌, not,
  if◌then◌else◌, ◌∷◌,
}
use bosque_core.Types.Syntax.{
  LambdaName, fn, pred, TypeSignature, error, void, auto, template, nominal, elist, lambda,
  format_string, TypeSignatures, no_types, ty, Params, no_params, param,
}
use bosque_core.Types.Keys.{tkeystr}
use bosque_core.Assembly.{Declarations}
use bosque_core.Relations.Outcome.{
  Memo, lookup, RelState, Outcome, done, asserted, Rel, pure, fail, bind, ◌>>=◌,
}

unfoldable pub equal_key : Declarations → TypeSignature → TypeSignature → String
equal_key ds t1 t2 = "(" ++ tkeystr ds t1 ++ " <> " ++ tkeystr ds t2 ++ ")"

-- The two assertions, on one signature.
unfoldable pub is_error_or_auto : TypeSignature → Bool
is_error_or_auto (error ns) = true
is_error_or_auto auto = true
is_error_or_auto _ = false

unfoldable pub name_eq : LambdaName → LambdaName → Bool
name_eq fn fn = true
name_eq pred pred = true
name_eq _ _ = false

unfoldable pub bool_eq : Bool → Bool → Bool
bool_eq true b = b
bool_eq false b = not b

unfoldable pub length_types : TypeSignatures → ℕ
length_types no_types = 0
length_types (ty t ts) = suc (length_types ts)

unfoldable pub length_params : Params → ℕ
length_params no_params = 0
length_params (param name t is_ref is_rest ps) = suc (length_params ps)

-- `memoizedTypeEqualRelation.set(kstr, res); return res;`
unfoldable pub memoize_equal : String → Bool → Rel Bool
memoize_equal kstr res s = done res (record s { equal = (kstr, res) ∷ s.equal })

-- The memo is asked first, and a computed answer is put into it.
unfoldable pub through_equal_memo : String → Rel Bool → Rel Bool
unfolding memoize_equal
through_equal_memo kstr compute s = elim (lookup kstr s.equal) [
  | some memoval ↦ done memoval s
  | none ↦ bind (compute s) (memoize_equal kstr)
]

-- What `areSameTypes` does around the comparison of two signatures.
unfoldable pub guarded : Declarations → TypeSignature → TypeSignature → Rel Bool → Rel Bool
unfolding is_error_or_auto
guarded ds t1 t2 compute =
    if is_error_or_auto t1 || is_error_or_auto t2
    then fail
    else through_equal_memo (equal_key ds t1 t2) compute

-- `if(!areSame…) return false;` in a loop, with the rest of the loop
unfoldable pub and_rest : Bool → Rel Bool → Rel Bool
and_rest true rest s = rest s
and_rest false rest s = done false s

-- `if(tl1.length !== tl2.length) return false;` before a loop
unfoldable pub on_lengths : ℕ → ℕ → Rel Bool → Rel Bool
unfolding and_rest
on_lengths n m loop = and_rest (nat_eq n m) loop

unfoldable mutual
  pub are_same_types : Declarations → TypeSignature → TypeSignature → Rel Bool
  are_same_types ds void void = guarded ds void void (pure true)
  are_same_types ds (template a) (template b) = guarded ds (template a) (template b) (pure (a == b))
  are_same_types ds (nominal d alt1 as1) (nominal e alt2 as2) =
      guarded ds (nominal d alt1 as1) (nominal e alt2 as2) (
        and_rest (nat_eq d e)
          (on_lengths (length_types as1) (length_types as2) (are_same_entries ds as1 as2)))
  are_same_types ds (elist es1) (elist es2) =
      guarded ds (elist es1) (elist es2)
        (on_lengths (length_types es1) (length_types es2) (are_same_entries ds es1 es2))
  are_same_types ds (lambda r1 n1 ps1 res1) (lambda r2 n2 ps2 res2) =
      guarded ds (lambda r1 n1 ps1 res1) (lambda r2 n2 ps2 res2) (
        and_rest (name_eq n1 n2) (do
          okargs ← on_lengths (length_params ps1) (length_params ps2) (are_same_params ds ps1 ps2)
          okres ← are_same_types ds res1 res2
          pure (okargs && okres)))
  are_same_types ds t1 t2 = guarded ds t1 t2 (pure false)

  -- the loop of `areSameTypeSignatureLists`, over two arrays of one length
  pub are_same_entries : Declarations → TypeSignatures → TypeSignatures → Rel Bool
  are_same_entries ds (ty t ts) (ty u us) = do
    same ← are_same_types ds t u
    and_rest same (are_same_entries ds ts us)
  are_same_entries ds no_types us = pure true
  are_same_entries ds (ty t ts) no_types = pure false

  -- the loop of `areSameFunctionParamLists`
  pub are_same_params : Declarations → Params → Params → Rel Bool
  are_same_params ds (param n t r s ps) (param m u r' s' qs) =
      and_rest (bool_eq r r' && bool_eq s s')
        (do same ← are_same_types ds t u; and_rest same (are_same_params ds ps qs))
  are_same_params ds no_params qs = pure true
  are_same_params ds (param n t r s ps) no_params = pure false

unfoldable pub are_same_type_signature_lists :
    Declarations → TypeSignatures → TypeSignatures → Rel Bool
are_same_type_signature_lists ds tl1 tl2 =
    on_lengths (length_types tl1) (length_types tl2) (are_same_entries ds tl1 tl2)

-- ===== src/Tests/ResultSplitTests.antt =====
-- `splitOnOk` and `splitOnErr` of a result whose parts are `Void` and `(|Void, Void|)`.
use bosque_core.Prelude.{ℕ, zero, suc, ◌≡◌, refl, some, none, [], ◌∷◌, true, false}
use bosque_core.Types.Syntax.{TypeSignature, void, nominal, ty, no_types}
use bosque_core.Assembly.{DeclKind, Declarations, ok_decl, fail_decl, result_decl, entity}
use bosque_core.Relations.Outcome.{RelState, done, bind, pure}
use bosque_core.Relations.Same.Memoized.{MemoOk}
use bosque_core.Relations.Split.{CoreTypes}
use bosque_core.Relations.ResultSplit.{split_on_ok, split_on_err}
use bosque_core.Relations.ResultSplit.Agree.{turned, split_on_err-agrees}
use bosque_core.Relations.ResultSplit.Decomposed.{split_on_ok_lem}
use bosque_core.Tests.RelationsTests.{pair, IsSmall, IsSmall-Faithful, no_memo}

abbrev kind_of : ℕ → DeclKind
kind_of zero = result_decl
kind_of (suc zero) = ok_decl
kind_of (suc (suc zero)) = fail_decl
kind_of _ = entity

abbrev core_decls : Declarations
core_decls n = record {
  kind = kind_of n;
  attributes = [];
  ns = record { ns = "Core" ∷ [] };
  name = "Result";
  terms = [];
  provides = [];
}

abbrev core : CoreTypes
core = record { some_decl = 3; ok_decl = 1; fail_decl = 2; none_type = nominal 4 none no_types }

abbrev result_type : TypeSignature
result_type = nominal 0 none (ty void (ty pair no_types))

split_on_ok_lem_example :
    (s' : RelState) × (split_on_ok core_decls core result_type no_memo
      ≡ done (some (record { overlap_ok_t = some void; remain_err_e = some pair })) s')
    × MemoOk core_decls IsSmall s'.equal
    × (s'.subtype ≡ [])
split_on_ok_lem_example =
    split_on_ok_lem core_decls core IsSmall 0 none void pair no_memo (IsSmall-Faithful core_decls)
      refl refl refl (true, refl) ((false, refl), ((true, refl), ((true, refl), tt))) tt
      (tt, (tt, tt)) tt

split_on_err-agrees_example :
    split_on_err core_decls core result_type no_memo
    ≡ bind (split_on_ok core_decls core result_type no_memo) (λ r. pure (turned r))
split_on_err-agrees_example = split_on_err-agrees core_decls core result_type no_memo

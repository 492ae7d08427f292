-- ===== src/ParserState/Scan/Semicolon.antt =====
-- `scanOverSemiDelimitedDeclaration` ends.
use bosque_core.Prelude.{
  String, Bool, true, false, ◌≡◌, refl, some, [], ◌∷◌, ◌==◌, Bool-cases, inl, inr,
}
use bosque_core.ParserState.{
  Parser, peek_token_kind, test_token, consume_token, test_and_consume_token_if,
}
use bosque_core.ParserState.Scan.{done, scan_over_semi_delimited_declaration}
use bosque_core.ParserState.Scan.Window.{IsOk, advanced}
use bosque_core.ParserState.Scan.Restores.{peek_token-there}
use bosque_core.ParserState.Scan.Bounds.{scan_to_kw_opts_in_declaration-find_stop}
use bosque_core.ParserState.Scan.Braces.{
  Moved, Moved-refl, Moved-trans, Moved-consume_token, IsOk-Moved,
}

-- Testing for a kind and consuming it moves forward by a token or not at all.
test_and_consume-Moved :
    (p : Parser) (kind : String)
    → IsOk p
    → (b : Bool) × (q : Parser) × (test_and_consume_token_if p kind ≡ some (b, q)) × Moved p q
unfolding test_and_consume_token_if test_token peek_token_kind
test_and_consume-Moved p kind ok =
    let (t, there) = peek_token-there p ok in
    elim (Bool-cases (t.kind == kind)) [
      | inl hit ↦ (
        true,
        consume_token p,
        rw (there, test_and_consume_token_if, test_token, peek_token_kind) (rw hit refl),
        Moved-consume_token p ok,
      )
      | inr miss ↦ (
        false,
        p,
        rw (there, test_and_consume_token_if, test_token, peek_token_kind) (rw miss refl),
        Moved-refl p ok,
      )
    ]

-- With the parser inside its tokens, which end with an end of stream,
-- `scanOverSemiDelimitedDeclaration` ends without an exception. It moves the position of the current
-- state forward, not past its end, and changes nothing else.
pub scan_over_semi_delimited_declaration_lem :
    (p : Parser)
    → IsOk p
    → (q : Parser) × (scan_over_semi_delimited_declaration p ≡ done q) × Moved p q × IsOk q
unfolding scan_over_semi_delimited_declaration
scan_over_semi_delimited_declaration_lem p ok =
    let (k, went, _, ok') = scan_to_kw_opts_in_declaration-find_stop p (";" ∷ []) ok in
    let (b, q, tested, moved) = test_and_consume-Moved (advanced p k) ";" ok' in
    let all : Moved p q = Moved-trans p (advanced p k) q (k, refl, ok'.ordered) moved in
    (
      q,
      rw (went, scan_over_semi_delimited_declaration) (rw tested refl),
      all,
      IsOk-Moved p q ok all,
    )

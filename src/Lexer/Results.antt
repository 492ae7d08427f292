-- ===== src/Lexer/Results.antt =====
-- What `lex` of src/frontend/parser.ts returns.
pub mod Modes
use Prim.Native.String.{String}
use bosque_core.Prelude.{
  ℕ, suc, ◌+◌, ◌-◌, ◌≤◌, ◌<◌, Bool, true, false, ◌≡◌, refl, sym, ◌∙◌, Option, none, some, List, [],
  ◌∷◌, ◌++◌, arith, Bool-cases, inl, inr, subst, if◌then◌else◌, nat_eq, nat_eq_iff, append-nil, ap,
  difference,
}
use bosque_core.ParserState.Syntax.{Token}
use bosque_core.Lexer.Text.{size}
use bosque_core.Lexer.State.{
  Lexer, create, is_live, token_to, record_lex_token, push_token, advance_position,
}
use bosque_core.Lexer.Loop.{lex, lex_loop, lex_end, run_macro}
use bosque_core.Lexer.Steps.{IsValid, Stepped}
use bosque_core.Lexer.Steps.Loop.{Passes, Passes-later, lex_loop_inv}

-- The tokens lie one after the other between two positions.
abbrev pub AreOrdered : ℕ → List Token → ℕ → Type 0
AreOrdered from [] to = from ≤ to
AreOrdered from (t ∷ ts) to = (from ≤ t.pos) × AreOrdered (t.pos + t.span) ts to

AreOrdered-append :
    (from : ℕ) (ts : List Token) (t : Token) (to : ℕ)
    → AreOrdered from ts t.pos
    → t.pos + t.span ≤ to
    → AreOrdered from (ts ++ t ∷ []) to
AreOrdered-append from [] t to h low = (h, low)
AreOrdered-append from (u ∷ ts) t to h low =
    (h.0, AreOrdered-append (u.pos + u.span) ts t to h.1 low)

AreOrdered-later :
    (from : ℕ) (ts : List Token) (to later : ℕ)
    → AreOrdered from ts to
    → to ≤ later
    → AreOrdered from ts later
AreOrdered-later from [] to later h low = omega arith
AreOrdered-later from (t ∷ ts) to later h low =
    (h.0, AreOrdered-later (t.pos + t.span) ts to later h.1 low)

abbrev InOrder : Lexer → Type 0
InOrder l = AreOrdered 0 l.tokens l.js_str_pos

Stepped-InOrder : {l l' : Lexer} → Stepped l l' → InOrder l → InOrder l'
Stepped-InOrder {l} {l'} h p = elim h.tokens [
  | inl same ↦
      subst (λ ts. AreOrdered 0 ts l'.js_str_pos) (sym same)
        (AreOrdered-later 0 l.tokens l.js_str_pos l'.js_str_pos p (omega (arith, h.later)))
  | inr (t, added, at_pos, spans, live) ↦
      subst (λ ts. AreOrdered 0 ts l'.js_str_pos) (sym added)
        (AreOrdered-append 0 l.tokens t l'.js_str_pos
          (subst (λ p. AreOrdered 0 l.tokens p) (sym at_pos) p) (omega (arith, spans)))
]

Passes-InOrder : (l l' : Lexer) → IsValid l → InOrder l → Passes l l' → InOrder l'
Passes-InOrder l l' valid p (inl h) = Stepped-InOrder h p
Passes-InOrder l l' valid p (inr (op, m, h, same, e)) = subst InOrder (sym e) (Stepped-InOrder h p)

pub create-IsValid :
    (iscore : Bool) (srcfile input : String) (lstart : ℕ) (macrodefs : List String)
    → IsValid (create iscore srcfile input lstart macrodefs)
unfolding create
create-IsValid iscore srcfile input lstart macrodefs = record { ends = refl; inside = omega arith }

-- The token of kind `[EOS]` at the position `n`.
abbrev eos_token : ℕ → ℕ → ℕ → Token
eos_token n line linestart = record {
  line = line;
  column = difference n linestart;
  pos = n;
  span = 0;
  kind = "[EOS]";
  data_text = some "[EOS]";
}

-- It stands behind the tokens where the last scan mode is enabled.
abbrev pub end_tokens : ℕ → Lexer → List Token
end_tokens n l = if is_live l.scanmode then eos_token n l.cline l.linestart ∷ [] else []

sub_self : (n : ℕ) → n - n ≡ 0
sub_self n = omega arith

eos_token_lem :
    (l : Lexer) (n : ℕ)
    → l.js_str_pos ≡ n
    → token_to n "[EOS]" "[EOS]" l ≡ eos_token n l.cline l.linestart
eos_token_lem l n e =
    ap
      (λ p. record {
        line = l.cline;
        column = difference p l.linestart;
        pos = p;
        span = n - p;
        kind = "[EOS]";
        data_text = some "[EOS]";
      })
      e
    ∙ ap (λ q. record (eos_token n l.cline l.linestart) { span = q }) (sub_self n)

lex_end-tokens :
    (l : Lexer)
    → l.js_str_pos ≡ l.js_str_end
    → l.js_str_pos ≡ size l.input
    → (lex_end l).tokens ≡ l.tokens ++ end_tokens (size l.input) (lex_end l)
unfolding lex_end record_lex_token push_token
lex_end-tokens l at_end at_size =
    let stops = (nat_eq_iff l.js_str_pos l.js_str_end).1 at_end in
    elim (Bool-cases (is_live l.scanmode)) [
      | inl live ↦
          rw (stops, live)
            (rw live (ap (λ t. l.tokens ++ t ∷ []) (eos_token_lem l (size l.input) at_size)))
      | inr off ↦ rw (stops, off) (rw (off, append-nil) refl)
    ]

-- On every input `lex` returns. The tokens before the end lie one after the other inside the input,
-- none over another, and behind them stands a token `[EOS]` at the end of the input exactly when the
-- last scan mode is enabled.
pub lex-AreOrdered :
    (iscore : Bool) (srcfile input : String) (lstart : ℕ) (macrodefs : List String)
    → (l : Lexer) × (ts : List Token) × (lex (create iscore srcfile input lstart macrodefs)
        ≡ some l)
      × AreOrdered 0 ts (size input)
      × (l.tokens ≡ ts ++ end_tokens (size input) l)
unfolding lex create
lex-AreOrdered iscore srcfile input lstart macrodefs =
    let start = create iscore srcfile input lstart macrodefs in
    let (l, ran, valid, at_end, same, ordered) =
      lex_loop_inv InOrder Passes-InOrder (suc (size input)) start
        (create-IsValid iscore srcfile input lstart macrodefs) (omega arith) (omega arith) in
    let at_size : l.js_str_pos ≡ size l.input = at_end ∙ valid.ends in
    (
      lex_end l,
      l.tokens,
      rw (lex, ran) refl,
      subst (λ p. AreOrdered 0 l.tokens p) (at_size ∙ ap size same) ordered,
      subst (λ n. (lex_end l).tokens ≡ l.tokens ++ end_tokens n (lex_end l)) (ap size same)
          (lex_end-tokens l at_end at_size),
    )

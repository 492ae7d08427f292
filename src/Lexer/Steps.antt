-- ===== src/Lexer/Steps.antt =====
-- What one attempt of the lexer changes: it consumes characters of the input and records at most one
-- token, which stands for what it consumed.
pub mod Reading
pub mod Numbers
pub mod Quotes
pub mod Words
pub mod Attributes
pub mod Loop
use Prim.Native.String.{String}
use bosque_core.Prelude.{
  ℕ, ◌+◌, ◌-◌, ◌≤◌, ◌<◌, Bool, true, false, ◌≡◌, refl, sym, ◌∙◌, ◌⊎◌, inl, inr, Option, none, some,
  List, [], ◌∷◌, ◌++◌, arith, Bool-cases, Option-cases, some-injective, if◌then◌else◌, nat_eq, ap,
}
use bosque_core.ParserState.Syntax.{SourceInfo, Token}
use bosque_core.Lexer.Text.{size, drop}
use bosque_core.Lexer.Text.Sizes.{size-drop}
use bosque_core.Lexer.Regex.{Regex, consumes, match_length}
use bosque_core.Lexer.Regex.Bounds.{match_length_bounds}
use bosque_core.Lexer.State.{
  LexerStateScanMode, Lexer, ahead, trylex, is_live, push_error, push_token, record_lex_token,
  record_lex_token_w_data, update_position_info, token_to, advance_position,
}

pub record IsValid (l : Lexer) : Type 0 where
  pub ends : l.js_str_end ≡ size l.input
  pub inside : l.js_str_pos ≤ l.js_str_end

-- The same but for the errors and the line.
pub record Keeps (l m : Lexer) : Type 0 where
  pub input : m.input ≡ l.input
  pub js_str_end : m.js_str_end ≡ l.js_str_end
  pub macrodefs : m.macrodefs ≡ l.macrodefs
  pub scanmode : m.scanmode ≡ l.scanmode
  pub js_str_pos : m.js_str_pos ≡ l.js_str_pos
  pub tokens : m.tokens ≡ l.tokens

-- No token, or one for what lies between the two positions.
abbrev pub Records : Lexer → Lexer → Type 0
Records l l' =
    (l'.tokens ≡ l.tokens)
    ⊎ ((t : Token) × (l'.tokens ≡ l.tokens ++ t ∷ [])
        × (t.pos ≡ l.js_str_pos)
        × (t.pos + t.span ≡ l'.js_str_pos)
        × (is_live l.scanmode ≡ true))

pub record Stepped (l l' : Lexer) : Type 0 where
  pub input : l'.input ≡ l.input
  pub js_str_end : l'.js_str_end ≡ l.js_str_end
  pub macrodefs : l'.macrodefs ≡ l.macrodefs
  pub scanmode : l'.scanmode ≡ l.scanmode
  pub later : l.js_str_pos < l'.js_str_pos
  pub inside : l'.js_str_pos ≤ l.js_str_end
  pub tokens : Records l l'

-- Every answer true is a step.
abbrev pub Steps : (Lexer → Option Lexer) → Type 0
Steps attempt =
    (l l' : Lexer) → IsValid l → l.js_str_pos < l.js_str_end → attempt l ≡ some l' → Stepped l l'

pub Keeps-refl : (l : Lexer) → Keeps l l
Keeps-refl l = record {
  input = refl;
  js_str_end = refl;
  macrodefs = refl;
  scanmode = refl;
  js_str_pos = refl;
  tokens = refl;
}

pub Keeps-trans : {l m n : Lexer} → Keeps l m → Keeps m n → Keeps l n
Keeps-trans h k = record {
  input = k.input ∙ h.input;
  js_str_end = k.js_str_end ∙ h.js_str_end;
  macrodefs = k.macrodefs ∙ h.macrodefs;
  scanmode = k.scanmode ∙ h.scanmode;
  js_str_pos = k.js_str_pos ∙ h.js_str_pos;
  tokens = k.tokens ∙ h.tokens;
}

pub push_error-Keeps :
    (sinfo : SourceInfo) (message : String) (l : Lexer) → Keeps l (push_error sinfo message l)
unfolding push_error
push_error-Keeps sinfo message l = elim (Bool-cases (is_live l.scanmode)) [
  | inl live ↦ rw live (record {
    input = refl;
    js_str_end = refl;
    macrodefs = refl;
    scanmode = refl;
    js_str_pos = refl;
    tokens = refl;
  })
  | inr off ↦ rw off (Keeps-refl l)
]

pub update_position_info-Keeps : (i j : ℕ) (l : Lexer) → Keeps l (update_position_info i j l)
unfolding update_position_info
update_position_info-Keeps i j l = record {
  input = refl;
  js_str_end = refl;
  macrodefs = refl;
  scanmode = refl;
  js_str_pos = refl;
  tokens = refl;
}

-- An attempt on a state that differs in its errors only.
pub Stepped-Keeps : {l m l' : Lexer} → Keeps l m → Stepped m l' → Stepped l l'
Stepped-Keeps {l} {m} {l'} k h = record {
  input = h.input ∙ k.input;
  js_str_end = h.js_str_end ∙ k.js_str_end;
  macrodefs = h.macrodefs ∙ k.macrodefs;
  scanmode = h.scanmode ∙ k.scanmode;
  later = omega (arith, h.later, k.js_str_pos);
  inside = omega (arith, h.inside, k.js_str_end);
  tokens = elim h.tokens [
    | inl same ↦ inl (same ∙ k.tokens)
    | inr (t, added, at_pos, spans, live) ↦ inr (
      t,
      added ∙ ap (λ (ts : List Token). ts ++ t ∷ []) k.tokens,
      at_pos ∙ k.js_str_pos,
      spans,
      ap is_live (sym k.scanmode) ∙ live,
    )
  ];
}

pub Keeps-IsValid : {l m : Lexer} → Keeps l m → IsValid l → IsValid m
Keeps-IsValid k v = record {
  ends = k.js_str_end ∙ v.ends ∙ ap size (sym k.input);
  inside = omega (arith, k.js_str_pos, k.js_str_end, v.inside);
}

pub Stepped-IsValid : {l l' : Lexer} → Stepped l l' → IsValid l → IsValid l'
Stepped-IsValid h v = record {
  ends = h.js_str_end ∙ v.ends ∙ ap size (sym h.input);
  inside = omega (arith, h.inside, h.js_str_end);
}

-- To move on without a token.
pub advance-Stepped :
    {l m : Lexer} (j : ℕ)
    → Keeps l m
    → l.js_str_pos < j
    → j ≤ l.js_str_end
    → Stepped l (advance_position j m)
advance-Stepped j k later inside = record {
  input = k.input;
  js_str_end = k.js_str_end;
  macrodefs = k.macrodefs;
  scanmode = k.scanmode;
  later = later;
  inside = inside;
  tokens = inl k.tokens;
}

pub record_w_data-Stepped :
    {l m : Lexer} (j : ℕ) (kind text : String)
    → Keeps l m
    → l.js_str_pos < j
    → j ≤ l.js_str_end
    → Stepped l (record_lex_token_w_data j kind text m)
unfolding record_lex_token_w_data push_token
record_w_data-Stepped {l} {m} j kind text k later inside = elim (Bool-cases (is_live m.scanmode)) [
  | inr off ↦ rw off (advance-Stepped j k later inside)
  | inl live ↦ rw live (record {
    input = k.input;
    js_str_end = k.js_str_end;
    macrodefs = k.macrodefs;
    scanmode = k.scanmode;
    later = later;
    inside = inside;
    tokens = inr (
      token_to j kind text m,
      ap (λ (ts : List Token). ts ++ token_to j kind text m ∷ []) k.tokens,
      k.js_str_pos,
      omega (arith, k.js_str_pos),
      rw (k.scanmode) at live,
    );
  })
]

pub record-Stepped :
    {l m : Lexer} (j : ℕ) (kind : String)
    → Keeps l m
    → l.js_str_pos < j
    → j ≤ l.js_str_end
    → Stepped l (record_lex_token j kind m)
unfolding record_lex_token record_lex_token_w_data
record-Stepped j kind k later inside = record_w_data-Stepped j kind kind k later inside

-- A match of a consuming expression moves on inside the input.
pub trylex_bounds :
    (re : Regex) (l : Lexer) (n : ℕ)
    → IsValid l
    → consumes re ≡ true
    → trylex re l ≡ some n
    → (l.js_str_pos < l.js_str_pos + n) × (l.js_str_pos + n ≤ l.js_str_end)
unfolding trylex
trylex_bounds re l n v c h =
    let (low, high) = match_length_bounds re (ahead l) n c h in
    (omega arith, omega (arith, size-drop l.js_str_pos l.input, v.ends, v.inside))

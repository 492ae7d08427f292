-- ===== src/Lexer/Results/Modes.antt =====
-- The scan modes of the lexer of src/frontend/parser.ts nest: what stands inside a condition that is
-- off is off.
use Prim.Native.String.{String}
use bosque_core.Prelude.{
  ℕ, ◌<◌, Bool, true, false, ◌≡◌, refl, sym, List, [], ◌∷◌, Bool-cases, inl, inr, subst, has, All,
  nat_eq,
}
use bosque_core.Lexer.State.{
  LexerStateScanMode, disabled, Lexer, create, is_enabled, is_live, record_lex_token, push_token,
}
use bosque_core.Lexer.Loop.{
  MacroOp, if_op, else_op, endif_op, if_mode, else_mode, step_scanmode, lex_end, lex_step,
}
use bosque_core.Lexer.Steps.{IsValid}
use bosque_core.Lexer.Steps.Loop.{Passes, Passes-IsValid, lex_step-Passes}
use bosque_core.Lexer.Results.{create-IsValid}

-- Behind a mode that is off stands the mode `Disabled` only. The innermost mode stands first.
abbrev pub AreNested : List LexerStateScanMode → Type 0
AreNested [] = Unit
AreNested (mode ∷ []) = Unit
AreNested (mode ∷ outer ∷ modes) =
    (is_enabled outer ≡ false → mode ≡ disabled) × AreNested (outer ∷ modes)

AreNested-push :
    (mode : LexerStateScanMode) (modes : List LexerStateScanMode)
    → (is_live modes ≡ false → mode ≡ disabled)
    → AreNested modes
    → AreNested (mode ∷ modes)
unfolding is_live
AreNested-push mode [] h nested = tt
AreNested-push mode (outer ∷ modes) h nested = (h, nested)

AreNested-pop :
    (mode : LexerStateScanMode) (modes : List LexerStateScanMode)
    → AreNested (mode ∷ modes)
    → AreNested modes
AreNested-pop mode [] nested = tt
AreNested-pop mode (outer ∷ modes) nested = nested.1

else_mode-disabled : (mode : LexerStateScanMode) → mode ≡ disabled → else_mode mode ≡ disabled
unfolding else_mode
else_mode-disabled mode e = rw e refl

if_mode-off : (live : Bool) (cond_ : Bool) → live ≡ false → if_mode live cond_ ≡ disabled
unfolding if_mode
if_mode-off live cond_ e = rw e refl

pub step-AreNested :
    (defs : List String) (op : MacroOp) (modes : List LexerStateScanMode)
    → AreNested modes
    → AreNested (step_scanmode defs op modes)
unfolding step_scanmode
step-AreNested defs (if_op name) modes nested =
    AreNested-push (if_mode (is_live modes) (has name defs)) modes
      (if_mode-off (is_live modes) (has name defs)) nested
step-AreNested defs else_op [] nested = tt
step-AreNested defs else_op (mode ∷ []) nested = tt
step-AreNested defs else_op (mode ∷ outer ∷ modes) nested =
    (λ off. else_mode-disabled mode (nested.0 off), nested.1)
step-AreNested defs endif_op [] nested = tt
step-AreNested defs endif_op (mode ∷ modes) nested = AreNested-pop mode modes nested

Passes-AreNested :
    (l l' : Lexer) → IsValid l → AreNested l.scanmode → Passes l l' → AreNested l'.scanmode
Passes-AreNested l l' valid p (inl h) = subst AreNested (sym h.scanmode) p
Passes-AreNested l l' valid p (inr (op, m, h, same, e)) =
    subst (λ x. AreNested x.scanmode) (sym e)
      (step-AreNested m.macrodefs op m.scanmode (subst AreNested (sym h.scanmode) p))

disabled-not_enabled : (mode : LexerStateScanMode) → is_enabled mode ≡ true → mode ≡ disabled → ⊥
unfolding is_enabled
disabled-not_enabled mode on e = cc (rw e at on)

-- Where the innermost mode is on, all are.
live-All :
    (modes : List LexerStateScanMode)
    → AreNested modes
    → is_live modes ≡ true
    → All (λ m. is_enabled m ≡ true) modes
unfolding is_live
live-All [] nested live = cc
live-All (mode ∷ []) nested live = (live, tt)
live-All (mode ∷ outer ∷ modes) nested live = elim (Bool-cases (is_enabled outer)) [
  | inl on ↦ (live, live-All (outer ∷ modes) nested.1 on)
  | inr off ↦ absurd (disabled-not_enabled mode live (nested.0 off))
]

end-scanmode : (l : Lexer) → (lex_end l).scanmode ≡ l.scanmode
unfolding lex_end record_lex_token push_token
end-scanmode l = elim (Bool-cases (nat_eq l.js_str_pos l.js_str_end)) [
  | inr more ↦ rw more refl
  | inl stops ↦ elim (Bool-cases (is_live l.scanmode)) [
    | inl live ↦ rw (stops, live) refl
    | inr off ↦ rw (stops, off) refl
  ]
]

-- A state between two passes of the loop.
pub data Reaches (start : Lexer) : Lexer → Type 0 where
  at_start : Reaches start start
  pass : {l : Lexer} → Reaches start l → l.js_str_pos < l.js_str_end → Reaches start (lex_step l)

Reaches-keeps :
    (start : Lexer)
    → IsValid start
    → AreNested start.scanmode
    → (l : Lexer) → Reaches start l
    → IsValid l × AreNested l.scanmode
Reaches-keeps start valid nested _ at_start = (valid, nested)
Reaches-keeps start valid nested _ (pass {l} before more) =
    let (v, n) = Reaches-keeps start valid nested l before in
    let passes = lex_step-Passes l v more in
    (Passes-IsValid passes v, Passes-AreNested l (lex_step l) v n passes)

-- Between any two passes over any input: where the innermost scan mode is on, that of every condition
-- around it is on too.
pub Reaches-live :
    (iscore : Bool) (srcfile input : String) (lstart : ℕ) (macrodefs : List String) (l : Lexer)
    → Reaches (create iscore srcfile input lstart macrodefs) l
    → is_live l.scanmode ≡ true
    → All (λ m. is_enabled m ≡ true) l.scanmode
unfolding create
Reaches-live iscore srcfile input lstart macrodefs l reached live =
    live-All l.scanmode
      (Reaches-keeps (create iscore srcfile input lstart macrodefs)
        (create-IsValid iscore srcfile input lstart macrodefs) tt l reached).1
      live

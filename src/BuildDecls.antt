-- ===== src/BuildDecls.antt =====
-- Build levels and the code formatter of src/frontend/build_decls.ts.
use Prim.Native.String
use bosque_core.Prelude.{
  ℕ, zero, suc, String, Bool, true, false, ◌||◌, ◌≡◌, refl, sym, ◌∙◌, Option, none, some, ℤ, pos,
  negsuc, succ, pred, leb, if◌then◌else◌, arith,
}

pub data BuildLevel : Type 0 where
  spec : BuildLevel
  debug : BuildLevel
  test : BuildLevel
  release : BuildLevel
  safety : BuildLevel

-- `check === level`
abbrev pub level_eq : BuildLevel → BuildLevel → Bool
level_eq spec spec = true
level_eq debug debug = true
level_eq test test = true
level_eq release release = true
level_eq safety safety = true
level_eq _ _ = false

unfoldable pub is_build_level_enabled : BuildLevel → BuildLevel → Bool
is_build_level_enabled check enabled =
    if level_eq enabled safety
    then true
    else if level_eq enabled spec
    then (level_eq check spec
        || level_eq check debug
        || level_eq check test
        || level_eq check release)
    else if level_eq enabled debug
    then (level_eq check debug || level_eq check test || level_eq check release)
    else if level_eq enabled test
    then (level_eq check test || level_eq check release)
    else level_eq check release

-- How much a level checks.
abbrev pub rank : BuildLevel → ℕ
rank release = 0
rank test = 1
rank debug = 2
rank spec = 3
rank safety = 4

is_build_level_enabled-rank :
    (check enabled : BuildLevel)
    → is_build_level_enabled check enabled ≡ leb (rank check) (rank enabled)
unfolding is_build_level_enabled
is_build_level_enabled-rank spec spec = refl
is_build_level_enabled-rank spec debug = refl
is_build_level_enabled-rank spec test = refl
is_build_level_enabled-rank spec release = refl
is_build_level_enabled-rank spec safety = refl
is_build_level_enabled-rank debug spec = refl
is_build_level_enabled-rank debug debug = refl
is_build_level_enabled-rank debug test = refl
is_build_level_enabled-rank debug release = refl
is_build_level_enabled-rank debug safety = refl
is_build_level_enabled-rank test spec = refl
is_build_level_enabled-rank test debug = refl
is_build_level_enabled-rank test test = refl
is_build_level_enabled-rank test release = refl
is_build_level_enabled-rank test safety = refl
is_build_level_enabled-rank release spec = refl
is_build_level_enabled-rank release debug = refl
is_build_level_enabled-rank release test = refl
is_build_level_enabled-rank release release = refl
is_build_level_enabled-rank release safety = refl
is_build_level_enabled-rank safety spec = refl
is_build_level_enabled-rank safety debug = refl
is_build_level_enabled-rank safety test = refl
is_build_level_enabled-rank safety release = refl
is_build_level_enabled-rank safety safety = refl

leb_trans : (a b c : ℕ) → leb a b ≡ true → leb b c ≡ true → leb a c ≡ true
leb_trans a b c h k = ground (arith, h, k)

leb_refl : (a : ℕ) → leb a a ≡ true
leb_refl a = ground arith

-- What a level enables, each level that enables this one enables too, and every level enables itself.
-- One level is enabled under another exactly when its rank is at most the other's, in the order
-- release, test, debug, spec, safety.
pub is_build_level_enabled_lem :
    (check enabled higher : BuildLevel)
    → is_build_level_enabled check enabled ≡ true
    → is_build_level_enabled enabled higher ≡ true
    → (is_build_level_enabled check higher ≡ true)
      × (is_build_level_enabled check check ≡ true)
      × (is_build_level_enabled higher check ≡ leb (rank higher) (rank check))
is_build_level_enabled_lem check enabled higher h k = (
  rw (is_build_level_enabled-rank check higher) (
      leb_trans _ _ _ (sym (is_build_level_enabled-rank check enabled) ∙ h)
        (sym (is_build_level_enabled-rank enabled higher) ∙ k)),
  rw (is_build_level_enabled-rank check check) (leb_refl (rank check)),
  is_build_level_enabled-rank higher check,
)

-- The level of `CodeFormatter` may become negative.
unfoldable pub indent_push : ℤ → ℤ
indent_push level = succ level

unfoldable pub indent_pop : ℤ → ℤ
indent_pop level = pred level

-- `s.repeat(n)`
unfoldable pub repeat : ℕ → String → String
repeat zero s = ""
repeat (suc n) s = String.◌++◌ s (repeat n s)

-- `none` is the `RangeError` of a negative count.
unfoldable pub indent : ℤ → String → Option String
indent (pos n) code = some (String.◌++◌ (repeat n "    ") code)
indent (negsuc n) code = none

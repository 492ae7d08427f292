-- ===== src/Lexer/Text/Sizes.antt =====
-- Sizes of slices, and where a search finds.
use Prim.Native.Char.{code}
use Prim.Native.String.{String}
use bosque_core.Prelude.{
  ℕ, zero, suc, ◌+◌, ◌-◌, ◌≤◌, true, ◌≡◌, refl, some, arith, nat_eq, Bool-cases, Option-cases,
  and_true, some-injective, inl, inr,
}
use bosque_core.Lexer.Text.{size, drop, take, slice, starts_with, find, index_of}

pub size-drop : (n : ℕ) (s : String) → size (drop n s) ≡ size s - n
unfolding size drop
size-drop zero s = omega arith
size-drop (suc n) String.[] = omega arith
size-drop (suc n) (String.◌∷◌ c s) = omega (arith, size-drop n s)

pub size-take : (n : ℕ) (s : String) → n ≤ size s → size (take n s) ≡ n
unfolding size take
size-take zero s h = refl
size-take (suc n) String.[] h = absurd (omega arith)
size-take (suc n) (String.◌∷◌ c s) h = omega (arith, size-take n s (omega arith))

pub size-slice : (s : String) (i j : ℕ) → i ≤ j → j ≤ size s → size (slice s i j) ≡ j - i
unfolding slice
size-slice s i j h k = size-take (j - i) (drop i s) (omega (arith, size-drop i s))

pub starts_with-size : (v s : String) → starts_with v s ≡ true → size v ≤ size s
unfolding size starts_with
starts_with-size String.[] s h = omega arith
starts_with-size (String.◌∷◌ c v) String.[] h = cc
starts_with-size (String.◌∷◌ c v) (String.◌∷◌ d s) h =
    omega (arith, starts_with-size v s (and_true (nat_eq (code c) (code d)) (starts_with v s) h).1)

find_bounds : (v s : String) (i : ℕ) → find v s ≡ some i → i + size v ≤ size s
unfolding find size
find_bounds v String.[] i h = elim (Bool-cases (starts_with v String.[])) [
  | inl hit ↦ ground (arith, starts_with-size v String.[] hit)
  | inr miss ↦ cc (rw miss at h)
]
find_bounds v (String.◌∷◌ c s) i h = elim (Bool-cases (starts_with v (String.◌∷◌ c s))) [
  | inl hit ↦ ground (arith, starts_with-size v (String.◌∷◌ c s) hit)
  | inr miss ↦ elim (Option-cases (find v s)) [
    | inl absent ↦ cc (rw (miss, absent) at h)
    | inr (k, found) ↦
        omega (arith, find_bounds v s k found, some-injective (suc k) i (rw (miss, found) at h))
  ]
]

pub index_of_bounds :
    (v s : String) (from i : ℕ)
    → from ≤ size s
    → index_of v s from ≡ some i
    → (from ≤ i) × (i + size v ≤ size s)
unfolding index_of
index_of_bounds v s from i low h = elim (Option-cases (find v (drop from s))) [
  | inl absent ↦ cc (rw (index_of, absent) at h)
  | inr (k, found) ↦
      let at_i = some-injective (from + k) i (rw (index_of, found) at h) in
      (omega arith, omega (arith, find_bounds v (drop from s) k found, size-drop from s))
]

-- ===== src/Types/Namespace.antt =====
-- `FullyQualifiedNamespace` of src/frontend/type.ts, and the joining of names.
use Prim.Native.String.{◌++◌}
use bosque_core.Prelude.{
  String, Bool, true, false, ◌≡◌, refl, ◌↔◌, ◌&&◌, List, [], ◌∷◌, ◌==◌, eq_iff, if◌then◌else◌,
  and_true, nat_eq, nat_eq_refl, length, str_eq_refl,
}
use bosque_core.Types.Syntax.{FullyQualifiedNamespace}

-- `xs.join(sep)`
unfoldable pub join : String → List String → String
join sep [] = ""
join sep (x ∷ []) = x
join sep (x ∷ y ∷ xs) = x ++ sep ++ join sep (y ∷ xs)

-- The scope that the names of a namespace give: without the leading "Core".
unfoldable pub scope : List String → String
unfolding join
scope [] = ""
scope (n ∷ ns) = if n == "Core" then join "::" ns else join "::" (n ∷ ns)

unfoldable pub emit : FullyQualifiedNamespace → String
unfolding scope
emit f = scope f.ns

-- The loop of `areSame`, over two arrays of one length.
unfoldable pub same_names : List String → List String → Bool
same_names [] [] = true
same_names (m ∷ ms) (n ∷ ns) = m == n && same_names ms ns
same_names _ _ = false

unfoldable pub are_same : FullyQualifiedNamespace → FullyQualifiedNamespace → Bool
unfolding same_names
are_same ns1 ns2 = nat_eq (length ns1.ns) (length ns2.ns) && same_names ns1.ns ns2.ns

same_names_self : (ms : List String) → same_names ms ms ≡ true
unfolding same_names
same_names_self [] = refl
same_names_self (m ∷ ms) = rw (str_eq_refl, same_names_self ms)

same_names→eq : (ms ns : List String) → same_names ms ns ≡ true → ms ≡ ns
unfolding same_names
same_names→eq [] [] h = refl
same_names→eq (m ∷ ms) (n ∷ ns) h =
    let parts = and_true (m == n) _ h in cc ((eq_iff m n).0 parts.0, same_names→eq ms ns parts.1)
same_names→eq [] (n ∷ ns) h = cc
same_names→eq (m ∷ ms) [] h = cc

-- `areSame` decides the equality of namespaces.
pub are_same_iff : (ns1 ns2 : FullyQualifiedNamespace) → (are_same ns1 ns2 ≡ true) ↔ (ns1 ≡ ns2)
unfolding are_same
are_same_iff ns1 ns2 = (
  (λ h. let names = same_names→eq ns1.ns ns2.ns (and_true _ _ h).1 in λ i. record { ns = names i }),
  λ e. rw e (rw (nat_eq_refl, same_names_self)),
)

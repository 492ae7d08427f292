-- ===== src/Tests/BuildDeclsTests.antt =====
-- Build levels at which the theorem on src/frontend/build_decls.ts is applied.
use bosque_core.Prelude.{true, ◌≡◌, refl, some, pos}
use bosque_core.BuildDecls.{test, debug, spec, is_build_level_enabled, indent, repeat, indent_push}

test_in_debug : is_build_level_enabled test debug ≡ true
unfolding is_build_level_enabled
test_in_debug = refl

debug_in_spec : is_build_level_enabled debug spec ≡ true
unfolding is_build_level_enabled
debug_in_spec = refl

indented_line : indent (indent_push (pos 1)) "x" ≡ some "        x"
unfolding indent repeat indent_push
indented_line = refl

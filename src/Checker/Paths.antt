-- ===== src/Checker/Paths.antt =====
-- What a statement can do when it runs, apart from the checks: the paths through it, each with its
-- end and the variables that it assigns. A condition can be true or false, an assertion can fail,
-- and where no choice of a switch or match applies the run aborts; a wildcard always applies.
use bosque_core.Prelude.{
  String, Bool, true, false, not, ◌||◌, none, some, List, [], ◌∷◌, ◌++◌, map, any, all, ◌==◌,
  if◌then◌else◌,
}
use bosque_core.Checker.Syntax.{
  Statement, statement, Tagged, variable_assignment, variable_multi_assignment, return_void,
  return_single, return_multi, if_statement, if_else, if_elif_else, switch_statement,
  match_statement, abort_statement, assert_statement, validate_statement, block_statement, Block,
  block, Statements, no_statements, next, CondFlow, no_conds, elif, SwitchFlow, no_cases,
  switch_case, MatchFlow, no_matches, match_case,
}

pub data End : Type 0 where
  falls returns aborts : End

pub record ControlPath : Type 0 where
  pub end : End
  pub assigned : List String

abbrev pub ends_at : End → ControlPath
ends_at end = record { end = end; assigned = [] }

abbrev pub falls_through : ControlPath → Bool
falls_through p = elim p.end [ falls ↦ true | returns ↦ false | aborts ↦ false ]

-- "_" stands for no variable.
abbrev pub targets : List String → List String
targets [] = []
targets (name ∷ names) = if name == "_" then targets names else name ∷ targets names

abbrev pub assigns : List String → List ControlPath
assigns names = record { end = falls; assigned = targets names } ∷ []

-- The second path after the first.
abbrev pub continue : ControlPath → ControlPath → ControlPath
continue p q = record q { assigned = p.assigned ++ q.assigned }

unfoldable pub then_paths : List ControlPath → List ControlPath → List ControlPath
then_paths [] qs = []
then_paths (p ∷ ps) qs =
    (if falls_through p then map (continue p) qs else p ∷ []) ++ then_paths ps qs

unfoldable mutual
  pub paths : Statement → List ControlPath
  paths (statement line s) = paths_tagged s

  pub paths_tagged : Tagged → List ControlPath
  paths_tagged (variable_assignment name exp) = assigns (name ∷ [])
  paths_tagged (variable_multi_assignment names init) = assigns names
  paths_tagged return_void = ends_at returns ∷ []
  paths_tagged (return_single value) = ends_at returns ∷ []
  paths_tagged (return_multi values) = ends_at returns ∷ []
  paths_tagged (if_statement cond binder b) = ends_at falls ∷ paths_block b
  paths_tagged (if_else cond binder b f) = paths_block b ++ paths_block f
  paths_tagged (if_elif_else conds f) = paths_conds conds ++ paths_block f
  paths_tagged (switch_statement sval flows) = ends_at aborts ∷ paths_cases flows
  paths_tagged (match_statement sval binder flows) = ends_at aborts ∷ paths_matches flows
  paths_tagged abort_statement = ends_at aborts ∷ []
  paths_tagged (assert_statement cond) = ends_at falls ∷ ends_at aborts ∷ []
  paths_tagged (validate_statement cond) = ends_at falls ∷ ends_at aborts ∷ []
  paths_tagged (block_statement b) = paths_block b
  paths_tagged _ = ends_at falls ∷ []

  pub paths_block : Block → List ControlPath
  paths_block (block line is_scoping body) = paths_all body

  pub paths_all : Statements → List ControlPath
  paths_all no_statements = ends_at falls ∷ []
  paths_all (next s body) = then_paths (paths s) (paths_all body)

  pub paths_conds : CondFlow → List ControlPath
  paths_conds no_conds = []
  paths_conds (elif cond b conds) = paths_block b ++ paths_conds conds

  pub paths_cases : SwitchFlow → List ControlPath
  paths_cases no_cases = []
  paths_cases (switch_case none b flows) = paths_block b
  paths_cases (switch_case (some lval) b flows) = paths_block b ++ paths_cases flows

  pub paths_matches : MatchFlow → List ControlPath
  paths_matches no_matches = []
  paths_matches (match_case none b flows) = paths_block b
  paths_matches (match_case (some mtype) b flows) = paths_block b ++ paths_matches flows

-- A path falls through.
abbrev pub may_fall : List ControlPath → Bool
may_fall ps = any falls_through ps

abbrev pub elem : String → List String → Bool
elem name names = any (λ other. other == name) names

-- The variable is defined before, or the path assigns it if it falls through.
abbrev pub path_defines : Bool → String → ControlPath → Bool
path_defines before name p = not (falls_through p) || (before || elem name p.assigned)

-- Every path that falls through leaves the variable defined.
abbrev pub all_define : List ControlPath → Bool → String → Bool
all_define ps before name = all (path_defines before name) ps

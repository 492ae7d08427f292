-- ===== src/Lib.antt =====
-- A model of the core of the Bosque compiler's front end (src/frontend), with proofs.
--
-- The front end lexes and parses Bosque files into an assembly of declarations, checks their types
-- and flow, and hands them to the emitters. The parts modelled here are the ones that the parser and
-- the checker rest on:
--   Types        the type signatures of src/frontend/type.ts: `TypeSignature` with a constructor for
--                each class, the keys (`tkeystr`) and printed forms (`emit`) in Types/Keys, the
--                namespaces in Types/Namespace, `TemplateNameMapper` and `remapTemplateBindings` in
--                Types/Mapper, and `TemplateConstraintScope` in Types/Constraints.
--   Assembly     the declarations of src/frontend/assembly.ts that the type relations read.
--   Relations    `areSameTypes` (Relations/Same), `resolveDirectProvidesDecls` (Relations/Provides),
--                `isSubtypeOf` (Relations/Subtype), the type tests on `decomposeType`
--                (Relations/Split) and those on results and options (Relations/ResultSplit,
--                Relations/OptionSplit) of src/frontend/checker_relations.ts. The object is
--                explicit: its memo tables are a state (Relations/Outcome) that each method takes
--                and returns. The type tests take `isSubtypeOf` as an argument.
--   CheckerEnv   `TypeEnvironment` of src/frontend/checker_environment.ts: its methods on one
--                environment in CheckerEnv/Operations, its merges in CheckerEnv/Merge.
--                CheckerEnv/Extends and CheckerEnv/Frames say what the methods keep.
--   Checker      the statements of src/frontend/body.ts (Checker/Syntax) and their checks in
--                src/frontend/checker.ts: on variables in Checker/Variables and Checker/Assign, on
--                returns, tests and branches in Checker/Flow, and `checkStatement` and
--                `checkBodyImplementation` in Checker/Statements. Checker/Paths says what a
--                statement can do when it runs, and Checker/Sound compares the two.
--                Checker/Captured is about a check that raises an exception.
--   ParserEnv    the scopes of src/frontend/parser_env.ts.
--   Lexer        `Lexer` of src/frontend/parser.ts: the regular expressions and a matcher for them
--                (Lexer/Regex, Lexer/Patterns), the words of src/frontend/parser_kw.ts (Lexer/Words),
--                the state and its helpers (Lexer/State), the tries (Lexer/Trivia, Literals, Quoted,
--                Names), and `lex` with the macro scan modes (Lexer/Loop). Lexer/Steps says what a
--                try changes, and Lexer/Results what `lex` returns.
--   ParserState  `ParserState` and the token helpers and scans of `Parser` in src/frontend/parser.ts,
--                with the kinds of parentheses of src/frontend/parser_kw.ts. ParserState/Scan/Search
--                says where a scan stops, by numbers of parentheses.
--   BuildDecls   build levels and the formatter of src/frontend/build_decls.ts.
--   Prelude      the library names that the modules share, tests on numbers and names, JavaScript's
--                array methods, and lemmas on them.
--   Tests        the concrete inputs at which the theorems are applied.
--
-- Conventions. A method that changes an object returns the new object. `none` is a failed assertion
-- or the exception that JavaScript raises on a property of undefined, unless a comment says that it
-- is undefined. References to declarations are numbers, since the source compares declarations by
-- reference. A search from the end of an array is a search of the reversed list. Counters that may
-- become negative are integers (Prelude/Integers), and positions are natural numbers.
--
-- Text. A character of a native string stands for a UTF-16 code unit. A try of the lexer answers
-- `none` for false, with nothing changed, and the new state for true. A regular expression is matched
-- by backtracking in JavaScript's order, and a table of expressions stands for the repeated calls.
--
-- Checks. A run of the checker answers the errors that it has pushed, in order, or an exception. The
-- checks of expressions, type tests and type signatures, which read the environment and push errors,
-- and the type relations are the fields of a record (Checker/Report) that the statements take as an
-- argument: what holds of the statements holds whatever those answer. They are taken to return. An
-- expression is the number of its node. Where the source takes a type of a failed test that is
-- undefined, the type before the test stands. The branches of a statement are passed as functions,
-- so that the recursion over the tree stands in one block (Checker/Statements).
--
-- Fuel. The loop of the lexer runs on a pass for each character and one more. The scans of
-- ParserState/Scan run on fuel: one pass for each token up to the end of the current state, and one
-- more, which is enough when the tokens end with the end of the stream.
-- `isSubtypeOf` follows constraints and provided concepts, which the source lets be circular: its fuel
-- is enough where it exceeds a rank that each such step lowers.
--
-- Not modelled: `flowTypeLUB`, the predicates on types and the member lookups of
-- src/frontend/checker_relations.ts;
-- `identicalMappings` of src/frontend/type.ts, which sorts by the locale; the grammar of
-- src/frontend/parser.ts; the checks of expressions and declarations of src/frontend/checker.ts,
-- and the fields that its statements write for the emitters; src/frontend/closed_terms.ts; and
-- the emitters, which print. The source positions of signatures are left out, since no modelled
-- operation reads them.
pub mod Prelude
pub mod Types
pub mod Assembly
pub mod Relations
pub mod CheckerEnv
pub mod Checker
pub mod ParserEnv
pub mod Lexer
pub mod ParserState
pub mod BuildDecls
pub mod Tests

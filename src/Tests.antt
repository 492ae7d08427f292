-- ===== src/Tests.antt =====
-- Concrete runs, and the inputs at which the theorems are applied.
mod TypesTests
mod RelationsTests
mod SubtypeTests
mod SplitTests
mod ResultSplitTests
mod OptionSplitTests
mod CheckerTests
mod CheckerEnvTests
mod ParserEnvTests
mod LexerTests
mod ParserStateTests
mod BuildDeclsTests

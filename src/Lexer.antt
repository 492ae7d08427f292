-- ===== src/Lexer.antt =====
-- The lexer of src/frontend/parser.ts.
pub mod Text
pub mod Regex
pub mod Words
pub mod Patterns
pub mod State
pub mod Trivia
pub mod Literals
pub mod Quoted
pub mod Names
pub mod Loop
pub mod Steps
pub mod Results
pub mod Timestamps

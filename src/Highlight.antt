-- ===== src/Highlight.antt =====
-- The LCL highlighter, examples/playground/playground_service/static/lcl-highlight.js.
pub mod Token
pub mod Match
pub mod Strings
pub mod Pattern
pub mod Lexer
pub mod Markup
pub mod Editor

-- ===== src/Highlight.antt =====
-- SyntaxHighlight.js: the tokenizer of the typed text.
pub mod Regex
pub mod Pattern
pub mod Config
pub mod Languages
pub mod Scanner
pub mod Tokenize
pub mod Lexer

-- ===== src/Sql.antt =====
-- The SQL subset of internal/sql: tokens, the lexer and the parser.
pub mod Token
pub mod Lexer
pub mod Parser
pub mod Executor

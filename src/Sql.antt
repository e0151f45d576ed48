-- ===== src/Sql.antt =====
-- sql/sql.go: the SQL front end.
pub mod Token
pub mod Lexer
pub mod Ast
pub mod Stream
pub mod Parser
pub mod Bind
pub mod Split
pub mod Eval
pub mod Select
pub mod Executor

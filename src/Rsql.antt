-- ===== src/Rsql.antt =====
-- The filter language of rsql/: lexer, parser, binder, rewriting and canonical form.
pub mod Std
pub mod Result
pub mod Method
pub mod Reports
pub mod Ast
pub mod Lex
pub mod Parse
pub mod Bound
pub mod Coerce
pub mod Schema
pub mod Tree
pub mod Canonical
pub mod Print
pub mod Tests

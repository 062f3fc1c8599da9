-- ===== src/Expression.antt =====
-- The constant expressions of src/protocyte/model.py: `_tokenize`, `_ExprParser`, and the values
-- that its operators compute.
pub mod Syntax
pub mod Parser
pub mod Tree
pub mod Number
pub mod Value
pub mod Operate
pub mod Functions
pub mod Casts
pub mod Call
pub mod Literal
pub mod Evaluate
pub mod Types
pub mod Tests

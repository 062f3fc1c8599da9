-- ===== src/Names.antt =====
-- src/protocyte/names.py: the spelling of C++ identifiers and the allocation of emitted names.
pub mod Keywords
pub mod Identifier
pub mod Spelling
pub mod Injective
pub mod Portable
pub mod Member
pub mod Scope
pub mod Allocate
pub mod Tests

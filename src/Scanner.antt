-- ===== src/Scanner.antt =====
-- src/protocyte/import_scanner.py: the lexical scan of .proto files for their imports.
pub mod Unicode
pub mod Literal
pub mod Imports
pub mod VirtualPath
pub mod Tests

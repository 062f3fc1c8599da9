-- ===== src/Parameters.antt =====
-- The plugin parameter of src/protocyte/parameters.py: its parts, the options that they make and
-- the checks of the options. A text is the list of its code points here.
pub mod Words
pub mod Text
pub mod Prefix
pub mod Options
pub mod Transport
pub mod Parse
pub mod Tests

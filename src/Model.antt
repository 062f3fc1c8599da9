-- ===== src/Model.antt =====
-- src/protocyte/model.py: the model that the C++ generator works on.
pub mod Graph
pub mod Descriptor
pub mod Integer
pub mod Files
pub mod Tests

-- ===== src/Model/Descriptor.antt =====
-- The checks of descriptors in src/protocyte/model.py: fields, messages, enums and map entries.
-- The generated classes of descriptor.proto are read through the records of Types.
pub mod Ranges
pub mod Types
pub mod Reserved
pub mod Message
pub mod Enum
pub mod Tests

-- ===== src/Init.antt =====
-- libinit: the properties that the first process sets for the variant of the device at hand.
pub mod Utils
pub mod Variant
pub mod Heap

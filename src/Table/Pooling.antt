-- ===== src/Table/Pooling.antt =====
-- The operations of a table whose keys are in the string pool, as in the default mode.
pub mod Moving
pub mod Preparing
pub mod Writing
pub mod Detaching
pub mod Removing
pub mod Tables

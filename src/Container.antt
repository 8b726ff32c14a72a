-- ===== src/Container.antt =====
-- Containers of src/libs/core: the block list behind an execution report.
pub mod StableVector

-- ===== src/Growth.antt =====
-- How large an instrumented block can get.
pub mod Build
pub mod Blocks
pub mod Passes

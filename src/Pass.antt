-- ===== src/Pass.antt =====
-- What the two versions of the pass share.
mod Defs
pub mod Walk
pub mod Calls
pub mod Init
pub mod Inert
pub mod Entry
unfoldable pub use Defs.*

-- ===== src/Text.antt =====
-- Python strings where the program walks their characters: lists of code points, with the methods
-- of `str` that the program calls.
mod Defs
mod Laws
pub use Laws.*
unfoldable pub use Defs.*

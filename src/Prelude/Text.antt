-- ===== src/Prelude/Text.antt =====
-- Rust's `str` as the list of its code points: the methods of the standard library that the
-- program calls. A text is a `List ℕ`; `len` and `bytes` go through its UTF-8 encoding.
mod Split
mod Trim
mod Trimmed
unfoldable pub use Split.*
unfoldable pub use Trim.*
pub use Trimmed.*

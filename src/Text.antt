-- ===== src/Text.antt =====
-- Go strings as lists of bytes, with what the program uses of the packages `strings` and `strconv`.
mod Basic
mod Split
mod Decimal
unfoldable pub use Basic.*
unfoldable pub use Split.*
unfoldable pub use Decimal.*

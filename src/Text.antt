-- ===== src/Text.antt =====
-- Go strings as lists of bytes, and what the program uses of package strings.
mod Equality
mod Affix
mod Split
pub mod Space
pub mod Dict
pub mod Decimal
pub mod Order
pub mod Path
unfoldable pub use Equality.*
unfoldable pub use Affix.*
unfoldable pub use Split.*

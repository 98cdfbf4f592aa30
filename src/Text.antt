-- ===== src/Text.antt =====
-- Go strings as the source uses them: a string is the list of its bytes.
mod ByteString
mod Utf8
mod Spaces
mod Case
pub mod Decimal
mod RuneString
pub mod Regexp
pub mod Ascii
unfoldable pub use ByteString.*
unfoldable pub use Utf8.*
unfoldable pub use Spaces.*
unfoldable pub use Case.*
unfoldable pub use Decimal.*
unfoldable pub use RuneString.*

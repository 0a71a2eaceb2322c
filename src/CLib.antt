-- ===== src/CLib.antt =====
-- What the program uses of the C library: strings, and printed numbers.
mod Strings
mod Print
mod Length
mod Digits
mod Scan
mod Reading
mod Hex
unfoldable pub use Strings.*
unfoldable pub use Print.*
unfoldable pub use Scan.*
pub use Length.*
pub use Digits.*
pub use Reading.*
unfoldable pub use Hex.*

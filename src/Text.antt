-- ===== src/Text.antt =====
-- Go strings: sequences of code points, with what the program uses of the standard library's
-- `strings` and `slices`.
mod Base
pub mod Sort
pub mod Strconv
pub mod Strings
unfoldable pub use Base.*

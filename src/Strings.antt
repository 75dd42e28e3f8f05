-- ===== src/Strings.antt =====
-- The functions of Go's package strings that the program calls, over byte lists. A separator is one
-- byte, as in every call of the program.
pub mod Affix
pub mod Split
pub mod Space
pub mod Clean
pub mod CleanLaws
pub mod BaseName
unfoldable pub use Affix.*
unfoldable pub use Split.*
unfoldable pub use Space.*
unfoldable pub use Clean.*
unfoldable pub use CleanLaws.*
pub use BaseName.*

-- ===== src/Base.antt =====
-- The names that the other modules share: the library's, and those of the children.
mod Names
mod Equality
mod Lists
pub mod Dict
pub mod Text
pub mod Perms
pub mod Paths
unfoldable pub use Names.*
unfoldable pub use Equality.*
pub use Lists.*

-- ===== src/Events/Equality.antt =====
-- `===` on the enumerations: by the place in the source's list.
mod Places
mod Results
mod Kinds
pub use Places.*
pub use Results.*
pub use Kinds.*

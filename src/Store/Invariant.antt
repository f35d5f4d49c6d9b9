-- ===== src/Store/Invariant.antt =====
-- The invariants that the mutators of a profile keep (the header of
-- daemon-go/internal/store/profile.go): the active selections name existing members, no two
-- subscriptions share a URL, and the routing configs have valid and distinct names and distinct ids.
pub mod Defs
mod Nodes
mod Routings
mod Kept
pub mod Ids
pub use Defs.{IsValid, Mutation, Admissible, Reach}
unfoldable pub use Defs.{apply}
pub use Kept.*

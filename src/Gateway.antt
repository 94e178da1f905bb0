-- ===== src/Gateway.antt =====
-- services/api-gateway/app: the handlers of the gateway that keep users, groups, invitations and
-- workers in its tables. The proofs are in the children.
mod Tables
mod Accounts
mod Groups
mod Invitations
mod Fleet
mod Jobs
pub mod Counting
pub mod Endings
pub mod Memberships
pub mod Soundness
pub mod Admission
pub mod Calls
pub mod Sessions
pub mod Waiting
pub mod Cancelling
pub mod Access
pub mod Outsiders
unfoldable pub use Tables.*
unfoldable pub use Accounts.*
unfoldable pub use Groups.*
unfoldable pub use Invitations.*
unfoldable pub use Fleet.*
unfoldable pub use Jobs.*

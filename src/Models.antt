-- ===== src/Models.antt =====
-- services/model-registry/app/lifecycle/manager.py and versioning/manager.py: the states of the models and
-- their versions.
mod Table
mod Managers
pub mod Queries
pub mod Latest
pub mod Family
pub mod States
unfoldable pub use Table.*
unfoldable pub use Managers.*

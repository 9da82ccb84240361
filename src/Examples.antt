-- ===== src/Examples.antt =====
-- Runs of the program's functions at concrete inputs. The children are named for what they run.
pub mod Toy
pub mod Commits
pub mod Prices
pub mod Wire
pub mod Signing
pub mod Building
pub mod Rotating
pub mod Minutes
pub mod Manifests
pub mod Posting
pub mod Pools
pub mod Responses
pub mod Opening
pub mod Turning

-- ===== src/Deployment.antt =====
-- Deployments on the device: mobile/src/deployment-protocol.ts, release-manifest.ts and
-- deployment-manager.ts.
pub mod Archive
pub mod Release
pub mod Fields
pub mod Command
pub mod Config
pub mod Accepted
pub mod Unpack
pub mod Stage
pub mod Verified
pub mod Ensure
pub mod Installed
pub mod Manager
pub mod Activation
pub mod Warranted
pub mod Waiting
pub mod Blocking
pub mod Cases
pub mod Progress
pub mod Walk
pub mod Inside
mod Tests

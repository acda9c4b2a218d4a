-- ===== src/Examples.antt =====
-- The theorems at concrete inputs.
mod Pages
mod Sources
mod Calls
mod LateData
mod Menus
mod Deletions
mod PactPages
mod Forms
mod Clipboards
mod Addresses
mod Settings
mod Networks
mod Deployments

-- ===== src/Manifest.antt =====
-- internal/workspacemanifest/manifest.go: the workspace manifest. `Entries` has its entries, how
-- they are normalized and which are valid; `Locations` how paths are compared and why a path is
-- refused; `Plan` what an import would change; `Apply` how the changes reach a store;
-- `Export` the manifest that a registry gives.
pub mod Entries
pub mod Locations
pub mod Nesting
pub mod Plan
pub mod Apply
pub mod Export

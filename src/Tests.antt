-- ===== src/Tests.antt =====
-- Tests: concrete inputs, and the theorems applied to them.
mod Samples
mod Capabilities
mod Admissions
mod Plans
mod Brokers
mod Publishes
mod Routes
mod Documents
mod Registries
mod Leases
mod Mirrors
mod Sources
mod Sidecars
mod Releases
mod OrgLogins
mod Origins

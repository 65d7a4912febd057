-- ===== src/Tests.antt =====
-- The modelled operations on a small city, and the theorems applied to what they do there.
mod City
mod Staff
mod Orders
mod Offline
mod Routing
mod Photos
mod Reports
mod Graph
mod Links
mod Categories
mod Gates
mod Texts
mod Ledger

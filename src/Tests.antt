-- ===== src/Tests.antt =====
-- Theorems at concrete inputs, and runs of the definitions.
mod Orders
mod Money
mod Catalog
mod Settlement
mod Review
mod References
mod Sms
mod Ingestion
mod Idempotency
mod Inventory

-- ===== src/Catalog.antt =====
-- The device, inventory and pricing policies of src/domain/task-5-2-device-inventory-pricing.ts.
pub mod Pricing
pub mod Dimension
pub mod Declaration
pub mod Device
pub mod Inventory
pub mod Phone

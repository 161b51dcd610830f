-- ===== src/Device.antt =====
-- The device layer, kernel/device.
pub mod Resource

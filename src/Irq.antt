-- ===== src/Irq.antt =====
-- The interrupt layer, kernel/irq.
pub mod Virq
pub mod Domain
pub mod Chip
pub mod Desc

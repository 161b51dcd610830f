-- ===== src/Strings.antt =====
-- kernel/lib/string.c. A pointer to characters that are only read is the list of bytes from there to
-- the end of the array; memory that is written is a list of bytes with addresses as indices. A read
-- or write past the end is a fault. `char` is unsigned on both targets.
pub mod Moves
pub mod Copies
pub mod Compare
pub mod Order
pub mod Find
pub mod Places
pub mod Write
pub mod Number
pub mod Decimal
mod Tests

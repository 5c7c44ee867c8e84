-- ===== src/Print.antt =====
-- Numbers printed by user/printf.c and kernel/printf.c, and read by user/ulib.c.
pub mod Defs
pub mod Digits
pub mod Back
pub mod Tests

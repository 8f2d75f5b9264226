-- ===== src/Num.antt =====
-- src/num: integers as text. A machine word is its value, and `none` is a panic.
pub mod Itoa
pub mod Atoi
pub mod Decimal
pub mod Pairs
pub mod Printed
pub mod Parsed

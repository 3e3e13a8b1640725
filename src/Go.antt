-- ===== src/Go.antt =====
-- What the program uses of the Go language and of its standard library.
pub mod Text
pub mod Map
pub mod Sort
pub mod Float
pub mod Decimal
pub mod Time
pub mod Result

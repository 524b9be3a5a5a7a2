-- ===== src/Go.antt =====
-- What the program uses of the Go language and its standard library.
pub mod Strings
pub mod Sort
pub mod Strconv
pub mod Errors
pub mod Exec

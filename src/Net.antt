-- ===== src/Net.antt =====
-- What the program uses of Go's `net` package: addresses as byte slices, CIDR blocks, and the text
-- of both, which stays a parameter.
pub mod Address
pub mod Textual

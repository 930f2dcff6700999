-- ===== src/Net.antt =====
-- What the program uses of the packages net and net/http: addresses, host and port, headers.
pub mod Ip
pub mod Public
pub mod Header

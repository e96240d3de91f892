-- ===== src/AtParams.antt =====
-- src/u_cx_at_params.c: addresses and integer lists, from and to strings.
pub mod Ip
pub mod IntList
pub mod Addresses
mod Tests

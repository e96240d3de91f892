-- ===== src/UcxApi/Urc/Parse.antt =====
-- The functions of ucx_api/generated/u_cx_urc.c that parse the parameters of one URC each.
pub mod Bluetooth
pub mod Network
pub mod Services
unfoldable pub use Bluetooth.*
unfoldable pub use Network.*
unfoldable pub use Services.*

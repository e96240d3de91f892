-- ===== src/UcxApi.antt =====
-- The application interface, ucx_api: URCs (UcxApi/Urc), and the functions that send commands: the
-- shapes of their bodies (UcxApi/Call) and the functions themselves (UcxApi/Commands).
pub mod Urc
pub mod Call
pub mod Variant
pub mod Ends
pub mod Selection
pub mod Locked
pub mod ErrorCodes
mod Tests
pub mod Commands

-- ===== src/AtClient.antt =====
-- src/u_cx_at_client.c: the AT client's receive path and commands.
pub mod State
pub mod Uart
pub mod Parse
pub mod Rx
pub mod Urcs
pub mod Send
pub mod Command
mod Tests

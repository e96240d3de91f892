-- ===== src/AtUtil.antt =====
-- src/u_cx_at_util.c: the string utilities of the AT client.
pub mod Hex
pub mod Escape
pub mod ParamEnd
mod Tests

-- ===== src/UcxApi/Urc/Parse/Services.antt =====
-- The parsing functions of ucx_api/generated/u_cx_urc.c: the start of the module, MQTT, HTTP and diagnostics.
use ucxclient.Prelude.{ℕ, List, Bytes, codes}
use ucxclient.Prelude.Int.{ℤ}
use ucxclient.UcxApi.Urc.{
  Callbacks, UrcCall, deliver, startup, uemqc, uemqdc, uemqda, uemqdd, uemqpc, uemqsc, uehtcdc,
  uehtcrs, uedgpc, uedgp, uedgi,
}

unfoldable pub parse_startup : Callbacks → ℕ → Bytes → ℤ × List UrcCall
parse_startup h before params = deliver h.on_startup startup (codes "") before params

unfoldable pub parse_uemqc : Callbacks → ℕ → Bytes → ℤ × List UrcCall
parse_uemqc h before params = deliver h.on_uemqc uemqc (codes "d") before params

unfoldable pub parse_uemqdc : Callbacks → ℕ → Bytes → ℤ × List UrcCall
parse_uemqdc h before params = deliver h.on_uemqdc uemqdc (codes "dd") before params

unfoldable pub parse_uemqda : Callbacks → ℕ → Bytes → ℤ × List UrcCall
parse_uemqda h before params = deliver h.on_uemqda uemqda (codes "dd") before params

unfoldable pub parse_uemqdd : Callbacks → ℕ → Bytes → ℤ × List UrcCall
parse_uemqdd h before params = deliver h.on_uemqdd uemqdd (codes "dd") before params

unfoldable pub parse_uemqpc : Callbacks → ℕ → Bytes → ℤ × List UrcCall
parse_uemqpc h before params = deliver h.on_uemqpc uemqpc (codes "ddd") before params

unfoldable pub parse_uemqsc : Callbacks → ℕ → Bytes → ℤ × List UrcCall
parse_uemqsc h before params = deliver h.on_uemqsc uemqsc (codes "dd") before params

unfoldable pub parse_uehtcdc : Callbacks → ℕ → Bytes → ℤ × List UrcCall
parse_uehtcdc h before params = deliver h.on_uehtcdc uehtcdc (codes "d") before params

unfoldable pub parse_uehtcrs : Callbacks → ℕ → Bytes → ℤ × List UrcCall
parse_uehtcrs h before params = deliver h.on_uehtcrs uehtcrs (codes "dds") before params

unfoldable pub parse_uedgpc : Callbacks → ℕ → Bytes → ℤ × List UrcCall
parse_uedgpc h before params = deliver h.on_uedgpc uedgpc (codes "dddd") before params

unfoldable pub parse_uedgp : Callbacks → ℕ → Bytes → ℤ × List UrcCall
parse_uedgp h before params = deliver h.on_uedgp uedgp (codes "dd") before params

unfoldable pub parse_uedgi : Callbacks → ℕ → Bytes → ℤ × List UrcCall
parse_uedgi h before params = deliver h.on_uedgi uedgi (codes "s") before params

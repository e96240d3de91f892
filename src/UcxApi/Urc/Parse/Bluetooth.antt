-- ===== src/UcxApi/Urc/Parse/Bluetooth.antt =====
-- The parsing functions of ucx_api/generated/u_cx_urc.c: Bluetooth, GATT and SPS.
use ucxclient.Prelude.{ℕ, List, Bytes, codes}
use ucxclient.Prelude.Int.{ℤ}
use ucxclient.UcxApi.Urc.{
  Callbacks, UrcCall, deliver, uebtc, uebtdc, uebtb, uebtuc, uebtupd, uebtupe, uebtphyu, uebtbgd,
  uebtgcn, uebtgci, uebtgcw, uebtgrr, uebtgic, uespsc, uespsdc, uespsds, uespsdb, uespsda,
}

unfoldable pub parse_uebtc : Callbacks → ℕ → Bytes → ℤ × List UrcCall
parse_uebtc h before params = deliver h.on_uebtc uebtc (codes "db") before params

unfoldable pub parse_uebtdc : Callbacks → ℕ → Bytes → ℤ × List UrcCall
parse_uebtdc h before params = deliver h.on_uebtdc uebtdc (codes "d") before params

unfoldable pub parse_uebtb : Callbacks → ℕ → Bytes → ℤ × List UrcCall
parse_uebtb h before params = deliver h.on_uebtb uebtb (codes "bd") before params

unfoldable pub parse_uebtuc : Callbacks → ℕ → Bytes → ℤ × List UrcCall
parse_uebtuc h before params = deliver h.on_uebtuc uebtuc (codes "bd") before params

unfoldable pub parse_uebtupd : Callbacks → ℕ → Bytes → ℤ × List UrcCall
parse_uebtupd h before params = deliver h.on_uebtupd uebtupd (codes "bd") before params

unfoldable pub parse_uebtupe : Callbacks → ℕ → Bytes → ℤ × List UrcCall
parse_uebtupe h before params = deliver h.on_uebtupe uebtupe (codes "b") before params

unfoldable pub parse_uebtphyu : Callbacks → ℕ → Bytes → ℤ × List UrcCall
parse_uebtphyu h before params = deliver h.on_uebtphyu uebtphyu (codes "dddd") before params

unfoldable pub parse_uebtbgd : Callbacks → ℕ → Bytes → ℤ × List UrcCall
parse_uebtbgd h before params = deliver h.on_uebtbgd uebtbgd (codes "bdsdh") before params

unfoldable pub parse_uebtgcn : Callbacks → ℕ → Bytes → ℤ × List UrcCall
parse_uebtgcn h before params = deliver h.on_uebtgcn uebtgcn (codes "ddh") before params

unfoldable pub parse_uebtgci : Callbacks → ℕ → Bytes → ℤ × List UrcCall
parse_uebtgci h before params = deliver h.on_uebtgci uebtgci (codes "ddh") before params

unfoldable pub parse_uebtgcw : Callbacks → ℕ → Bytes → ℤ × List UrcCall
parse_uebtgcw h before params = deliver h.on_uebtgcw uebtgcw (codes "ddhd") before params

unfoldable pub parse_uebtgrr : Callbacks → ℕ → Bytes → ℤ × List UrcCall
parse_uebtgrr h before params = deliver h.on_uebtgrr uebtgrr (codes "dd") before params

unfoldable pub parse_uebtgic : Callbacks → ℕ → Bytes → ℤ × List UrcCall
parse_uebtgic h before params = deliver h.on_uebtgic uebtgic (codes "dd") before params

unfoldable pub parse_uespsc : Callbacks → ℕ → Bytes → ℤ × List UrcCall
parse_uespsc h before params = deliver h.on_uespsc uespsc (codes "d") before params

unfoldable pub parse_uespsdc : Callbacks → ℕ → Bytes → ℤ × List UrcCall
parse_uespsdc h before params = deliver h.on_uespsdc uespsdc (codes "d") before params

unfoldable pub parse_uespsds : Callbacks → ℕ → Bytes → ℤ × List UrcCall
parse_uespsds h before params = deliver h.on_uespsds uespsds (codes "d$") before params

unfoldable pub parse_uespsdb : Callbacks → ℕ → Bytes → ℤ × List UrcCall
parse_uespsdb h before params = deliver h.on_uespsdb uespsdb (codes "d") before params

unfoldable pub parse_uespsda : Callbacks → ℕ → Bytes → ℤ × List UrcCall
parse_uespsda h before params = deliver h.on_uespsda uespsda (codes "dd") before params

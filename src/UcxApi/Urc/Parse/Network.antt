-- ===== src/UcxApi/Urc/Parse/Network.antt =====
-- The parsing functions of ucx_api/generated/u_cx_urc.c: Wi-Fi and sockets.
use ucxclient.Prelude.{ℕ, List, Bytes, codes}
use ucxclient.Prelude.Int.{ℤ}
use ucxclient.UcxApi.Urc.{
  Callbacks, UrcCall, deliver, uewlu, uewld, uewsnu, uewsnd, uewsrsi, uewsrsf, uewsrsc, uewapnu,
  uewapnd, uewapu, uewapd, uewapsa, uewapsda, uesoc, uesoda, uesods, uesodsf, uesodb, uesodbf,
  uesocl, uesoic,
}

unfoldable pub parse_uewlu : Callbacks → ℕ → Bytes → ℤ × List UrcCall
parse_uewlu h before params = deliver h.on_uewlu uewlu (codes "dmd") before params

unfoldable pub parse_uewld : Callbacks → ℕ → Bytes → ℤ × List UrcCall
parse_uewld h before params = deliver h.on_uewld uewld (codes "dd") before params

unfoldable pub parse_uewsnu : Callbacks → ℕ → Bytes → ℤ × List UrcCall
parse_uewsnu h before params = deliver h.on_uewsnu uewsnu (codes "") before params

unfoldable pub parse_uewsnd : Callbacks → ℕ → Bytes → ℤ × List UrcCall
parse_uewsnd h before params = deliver h.on_uewsnd uewsnd (codes "") before params

unfoldable pub parse_uewsrsi : Callbacks → ℕ → Bytes → ℤ × List UrcCall
parse_uewsrsi h before params = deliver h.on_uewsrsi uewsrsi (codes "") before params

unfoldable pub parse_uewsrsf : Callbacks → ℕ → Bytes → ℤ × List UrcCall
parse_uewsrsf h before params = deliver h.on_uewsrsf uewsrsf (codes "") before params

unfoldable pub parse_uewsrsc : Callbacks → ℕ → Bytes → ℤ × List UrcCall
parse_uewsrsc h before params = deliver h.on_uewsrsc uewsrsc (codes "dmd") before params

unfoldable pub parse_uewapnu : Callbacks → ℕ → Bytes → ℤ × List UrcCall
parse_uewapnu h before params = deliver h.on_uewapnu uewapnu (codes "") before params

unfoldable pub parse_uewapnd : Callbacks → ℕ → Bytes → ℤ × List UrcCall
parse_uewapnd h before params = deliver h.on_uewapnd uewapnd (codes "") before params

unfoldable pub parse_uewapu : Callbacks → ℕ → Bytes → ℤ × List UrcCall
parse_uewapu h before params = deliver h.on_uewapu uewapu (codes "") before params

unfoldable pub parse_uewapd : Callbacks → ℕ → Bytes → ℤ × List UrcCall
parse_uewapd h before params = deliver h.on_uewapd uewapd (codes "") before params

unfoldable pub parse_uewapsa : Callbacks → ℕ → Bytes → ℤ × List UrcCall
parse_uewapsa h before params = deliver h.on_uewapsa uewapsa (codes "m") before params

unfoldable pub parse_uewapsda : Callbacks → ℕ → Bytes → ℤ × List UrcCall
parse_uewapsda h before params = deliver h.on_uewapsda uewapsda (codes "m") before params

unfoldable pub parse_uesoc : Callbacks → ℕ → Bytes → ℤ × List UrcCall
parse_uesoc h before params = deliver h.on_uesoc uesoc (codes "d") before params

unfoldable pub parse_uesoda : Callbacks → ℕ → Bytes → ℤ × List UrcCall
parse_uesoda h before params = deliver h.on_uesoda uesoda (codes "dd") before params

unfoldable pub parse_uesods : Callbacks → ℕ → Bytes → ℤ × List UrcCall
parse_uesods h before params = deliver h.on_uesods uesods (codes "d$") before params

unfoldable pub parse_uesodsf : Callbacks → ℕ → Bytes → ℤ × List UrcCall
parse_uesodsf h before params = deliver h.on_uesodsf uesodsf (codes "did$") before params

unfoldable pub parse_uesodb : Callbacks → ℕ → Bytes → ℤ × List UrcCall
parse_uesodb h before params = deliver h.on_uesodb uesodb (codes "d") before params

unfoldable pub parse_uesodbf : Callbacks → ℕ → Bytes → ℤ × List UrcCall
parse_uesodbf h before params = deliver h.on_uesodbf uesodbf (codes "did") before params

unfoldable pub parse_uesocl : Callbacks → ℕ → Bytes → ℤ × List UrcCall
parse_uesocl h before params = deliver h.on_uesocl uesocl (codes "d") before params

unfoldable pub parse_uesoic : Callbacks → ℕ → Bytes → ℤ × List UrcCall
parse_uesoic h before params = deliver h.on_uesoic uesoic (codes "did") before params

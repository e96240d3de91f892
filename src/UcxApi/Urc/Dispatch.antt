-- ===== src/UcxApi/Urc/Dispatch.antt =====
-- uCxUrcParse of ucx_api/generated/u_cx_urc.c, and urcCallback of ucx_api/u_cx.c in front of it.
use ucxclient.Prelude.{ℕ, Bool, false, ◌||◌, List, [], ◌∷◌, Bytes, codes, if◌then◌else◌, ◌==◌}
use ucxclient.Prelude.Int.{ℤ, negsuc}
use ucxclient.AtParams.Addresses.{last_char}
use ucxclient.AtClient.Parse.{same_text}
use ucxclient.UcxApi.Urc.{Callbacks, UrcCall}
use ucxclient.UcxApi.Urc.Parse.{
  parse_startup, parse_uebtc, parse_uebtdc, parse_uebtb, parse_uebtuc, parse_uebtupd, parse_uebtupe,
  parse_uebtphyu, parse_uebtbgd, parse_uebtgcn, parse_uebtgci, parse_uebtgcw, parse_uebtgrr,
  parse_uebtgic, parse_uespsc, parse_uespsdc, parse_uespsds, parse_uespsdb, parse_uespsda,
  parse_uewlu, parse_uewld, parse_uewsnu, parse_uewsnd, parse_uewsrsi, parse_uewsrsf, parse_uewsrsc,
  parse_uewapnu, parse_uewapnd, parse_uewapu, parse_uewapd, parse_uewapsa, parse_uewapsda,
  parse_uesoc, parse_uesoda, parse_uesods, parse_uesodsf, parse_uesodb, parse_uesodbf, parse_uesocl,
  parse_uesoic, parse_uemqc, parse_uemqdc, parse_uemqda, parse_uemqdd, parse_uemqpc, parse_uemqsc,
  parse_uehtcdc, parse_uehtcrs, parse_uedgpc, parse_uedgp, parse_uedgi,
}

-- `uCxUrcParse`, with the byte `before` in front of the parameters.
unfoldable pub urc_parse : Callbacks → Bytes → ℕ → Bytes → ℤ × List UrcCall
urc_parse h name before params =
    if same_text name (codes "+STARTUP")
    then parse_startup h before params
    else if same_text name (codes "+UEBTC")
    then parse_uebtc h before params
    else if same_text name (codes "+UEBTDC")
    then parse_uebtdc h before params
    else if same_text name (codes "+UEBTB")
    then parse_uebtb h before params
    else if same_text name (codes "+UEBTUC")
    then parse_uebtuc h before params
    else if same_text name (codes "+UEBTUPD")
    then parse_uebtupd h before params
    else if same_text name (codes "+UEBTUPE")
    then parse_uebtupe h before params
    else if same_text name (codes "+UEBTPHYU")
    then parse_uebtphyu h before params
    else if same_text name (codes "+UEBTBGD")
    then parse_uebtbgd h before params
    else if same_text name (codes "+UEBTGCN")
    then parse_uebtgcn h before params
    else if same_text name (codes "+UEBTGCI")
    then parse_uebtgci h before params
    else if same_text name (codes "+UEBTGCW")
    then parse_uebtgcw h before params
    else if same_text name (codes "+UEBTGRR")
    then parse_uebtgrr h before params
    else if same_text name (codes "+UEBTGIC")
    then parse_uebtgic h before params
    else if same_text name (codes "+UESPSC")
    then parse_uespsc h before params
    else if same_text name (codes "+UESPSDC")
    then parse_uespsdc h before params
    else if same_text name (codes "+UESPSDS")
    then parse_uespsds h before params
    else if same_text name (codes "+UESPSDB")
    then parse_uespsdb h before params
    else if same_text name (codes "+UESPSDA")
    then parse_uespsda h before params
    else if same_text name (codes "+UEWLU")
    then parse_uewlu h before params
    else if same_text name (codes "+UEWLD")
    then parse_uewld h before params
    else if same_text name (codes "+UEWSNU")
    then parse_uewsnu h before params
    else if same_text name (codes "+UEWSND")
    then parse_uewsnd h before params
    else if same_text name (codes "+UEWSRSI")
    then parse_uewsrsi h before params
    else if same_text name (codes "+UEWSRSF")
    then parse_uewsrsf h before params
    else if same_text name (codes "+UEWSRSC")
    then parse_uewsrsc h before params
    else if same_text name (codes "+UEWAPNU")
    then parse_uewapnu h before params
    else if same_text name (codes "+UEWAPND")
    then parse_uewapnd h before params
    else if same_text name (codes "+UEWAPU")
    then parse_uewapu h before params
    else if same_text name (codes "+UEWAPD")
    then parse_uewapd h before params
    else if same_text name (codes "+UEWAPSA")
    then parse_uewapsa h before params
    else if same_text name (codes "+UEWAPSDA")
    then parse_uewapsda h before params
    else if same_text name (codes "+UESOC")
    then parse_uesoc h before params
    else if same_text name (codes "+UESODA")
    then parse_uesoda h before params
    else if same_text name (codes "+UESODS")
    then parse_uesods h before params
    else if same_text name (codes "+UESODSF")
    then parse_uesodsf h before params
    else if same_text name (codes "+UESODB")
    then parse_uesodb h before params
    else if same_text name (codes "+UESODBF")
    then parse_uesodbf h before params
    else if same_text name (codes "+UESOCL")
    then parse_uesocl h before params
    else if same_text name (codes "+UESOIC")
    then parse_uesoic h before params
    else if same_text name (codes "+UEMQC")
    then parse_uemqc h before params
    else if same_text name (codes "+UEMQDC")
    then parse_uemqdc h before params
    else if same_text name (codes "+UEMQDA")
    then parse_uemqda h before params
    else if same_text name (codes "+UEMQDD")
    then parse_uemqdd h before params
    else if same_text name (codes "+UEMQPC")
    then parse_uemqpc h before params
    else if same_text name (codes "+UEMQSC")
    then parse_uemqsc h before params
    else if same_text name (codes "+UEHTCDC")
    then parse_uehtcdc h before params
    else if same_text name (codes "+UEHTCRS")
    then parse_uehtcrs h before params
    else if same_text name (codes "+UEDGPC")
    then parse_uedgpc h before params
    else if same_text name (codes "+UEDGP")
    then parse_uedgp h before params
    else if same_text name (codes "+UEDGI")
    then parse_uedgi h before params
    else (negsuc 0, [])

-- The loop of `urcCallback`: the line in front of the first colon, and the parameters behind it.
unfoldable pub find_params : Bytes → Bytes × Bytes
find_params [] = ([], [])
find_params (c ∷ line) =
    let (name, params) = find_params line in if c == b':' then ([], line) else (c ∷ name, params)

-- Whether the line has a colon, which a terminator has taken the place of then.
unfoldable pub has_colon : Bytes → Bool
has_colon [] = false
has_colon (c ∷ line) = c == b':' || has_colon line

-- `urcCallback`, on a line without zero bytes. Without a colon the parameters are the empty string at
-- the end of the line.
unfoldable pub urc_callback : Callbacks → Bytes → ℤ × List UrcCall
urc_callback h line =
    let (name, params) = find_params line in
    urc_parse h name (if has_colon line then 0 else last_char 0 line) params

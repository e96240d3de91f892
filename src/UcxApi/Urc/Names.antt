-- ===== src/UcxApi/Urc/Names.antt =====
-- The URCs by their names and formats: the table that the dispatch is compared with.
use ucxclient.Prelude.{Bool, List, [], ◌∷◌, Bytes, codes}
use ucxclient.UcxApi.Urc.{
  Urc, Callbacks, startup, uebtc, uebtdc, uebtb, uebtuc, uebtupd, uebtupe, uebtphyu, uebtbgd,
  uebtgcn, uebtgci, uebtgcw, uebtgrr, uebtgic, uespsc, uespsdc, uespsds, uespsdb, uespsda, uewlu,
  uewld, uewsnu, uewsnd, uewsrsi, uewsrsf, uewsrsc, uewapnu, uewapnd, uewapu, uewapd, uewapsa,
  uewapsda, uesoc, uesoda, uesods, uesodsf, uesodb, uesodbf, uesocl, uesoic, uemqc, uemqdc, uemqda,
  uemqdd, uemqpc, uemqsc, uehtcdc, uehtcrs, uedgpc, uedgp, uedgi,
}

-- The name that a URC has on the line.
abbrev pub urc_name : Urc → Bytes
urc_name startup = codes "+STARTUP"
urc_name uebtc = codes "+UEBTC"
urc_name uebtdc = codes "+UEBTDC"
urc_name uebtb = codes "+UEBTB"
urc_name uebtuc = codes "+UEBTUC"
urc_name uebtupd = codes "+UEBTUPD"
urc_name uebtupe = codes "+UEBTUPE"
urc_name uebtphyu = codes "+UEBTPHYU"
urc_name uebtbgd = codes "+UEBTBGD"
urc_name uebtgcn = codes "+UEBTGCN"
urc_name uebtgci = codes "+UEBTGCI"
urc_name uebtgcw = codes "+UEBTGCW"
urc_name uebtgrr = codes "+UEBTGRR"
urc_name uebtgic = codes "+UEBTGIC"
urc_name uespsc = codes "+UESPSC"
urc_name uespsdc = codes "+UESPSDC"
urc_name uespsds = codes "+UESPSDS"
urc_name uespsdb = codes "+UESPSDB"
urc_name uespsda = codes "+UESPSDA"
urc_name uewlu = codes "+UEWLU"
urc_name uewld = codes "+UEWLD"
urc_name uewsnu = codes "+UEWSNU"
urc_name uewsnd = codes "+UEWSND"
urc_name uewsrsi = codes "+UEWSRSI"
urc_name uewsrsf = codes "+UEWSRSF"
urc_name uewsrsc = codes "+UEWSRSC"
urc_name uewapnu = codes "+UEWAPNU"
urc_name uewapnd = codes "+UEWAPND"
urc_name uewapu = codes "+UEWAPU"
urc_name uewapd = codes "+UEWAPD"
urc_name uewapsa = codes "+UEWAPSA"
urc_name uewapsda = codes "+UEWAPSDA"
urc_name uesoc = codes "+UESOC"
urc_name uesoda = codes "+UESODA"
urc_name uesods = codes "+UESODS"
urc_name uesodsf = codes "+UESODSF"
urc_name uesodb = codes "+UESODB"
urc_name uesodbf = codes "+UESODBF"
urc_name uesocl = codes "+UESOCL"
urc_name uesoic = codes "+UESOIC"
urc_name uemqc = codes "+UEMQC"
urc_name uemqdc = codes "+UEMQDC"
urc_name uemqda = codes "+UEMQDA"
urc_name uemqdd = codes "+UEMQDD"
urc_name uemqpc = codes "+UEMQPC"
urc_name uemqsc = codes "+UEMQSC"
urc_name uehtcdc = codes "+UEHTCDC"
urc_name uehtcrs = codes "+UEHTCRS"
urc_name uedgpc = codes "+UEDGPC"
urc_name uedgp = codes "+UEDGP"
urc_name uedgi = codes "+UEDGI"

-- The types of its parameters.
abbrev pub urc_format : Urc → Bytes
urc_format startup = codes ""
urc_format uebtc = codes "db"
urc_format uebtdc = codes "d"
urc_format uebtb = codes "bd"
urc_format uebtuc = codes "bd"
urc_format uebtupd = codes "bd"
urc_format uebtupe = codes "b"
urc_format uebtphyu = codes "dddd"
urc_format uebtbgd = codes "bdsdh"
urc_format uebtgcn = codes "ddh"
urc_format uebtgci = codes "ddh"
urc_format uebtgcw = codes "ddhd"
urc_format uebtgrr = codes "dd"
urc_format uebtgic = codes "dd"
urc_format uespsc = codes "d"
urc_format uespsdc = codes "d"
urc_format uespsds = codes "d$"
urc_format uespsdb = codes "d"
urc_format uespsda = codes "dd"
urc_format uewlu = codes "dmd"
urc_format uewld = codes "dd"
urc_format uewsnu = codes ""
urc_format uewsnd = codes ""
urc_format uewsrsi = codes ""
urc_format uewsrsf = codes ""
urc_format uewsrsc = codes "dmd"
urc_format uewapnu = codes ""
urc_format uewapnd = codes ""
urc_format uewapu = codes ""
urc_format uewapd = codes ""
urc_format uewapsa = codes "m"
urc_format uewapsda = codes "m"
urc_format uesoc = codes "d"
urc_format uesoda = codes "dd"
urc_format uesods = codes "d$"
urc_format uesodsf = codes "did$"
urc_format uesodb = codes "d"
urc_format uesodbf = codes "did"
urc_format uesocl = codes "d"
urc_format uesoic = codes "did"
urc_format uemqc = codes "d"
urc_format uemqdc = codes "dd"
urc_format uemqda = codes "dd"
urc_format uemqdd = codes "dd"
urc_format uemqpc = codes "ddd"
urc_format uemqsc = codes "dd"
urc_format uehtcdc = codes "d"
urc_format uehtcrs = codes "dds"
urc_format uedgpc = codes "dddd"
urc_format uedgp = codes "dd"
urc_format uedgi = codes "s"

-- Whether its callback is set.
abbrev pub registered : Callbacks → Urc → Bool
registered h startup = h.on_startup
registered h uebtc = h.on_uebtc
registered h uebtdc = h.on_uebtdc
registered h uebtb = h.on_uebtb
registered h uebtuc = h.on_uebtuc
registered h uebtupd = h.on_uebtupd
registered h uebtupe = h.on_uebtupe
registered h uebtphyu = h.on_uebtphyu
registered h uebtbgd = h.on_uebtbgd
registered h uebtgcn = h.on_uebtgcn
registered h uebtgci = h.on_uebtgci
registered h uebtgcw = h.on_uebtgcw
registered h uebtgrr = h.on_uebtgrr
registered h uebtgic = h.on_uebtgic
registered h uespsc = h.on_uespsc
registered h uespsdc = h.on_uespsdc
registered h uespsds = h.on_uespsds
registered h uespsdb = h.on_uespsdb
registered h uespsda = h.on_uespsda
registered h uewlu = h.on_uewlu
registered h uewld = h.on_uewld
registered h uewsnu = h.on_uewsnu
registered h uewsnd = h.on_uewsnd
registered h uewsrsi = h.on_uewsrsi
registered h uewsrsf = h.on_uewsrsf
registered h uewsrsc = h.on_uewsrsc
registered h uewapnu = h.on_uewapnu
registered h uewapnd = h.on_uewapnd
registered h uewapu = h.on_uewapu
registered h uewapd = h.on_uewapd
registered h uewapsa = h.on_uewapsa
registered h uewapsda = h.on_uewapsda
registered h uesoc = h.on_uesoc
registered h uesoda = h.on_uesoda
registered h uesods = h.on_uesods
registered h uesodsf = h.on_uesodsf
registered h uesodb = h.on_uesodb
registered h uesodbf = h.on_uesodbf
registered h uesocl = h.on_uesocl
registered h uesoic = h.on_uesoic
registered h uemqc = h.on_uemqc
registered h uemqdc = h.on_uemqdc
registered h uemqda = h.on_uemqda
registered h uemqdd = h.on_uemqdd
registered h uemqpc = h.on_uemqpc
registered h uemqsc = h.on_uemqsc
registered h uehtcdc = h.on_uehtcdc
registered h uehtcrs = h.on_uehtcrs
registered h uedgpc = h.on_uedgpc
registered h uedgp = h.on_uedgp
registered h uedgi = h.on_uedgi

-- All of them, in the order of the tests of uCxUrcParse.
abbrev pub all_urcs : List Urc
all_urcs =
    startup ∷ uebtc ∷ uebtdc ∷ uebtb ∷ uebtuc ∷ uebtupd ∷ uebtupe ∷ uebtphyu ∷ uebtbgd ∷ uebtgcn
    ∷ uebtgci ∷ uebtgcw ∷ uebtgrr ∷ uebtgic ∷ uespsc ∷ uespsdc ∷ uespsds ∷ uespsdb ∷ uespsda ∷ uewlu
    ∷ uewld ∷ uewsnu ∷ uewsnd ∷ uewsrsi ∷ uewsrsf ∷ uewsrsc ∷ uewapnu ∷ uewapnd ∷ uewapu ∷ uewapd
    ∷ uewapsa ∷ uewapsda ∷ uesoc ∷ uesoda ∷ uesods ∷ uesodsf ∷ uesodb ∷ uesodbf ∷ uesocl ∷ uesoic
    ∷ uemqc ∷ uemqdc ∷ uemqda ∷ uemqdd ∷ uemqpc ∷ uemqsc ∷ uehtcdc ∷ uehtcrs ∷ uedgpc ∷ uedgp
    ∷ uedgi ∷ []

-- ===== src/UcxApi/Urc.antt =====
-- The URCs of ucx_api/generated: the callbacks of a handle (u_cx_types.h), and what the functions of
-- u_cx_urc.c that parse a URC have in common.
pub mod Parse
pub mod Dispatch
pub mod Register
pub mod Names
pub mod Delivery
use ucxclient.Prelude.{
  ℕ, Bool, true, false, Option, none, some, List, [], ◌∷◌, Bytes, if◌then◌else◌,
}
use ucxclient.Prelude.Int.{ℤ, pos}
use ucxclient.ParamParser.{Arg, Parsed, parsed, failed, parse_params, result_of}

-- The URCs, by the names of their callbacks.
pub data Urc : Type 0 where
  startup uebtc uebtdc uebtb uebtuc uebtupd uebtupe uebtphyu uebtbgd uebtgcn uebtgci : Urc
  uebtgcw uebtgrr uebtgic uespsc uespsdc uespsds uespsdb uespsda uewlu uewld uewsnu : Urc
  uewsnd uewsrsi uewsrsf uewsrsc uewapnu uewapnd uewapu uewapd uewapsa uewapsda uesoc : Urc
  uesoda uesods uesodsf uesodb uesodbf uesocl uesoic uemqc uemqdc uemqda uemqdd uemqpc : Urc
  uemqsc uehtcdc uehtcrs uedgpc uedgp uedgi : Urc

-- `uUrcCallbacks`: whether the callback of a URC is set.
pub record Callbacks : Type 0 where
  pub on_startup : Bool
  pub on_uebtc : Bool
  pub on_uebtdc : Bool
  pub on_uebtb : Bool
  pub on_uebtuc : Bool
  pub on_uebtupd : Bool
  pub on_uebtupe : Bool
  pub on_uebtphyu : Bool
  pub on_uebtbgd : Bool
  pub on_uebtgcn : Bool
  pub on_uebtgci : Bool
  pub on_uebtgcw : Bool
  pub on_uebtgrr : Bool
  pub on_uebtgic : Bool
  pub on_uespsc : Bool
  pub on_uespsdc : Bool
  pub on_uespsds : Bool
  pub on_uespsdb : Bool
  pub on_uespsda : Bool
  pub on_uewlu : Bool
  pub on_uewld : Bool
  pub on_uewsnu : Bool
  pub on_uewsnd : Bool
  pub on_uewsrsi : Bool
  pub on_uewsrsf : Bool
  pub on_uewsrsc : Bool
  pub on_uewapnu : Bool
  pub on_uewapnd : Bool
  pub on_uewapu : Bool
  pub on_uewapd : Bool
  pub on_uewapsa : Bool
  pub on_uewapsda : Bool
  pub on_uesoc : Bool
  pub on_uesoda : Bool
  pub on_uesods : Bool
  pub on_uesodsf : Bool
  pub on_uesodb : Bool
  pub on_uesodbf : Bool
  pub on_uesocl : Bool
  pub on_uesoic : Bool
  pub on_uemqc : Bool
  pub on_uemqdc : Bool
  pub on_uemqda : Bool
  pub on_uemqdd : Bool
  pub on_uemqpc : Bool
  pub on_uemqsc : Bool
  pub on_uehtcdc : Bool
  pub on_uehtcrs : Bool
  pub on_uedgpc : Bool
  pub on_uedgp : Bool
  pub on_uedgi : Bool

-- A call of a URC's callback with the values of the parser's local variables; `none` is a variable
-- that nothing has been stored to.
pub record UrcCall : Type 0 where
  pub urc : Urc
  pub values : List (Option Arg)

-- The local variables, one for each character of the format, behind what the parser has stored.
unfoldable pub locals : Bytes → List Arg → List (Option Arg)
locals [] args = []
locals (ch ∷ fmt) [] = none ∷ locals fmt []
locals (ch ∷ fmt) (a ∷ args) = some a ∷ locals fmt args

-- The body that the parsing functions share: the parameters are parsed by the format, and unless that
-- fails the callback is called if it is set.
unfoldable pub deliver : Bool → Urc → Bytes → ℕ → Bytes → ℤ × List UrcCall
deliver has_callback urc fmt before params = elim (parse_params fmt before params) [
  | failed ret ↦ (result_of (failed ret), [])
  | parsed ret args ↦
      (pos ret, if has_callback then record { urc = urc; values = locals fmt args } ∷ [] else [])
]

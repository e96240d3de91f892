-- ===== src/UcxApi/Urc/Delivery.antt =====
-- A URC line is delivered to the callback of its URC, with the values that the line spells.
use ucxclient.Prelude.{
  ℕ, ◌≡◌, ◌≢◌, ◌⊎◌, inl, inr, refl, ap, sym, ◌∙◌, Bool, true, false, some, List, [], ◌∷◌, ◌++◌, map,
  arith, Bytes, All, length, Bool-cases, if◌then◌else◌,
}
use ucxclient.Prelude.Int.{ℤ, pos, negsuc}
use ucxclient.AtClient.Parse.{same_text}
use ucxclient.AtClient.Send.{Param}
use ucxclient.ParamParser.{Arg, parse_params, parsed}
use ucxclient.ParamParser.Printed.{param_char, param_arg, IsReadable}
use ucxclient.ParamParser.RoundTrip.{params_text, parse_params-params_text}
use ucxclient.UcxApi.Urc.{
  Urc, Callbacks, UrcCall, locals, deliver, startup, uebtc, uebtdc, uebtb, uebtuc, uebtupd, uebtupe,
  uebtphyu, uebtbgd, uebtgcn, uebtgci, uebtgcw, uebtgrr, uebtgic, uespsc, uespsdc, uespsds, uespsdb,
  uespsda, uewlu, uewld, uewsnu, uewsnd, uewsrsi, uewsrsf, uewsrsc, uewapnu, uewapnd, uewapu,
  uewapd, uewapsa, uewapsda, uesoc, uesoda, uesods, uesodsf, uesodb, uesodbf, uesocl, uesoic, uemqc,
  uemqdc, uemqda, uemqdd, uemqpc, uemqsc, uehtcdc, uehtcrs, uedgpc, uedgp, uedgi,
}
use ucxclient.UcxApi.Urc.Parse.{
  parse_startup, parse_uebtc, parse_uebtdc, parse_uebtb, parse_uebtuc, parse_uebtupd, parse_uebtupe,
  parse_uebtphyu, parse_uebtbgd, parse_uebtgcn, parse_uebtgci, parse_uebtgcw, parse_uebtgrr,
  parse_uebtgic, parse_uespsc, parse_uespsdc, parse_uespsds, parse_uespsdb, parse_uespsda,
  parse_uewlu, parse_uewld, parse_uewsnu, parse_uewsnd, parse_uewsrsi, parse_uewsrsf, parse_uewsrsc,
  parse_uewapnu, parse_uewapnd, parse_uewapu, parse_uewapd, parse_uewapsa, parse_uewapsda,
  parse_uesoc, parse_uesoda, parse_uesods, parse_uesodsf, parse_uesodb, parse_uesodbf, parse_uesocl,
  parse_uesoic, parse_uemqc, parse_uemqdc, parse_uemqda, parse_uemqdd, parse_uemqpc, parse_uemqsc,
  parse_uehtcdc, parse_uehtcrs, parse_uedgpc, parse_uedgp, parse_uedgi,
}
use ucxclient.UcxApi.Urc.Names.{urc_name, urc_format, registered, all_urcs}
use ucxclient.UcxApi.Urc.Dispatch.{urc_parse, find_params, has_colon, urc_callback}

-- Equal texts.
same_text_eq : (s t : Bytes) → same_text s t ≡ true → s ≡ t
same_text_eq [] [] h = refl
same_text_eq [] (d ∷ t) h = absurd (ground (arith, h))
same_text_eq (c ∷ s) [] h = absurd (ground (arith, h))
same_text_eq (c ∷ s) (d ∷ t) h =
    let tail : s ≡ t = same_text_eq s t (ground (arith, h)) in
    let head : c ≡ d = ground (arith, h) in ap (λ e. e ∷ s) head ∙ ap (λ r. d ∷ r) tail

same_text_refl : (s : Bytes) → same_text s s ≡ true
same_text_refl [] = refl
same_text_refl (c ∷ s) = ground (arith, same_text_refl s)

different : (s t : Bytes) → same_text s t ≡ false → s ≢ t
different s t h e = ground (arith, h, same_text_refl s, e)

module _ (h : Callbacks) (name : Bytes) (before : ℕ) (params : Bytes) where
  -- What is to happen to the URC `u`.
  abbrev delivery : Urc → ℤ × List UrcCall
  delivery u = deliver (registered h u) u (urc_format u) before params

  -- The URCs tried one after the other.
  abbrev try_urcs : List Urc → ℤ × List UrcCall
  try_urcs [] = (negsuc 0, [])
  try_urcs (u ∷ us) = let r = try_urcs us in if same_text name (urc_name u) then delivery u else r

  urc_parse-try_urcs : urc_parse h name before params ≡ try_urcs all_urcs
  unfolding urc_parse parse_startup parse_uebtc parse_uebtdc parse_uebtb parse_uebtuc parse_uebtupd
      parse_uebtupe parse_uebtphyu parse_uebtbgd parse_uebtgcn parse_uebtgci parse_uebtgcw
      parse_uebtgrr parse_uebtgic parse_uespsc parse_uespsdc parse_uespsds parse_uespsdb
      parse_uespsda parse_uewlu parse_uewld parse_uewsnu parse_uewsnd parse_uewsrsi parse_uewsrsf
      parse_uewsrsc parse_uewapnu parse_uewapnd parse_uewapu parse_uewapd parse_uewapsa
      parse_uewapsda parse_uesoc parse_uesoda parse_uesods parse_uesodsf parse_uesodb parse_uesodbf
      parse_uesocl parse_uesoic parse_uemqc parse_uemqdc parse_uemqda parse_uemqdd parse_uemqpc
      parse_uemqsc parse_uehtcdc parse_uehtcrs parse_uedgpc parse_uedgp parse_uedgi
  urc_parse-try_urcs = refl

  -- The first of the URCs that has the name is delivered, or none has it.
  abbrev Tried : List Urc → Type 0
  Tried us =
      ((u : Urc) × (name ≡ urc_name u) × (try_urcs us ≡ delivery u))
      ⊎ (All (λ u. name ≢ urc_name u) us × (try_urcs us ≡ (negsuc 0, [])))

  try_urcs_cases : (us : List Urc) → Tried us
  try_urcs_cases [] = inr (tt, refl)
  try_urcs_cases (u ∷ us) = elim (Bool-cases (same_text name (urc_name u))) [
    | inl e ↦ inl (u, same_text_eq name (urc_name u) e, rw e refl)
    | inr e ↦ elim (try_urcs_cases us) [
      | inl (v, at, q) ↦ inl (v, at, rw e q)
      | inr (others, q) ↦ inr ((different name (urc_name u) e, others), rw e q)
    ]
  ]

-- `uCxUrcParse` on any name: if it is the name of a URC the parameters are parsed by the format of that
-- URC and, unless that fails, its callback is called if it is set, with the values; if it is the name
-- of none of them the result is -1 and no callback is called.
pub urc_parse_cases :
    (h : Callbacks) (name : Bytes) (before : ℕ) (params : Bytes)
    → ((u : Urc) × (name ≡ urc_name u)
        × (urc_parse h name before params
            ≡ deliver (registered h u) u (urc_format u) before params))
      ⊎ (All (λ u. name ≢ urc_name u) all_urcs × (urc_parse h name before params ≡ (negsuc 0, [])))
urc_parse_cases h name before params =
    let e = urc_parse-try_urcs h name before params in
    elim (try_urcs_cases h name before params all_urcs) [
      | inl (u, at, q) ↦ inl (u, at, e ∙ q)
      | inr (none_of, q) ↦ inr (none_of, e ∙ q)
    ]

-- The name and the parameters of a URC line go to the parsing function of the URC.
urc_callback-line :
    (h : Callbacks) (u : Urc) (params : Bytes)
    → urc_callback h (urc_name u ++ b':' ∷ params)
      ≡ deliver (registered h u) u (urc_format u) 0 params
unfolding urc_callback find_params has_colon urc_parse parse_startup parse_uebtc parse_uebtdc
    parse_uebtb parse_uebtuc parse_uebtupd parse_uebtupe parse_uebtphyu parse_uebtbgd parse_uebtgcn
    parse_uebtgci parse_uebtgcw parse_uebtgrr parse_uebtgic parse_uespsc parse_uespsdc parse_uespsds
    parse_uespsdb parse_uespsda parse_uewlu parse_uewld parse_uewsnu parse_uewsnd parse_uewsrsi
    parse_uewsrsf parse_uewsrsc parse_uewapnu parse_uewapnd parse_uewapu parse_uewapd parse_uewapsa
    parse_uewapsda parse_uesoc parse_uesoda parse_uesods parse_uesodsf parse_uesodb parse_uesodbf
    parse_uesocl parse_uesoic parse_uemqc parse_uemqdc parse_uemqda parse_uemqdd parse_uemqpc
    parse_uemqsc parse_uehtcdc parse_uehtcrs parse_uedgpc parse_uedgp parse_uedgi
urc_callback-line h startup params = refl
urc_callback-line h uebtc params = refl
urc_callback-line h uebtdc params = refl
urc_callback-line h uebtb params = refl
urc_callback-line h uebtuc params = refl
urc_callback-line h uebtupd params = refl
urc_callback-line h uebtupe params = refl
urc_callback-line h uebtphyu params = refl
urc_callback-line h uebtbgd params = refl
urc_callback-line h uebtgcn params = refl
urc_callback-line h uebtgci params = refl
urc_callback-line h uebtgcw params = refl
urc_callback-line h uebtgrr params = refl
urc_callback-line h uebtgic params = refl
urc_callback-line h uespsc params = refl
urc_callback-line h uespsdc params = refl
urc_callback-line h uespsds params = refl
urc_callback-line h uespsdb params = refl
urc_callback-line h uespsda params = refl
urc_callback-line h uewlu params = refl
urc_callback-line h uewld params = refl
urc_callback-line h uewsnu params = refl
urc_callback-line h uewsnd params = refl
urc_callback-line h uewsrsi params = refl
urc_callback-line h uewsrsf params = refl
urc_callback-line h uewsrsc params = refl
urc_callback-line h uewapnu params = refl
urc_callback-line h uewapnd params = refl
urc_callback-line h uewapu params = refl
urc_callback-line h uewapd params = refl
urc_callback-line h uewapsa params = refl
urc_callback-line h uewapsda params = refl
urc_callback-line h uesoc params = refl
urc_callback-line h uesoda params = refl
urc_callback-line h uesods params = refl
urc_callback-line h uesodsf params = refl
urc_callback-line h uesodb params = refl
urc_callback-line h uesodbf params = refl
urc_callback-line h uesocl params = refl
urc_callback-line h uesoic params = refl
urc_callback-line h uemqc params = refl
urc_callback-line h uemqdc params = refl
urc_callback-line h uemqda params = refl
urc_callback-line h uemqdd params = refl
urc_callback-line h uemqpc params = refl
urc_callback-line h uemqsc params = refl
urc_callback-line h uehtcdc params = refl
urc_callback-line h uehtcrs params = refl
urc_callback-line h uedgpc params = refl
urc_callback-line h uedgp params = refl
urc_callback-line h uedgi params = refl

locals_full :
    (params : List Param)
    → locals (map param_char params) (map param_arg params) ≡ map (λ p. some (param_arg p)) params
unfolding locals
locals_full [] = refl
locals_full (p ∷ params) = ap (λ l. some (param_arg p) ∷ l) (locals_full params)

deliver-parsed :
    (has_callback : Bool) (u : Urc) (fmt : Bytes) (before : ℕ) (s : Bytes) (n : ℕ) (args : List Arg)
    → parse_params fmt before s ≡ parsed n args
    → deliver has_callback u fmt before s
      ≡ (pos n, if has_callback then record { urc = u; values = locals fmt args } ∷ [] else [])
unfolding deliver
deliver-parsed has_callback u fmt before s n args e = rw (deliver, e) refl

-- A URC line with the name of any of the URCs and, behind the colon, the printed texts of parameters
-- that have the types of this URC's format: `urcCallback` calls the URC's callback once if it is set,
-- with the values that were printed, and no other callback; the result is their number.
pub urc_callback_delivers :
    (h : Callbacks) (u : Urc) (params : List Param)
    → map param_char params ≡ urc_format u
    → All IsReadable params
    → urc_callback h (urc_name u ++ b':' ∷ params_text params) ≡ (
      pos (length params),
      if registered h u
          then record { urc = u; values = map (λ p. some (param_arg p)) params } ∷ []
          else [],
    )
urc_callback_delivers h u params types readable =
    urc_callback-line h u (params_text params)
    ∙ ap (λ fmt. deliver (registered h u) u fmt 0 (params_text params)) (sym types)
    ∙ deliver-parsed (registered h u) u (map param_char params) 0 (params_text params)
        (length params) (map param_arg params) (parse_params-params_text params 0 readable)
    ∙ ap
        (λ l.
          (pos (length params), if registered h u then record { urc = u; values = l } ∷ [] else []))
        (locals_full params)

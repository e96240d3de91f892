-- ===== src/ParamParser/RoundTrip.antt =====
-- What uCxAtClientSendCmdVaList sends for parameters is read back by uCxAtUtilParseParamsVaList.
use ucxclient.Prelude.{
  ℕ, ◌+◌, ◌<◌, ◌≡◌, refl, ap, ◌∙◌, Bool, true, false, not, ◌&&◌, some, List, [], ◌∷◌, ◌++◌, map,
  arith, Bytes, codes, All, length, if_true, if_false, lt→ltb, append-nil, append_assoc,
  length-append, Option, if◌then◌else◌,
}
use ucxclient.Prelude.Decimal.{show_ℤ}
use ucxclient.AtUtil.Escape.{write_esc_string}
use ucxclient.AtParams.Addresses.{type_char}
use ucxclient.AtUtil.Escape.Space.{quoted, write_esc_string_lem}
use ucxclient.AtUtil.Hex.RoundTrip.{hex_text, length-hex_text}
use ucxclient.AtParams.Ip.{IpAddress, v4, v6, ip_address_to_string}
use ucxclient.AtParams.Ip.RoundTrip.{ip_text}
use ucxclient.AtParams.IntList.RoundTrip.{ints_tail, ints_text}
use ucxclient.Prelude.Int.{ℤ}
use ucxclient.AtClient.State.{failed_assert}
use ucxclient.AtClient.Parse.Safe.{Returns, returned, Returns->>=, Returns-mono}
use ucxclient.AtClient.Send.{
  Param, digit, int_list, string, binary_string, ip_address, mac_address, bd_address, binary, hex,
  buf_size, send_integers, send_int_list, send_string, send_printed, send_param, is_binary,
  send_params,
}
use ucxclient.AtClient.Send.Safe.{length-show_ipv4}
use ucxclient.AtClient.Send.Text.{concat, hex_chunks_spell}
use ucxclient.ParamParser.{parsed, parse_loop, parse_params}
use ucxclient.ParamParser.Rounds.{parse_loop-only, parse_loop-comma}
use ucxclient.ParamParser.Printed.{
  param_char, param_arg, param_text, IsReadable, mac_prints, bd_prints, param_text-IsComplete,
  parse_param-param_text,
}

-- The texts of parameters with commas between them.
abbrev pub params_text : List Param → Bytes
params_text [] = []
params_text (p ∷ []) = param_text p
params_text (p ∷ q ∷ params) = param_text p ++ b',' ∷ params_text (q ∷ params)

parse_loop-params_text :
    (params : List Param) (before ret : ℕ)
    → All IsReadable params
    → parse_loop (map param_char params) before (params_text params) ret
      ≡ parsed (ret + length params) (map param_arg params)
parse_loop-params_text [] before ret h = unfold parse_loop in ap (λ n. parsed n []) (omega arith)
parse_loop-params_text (p ∷ []) before ret (hp, h) =
    parse_loop-only (param_char p) [] before (param_text p) ret (param_text-IsComplete p hp)
    ∙ ground (arith, parse_param-param_text p before hp)
parse_loop-params_text (p ∷ q ∷ params) before ret (hp, h) =
    parse_loop-comma (param_char p) (map param_char (q ∷ params)) before (param_text p)
      (params_text (q ∷ params)) ret (param_text-IsComplete p hp)
    ∙ ground (
      arith,
      parse_param-param_text p before hp,
      parse_loop-params_text (q ∷ params) 0 (ret + 1) h,
    )

-- The texts of readable parameters, separated by commas, are parsed to the values printed, by the
-- format of their characters, with the number of the parameters as the result.
pub parse_params-params_text :
    (params : List Param) (before : ℕ)
    → All IsReadable params
    → parse_params (map param_char params) before (params_text params)
      ≡ parsed (length params) (map param_arg params)
unfolding parse_params
parse_params-params_text params before h =
    parse_loop-params_text params before 0 h
    ∙ ap (λ n. parsed n (map param_arg params)) (omega arith)

-- The strings that are sent quoted and escaped: with their quotes they are shorter than the buffer.
abbrev pub Fits : Param → Type 0
Fits (string s) = length (quoted s) < buf_size
Fits (binary_string s) = length (quoted s) < buf_size
Fits p = Unit

abbrev Concats : Bytes → List Bytes → Type 0
Concats text chunks = concat chunks ≡ text

spells_one : (text : Bytes) → Concats text (text ∷ [])
spells_one text = append-nil text

send_string_spells : (s : Bytes) → length (quoted s) < buf_size → Concats (quoted s) (send_string s)
unfolding send_string
send_string_spells s fits =
    let out : write_esc_string s buf_size ≡ quoted s =
      write_esc_string_lem s buf_size
      ∙ if_true (λ t. t ≡ quoted s) [] (lt→ltb (length (quoted s)) buf_size fits) refl in
    rw out (
      if_true (Concats (quoted s)) _ (lt→ltb 0 (length (quoted s)) (omega arith))
        (spells_one (quoted s)))

send_printed_spells :
    (o : Option Bytes) (text : Bytes)
    → o ≡ some text
    → 0 < length text
    → Returns (Concats text) (send_printed o)
unfolding send_printed
send_printed_spells o text e long = rw e (
    if_true (Returns (Concats text)) failed_assert (lt→ltb 0 (length text) long)
      (returned _ (spells_one text)))

ip_prints :
    (a : IpAddress)
    → (ip_address_to_string a buf_size ≡ some (ip_text a)) × (0 < length (ip_text a))
unfolding ip_address_to_string
ip_prints (v4 a) = let (few, any) = length-show_ipv4 a in (ground (arith, few), any)
ip_prints (v6 w0 w1 w2 w3) = (refl, omega arith)

send_integers_spells : (values : List ℤ) → concat (send_integers values) ≡ ints_tail values
unfolding send_integers
send_integers_spells [] = refl
send_integers_spells (v ∷ values) = ap (λ t. b',' ∷ show_ℤ v ++ t) (send_integers_spells values)

send_int_list_spells : (values : List ℤ) → Concats (ints_text values) (send_int_list values)
unfolding send_int_list
send_int_list_spells [] = refl
send_int_list_spells (v ∷ values) = ap (λ t. b'[' ∷ show_ℤ v ++ t) (send_integers_spells values)

send_param_spells :
    (p : Param) → IsReadable p → Fits p → Returns (Concats (param_text p)) (send_param p)
unfolding send_param
send_param_spells (digit i) h fits = returned _ (spells_one (show_ℤ i))
send_param_spells (int_list values) h fits = returned _ (send_int_list_spells values)
send_param_spells (string s) h fits = returned _ (send_string_spells s fits)
send_param_spells (binary_string s) h fits = returned _ (send_string_spells s fits)
send_param_spells (ip_address a) h fits =
    let (prints, long) = ip_prints a in send_printed_spells _ (ip_text a) prints long
send_param_spells (mac_address a) (six, h) fits =
    send_printed_spells _ (hex_text a) (mac_prints a six) (omega (arith, length-hex_text a))
send_param_spells (bd_address a) (six, h, ne) fits =
    send_printed_spells _ (param_text (bd_address a)) (bd_prints a six)
      (omega (arith, length-append (hex_text a.address) (type_char a.type_of ∷ [])))
send_param_spells (binary bytes) h fits = absurd h
send_param_spells (hex bytes) h fits = hex_chunks_spell (length bytes) bytes (omega arith)

not_binary : (p : Param) → IsReadable p → is_binary p ≡ false
not_binary (digit i) h = refl
not_binary (int_list values) h = refl
not_binary (string s) h = refl
not_binary (binary_string s) h = refl
not_binary (ip_address a) h = refl
not_binary (mac_address a) h = refl
not_binary (bd_address a) h = refl
not_binary (binary bytes) h = absurd h
not_binary (hex bytes) h = refl

concat-append : (xs ys : List Bytes) → concat (xs ++ ys) ≡ concat xs ++ concat ys
concat-append [] ys = refl
concat-append (x ∷ xs) ys = rw (concat-append xs ys, append_assoc x (concat xs) (concat ys)) refl

-- What the loop has still to send, with a comma if there was a parameter before.
abbrev rest_text : Bool → List Param → Bytes
rest_text started [] = []
rest_text started (p ∷ params) =
    if started then b',' ∷ params_text (p ∷ params) else params_text (p ∷ params)

rest_text-cons :
    (p : Param) (params : List Param)
    → param_text p ++ rest_text true params ≡ params_text (p ∷ params)
rest_text-cons p [] = append-nil (param_text p)
rest_text-cons p (q ∷ params) = refl

round_text :
    (started : Bool) (p : Param) (params : List Param) (chunks more : List Bytes)
    → is_binary p ≡ false
    → concat chunks ≡ param_text p
    → concat more ≡ rest_text true params
    → concat (if started && not (is_binary p) then codes "," ∷ chunks ++ more else chunks ++ more)
      ≡ rest_text started (p ∷ params)
round_text false p params chunks more b e e' =
    rw (concat-append chunks more, e, e') (rest_text-cons p params)
round_text true p params chunks more b e e' =
    rw (b, concat-append chunks more, e, e') (ap (λ t. b',' ∷ t) (rest_text-cons p params))

send_params_spells :
    (started : Bool) (params : List Param)
    → All IsReadable params
    → All Fits params
    → Returns
        (λ r. (concat r.0 ≡ rest_text started params) × (r.1 ≡ false))
        (send_params started params)
unfolding send_params
send_params_spells started [] h fits = returned _ (refl, refl)
send_params_spells started (p ∷ params) (hp, h) (fp, fits) =
    let b = not_binary p hp in
    Returns->>= (send_param_spells p hp fp) (λ chunks e.
      if_false (Returns _) failed_assert (ground (arith, b)) (
        Returns->>= (send_params_spells true params h fits) (λ r e'.
          returned _ (round_text started p params chunks r.0 b e e'.0, ground (arith, b, e'.1)))))

started_text : (params : List Param) → rest_text false params ≡ params_text params
started_text [] = refl
started_text (p ∷ params) = refl

-- What `uCxAtClientSendCmdVaList` writes for readable parameters, with strings that it has the room to
-- escape, is parsed back by `uCxAtUtilParseParamsVaList`: with the format of the parameters it returns
-- their number and stores the values that were sent, whatever stands in front of them in memory. No
-- assertion fails, and no binary data ends the command.
pub parse_params-send_params :
    (params : List Param) (before : ℕ)
    → All IsReadable params
    → All Fits params
    → Returns
        (λ r.
          (parse_params (map param_char params) before (concat r.0)
            ≡ parsed (length params) (map param_arg params))
          × (r.1 ≡ false))
        (send_params false params)
parse_params-send_params params before h fits =
    Returns-mono (send_params_spells false params h fits) (λ r q. (
      ap (parse_params (map param_char params) before) (q.0 ∙ started_text params)
          ∙ parse_params-params_text params before h,
      q.1,
    ))

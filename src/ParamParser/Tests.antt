-- ===== src/ParamParser/Tests.antt =====
-- The parameter parser at concrete inputs.
use ucxclient.Prelude.{◌≡◌, ◌↔◌, refl, false, List, [], ◌∷◌, arith, codes}
use ucxclient.Prelude.Int.{pos, negsuc}
use ucxclient.Prelude.Decimal.{read_long, read_sign, skip_spaces, scan_digits}
use ucxclient.AtUtil.Escape.{escape_character}
use ucxclient.AtUtil.ParamEnd.{find_param_end, scan_loop, scan_char, scan_end}
use ucxclient.AtClient.Parse.Safe.{Returns}
use ucxclient.AtClient.Send.{Param, digit, string, int_list, ip_address, hex, send_params}
use ucxclient.AtParams.Ip.{v6}
use ucxclient.AtClient.Send.Text.{concat}
use ucxclient.ParamParser.{
  digit_arg, string_arg, int_list_arg, ip_arg, byte_array_arg, parsed, failed, parse_params,
  parse_loop, parse_param, parse_digit, clamp_long, replace_char,
}
use ucxclient.ParamParser.Types.{Typed, parse_params-Typed}
use ucxclient.ParamParser.Refusals.{Refusal, parse_params-Refusal}
use ucxclient.ParamParser.RoundTrip.{parse_params-send_params}

parse_params-Typed_example :
    Typed (codes "db") 0 (parse_params (codes "db") 0 (codes "3,0123456789ABp"))
parse_params-Typed_example = parse_params-Typed (codes "db") 0 (codes "3,0123456789ABp")

parse_params-Refusal_example :
    (parse_params (codes "sdd") 0 (codes "a,1x,2") ≡ failed 2)
    ↔ Refusal (codes "sdd") 0 (codes "a,1x,2") 2
parse_params-Refusal_example = parse_params-Refusal (codes "sdd") 0 (codes "a,1x,2") 2

abbrev params : List Param
params =
    digit (negsuc 6)
    ∷ string (codes "a,\"b")
    ∷ int_list (pos 1 ∷ negsuc 1 ∷ [])
    ∷ ip_address (v6 1 0 0 2)
    ∷ hex (0xAB ∷ 1 ∷ [])
    ∷ []

parse_params-send_params_example :
    Returns
      (λ r.
        (parse_params (codes "dslih") 0 (concat r.0)
          ≡ parsed 5 (
              digit_arg (negsuc 6)
              ∷ string_arg (codes "a,\"b")
              ∷ int_list_arg (pos 1 ∷ negsuc 1 ∷ [])
              ∷ ip_arg (v6 1 0 0 2)
              ∷ byte_array_arg (0xAB ∷ 1 ∷ [])
              ∷ []))
        × (r.1 ≡ false))
      (send_params false params)
unfolding escape_character
parse_params-send_params_example =
    parse_params-send_params params 0
      (
        (omega arith, omega arith),
        (
          (omega arith, (omega arith, (omega arith, (omega arith, tt)))),
          (
            ((omega arith, omega arith), ((omega arith, omega arith), tt)),
            (
              (omega arith, omega arith, omega arith, omega arith),
              ((omega arith, (omega arith, tt)), tt),
            ),
          ),
        ),
      )
      (tt, (omega arith, (tt, (tt, (tt, tt)))))

-- A text that ends before its format does.
ends_early : parse_params (codes "dd") 0 (codes "5") ≡ parsed 1 (digit_arg (pos 5) ∷ [])
unfolding parse_params parse_loop find_param_end scan_loop scan_char scan_end parse_param
    parse_digit read_long read_sign skip_spaces scan_digits clamp_long
ends_early = refl

bad_number : parse_params (codes "dd") 0 (codes "5, 6") ≡ failed 2
unfolding parse_params parse_loop find_param_end scan_loop scan_char scan_end parse_param
    parse_digit read_long read_sign skip_spaces scan_digits
bad_number = refl

open_quote : parse_params (codes "s") 0 (codes "\"ab") ≡ failed 1
unfolding parse_params parse_loop find_param_end scan_loop scan_char scan_end
open_quote = refl

replaced : replace_char (codes "a-b-c") 3 b'-' b'+' ≡ codes "a+b-c"
unfolding replace_char
replaced = refl

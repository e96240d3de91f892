-- ===== src/UcxApi/Variant.antt =====
-- The functions of ucx_api/generated whose response has several forms, told apart by one of its values:
-- they parse the response once for this value, and then by the format that it selects.
use ucxclient.Prelude.{
  ℕ, not, ◌||◌, Option, none, some, List, [], ◌∷◌, Bytes, length, set, ◌==◌, if◌then◌else◌,
}
use ucxclient.Prelude.Int.{ℤ, pos, ltb_ℤ}
use ucxclient.AtUtil.ParamEnd.{find_param_end}
use ucxclient.ParamParser.{Arg, parse_params, parsed, failed, result_of, args_of, replace_char}
use ucxclient.AtClient.State.{ran, ◌>>=◌}
use ucxclient.AtClient.Send.{Param}
use ucxclient.AtClient.Command.{cmd_begin, cmd_get_rsp_param_line}
use ucxclient.UcxApi.Call.{ApiCall, OpenCall, of_bool, is_negative, stored_digit, end_cmd}

-- What one round of the parser leaves of the text: a terminator in place of the first comma.
unfoldable pub first_end : Bytes → Bytes
first_end line = elim (find_param_end line) [ none ↦ line | some n ↦ set line n 0 ]

-- The text that is parsed the second time: `uCxAtUtilReplaceChar(pParamsLine, paramsLen, 0, ',')`.
unfoldable pub second_line : Bytes → Bytes
second_line line = replace_char (first_end line) (length line) 0 b','

-- The switch on a value, as a list of its cases; `none` is the default.
unfoldable pub select : List (ℤ × Bytes) → ℤ → Option Bytes
select [] value = none
select ((key, fmt) ∷ cases) value =
    if ltb_ℤ key value || ltb_ℤ value key then select cases value else some fmt

-- The two parsings, with `cases` the formats that the switch selects and `junk` what the variable of
-- the switch holds first; `none` is `return false`.
unfoldable pub parse_variant : Bytes → List (ℤ × Bytes) → ℤ → ℕ → Bytes → Option (ℤ × List Arg)
parse_variant first_fmt cases junk before line = elim (parse_params first_fmt before line) [
  | failed k ↦ none
  | parsed ret args ↦
      if not (ret == 1) then none else elim (select cases (stored_digit junk args)) [
        | none ↦ none
        | some fmt ↦
            let r = parse_params fmt before (second_line line) in some (result_of r, args_of r)
      ]
]

-- The same on the response, which is NULL if there is none.
unfoldable pub variant_of : Bytes → List (ℤ × Bytes) → ℤ → ℕ → Option Bytes → Option (ℤ × List Arg)
variant_of first_fmt cases junk before none = none
variant_of first_fmt cases junk before (some line) = parse_variant first_fmt cases junk before line

-- A function of this kind that leaves its command under way.
unfoldable pub begin_variant : Bytes → List Param → Bytes → Bytes → List (ℤ × Bytes) → ℤ → OpenCall
begin_variant cmd params expected first_fmt cases junk c t events =
    cmd_begin c cmd params t.now >>= λ (chunks, c1).
    cmd_get_rsp_param_line c1 (some expected) [] none t.rsp_clock events >>= λ r. ran (elim r [
      | none ↦ none
      | some (line, c2, rest) ↦ some (elim (variant_of first_fmt cases junk t.before line) [
        | none ↦ record { chunks = chunks; result = pos 0; values = []; client = c2; unread = rest }
        | some (ret, values) ↦ record {
          chunks = chunks;
          result = of_bool (not (is_negative ret));
          values = values;
          client = c2;
          unread = rest;
        }
      ])
    ])

-- A function of this kind that ends its command, but for the returns in between.
unfoldable pub get_variant : Bytes → List Param → Bytes → Bytes → List (ℤ × Bytes) → ℤ → ApiCall
get_variant cmd params expected first_fmt cases junk c t events =
    cmd_begin c cmd params t.now >>= λ (chunks, c1).
    cmd_get_rsp_param_line c1 (some expected) [] none t.rsp_clock events >>= λ r. elim r [
      | none ↦ ran none
      | some (line, c2, rest) ↦ elim (variant_of first_fmt cases junk t.before line) [
        | none ↦ ran (
            some (record { chunks = chunks; result = pos 0; values = []; calls = []; client = c2 }))
        | some answer ↦ end_cmd chunks answer c2 t rest
      ]
    ]

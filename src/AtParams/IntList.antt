-- ===== src/AtParams/IntList.antt =====
-- Integer lists in src/u_cx_at_params.c. The parser stores its values over the string that it reads,
-- two bytes for each; a value takes a digit and a comma or bracket at least, so that the stores stay
-- behind the reader, and the list of the values is what the model keeps.
pub mod RoundTrip
use ucxclient.Prelude.{
  ℕ, zero, suc, ◌+◌, ◌-◌, ◌^◌, Bool, ◌&&◌, ◌||◌, not, Option, none, some, List, [], ◌∷◌, ◌++◌,
  Bytes, length, drop, take, ltb, leb, ◌==◌, if◌then◌else◌,
}
use ucxclient.Prelude.Int.{ℤ, pos, negsuc, ltb_ℤ}
use ucxclient.Prelude.Decimal.{first, show_ℤ, read_long}

-- `value < INT16_MIN || value > INT16_MAX`
abbrev pub outside_int16 : ℤ → Bool
outside_int16 value = ltb_ℤ value (negsuc (2 ^ 15 - 1)) || ltb_ℤ (pos (2 ^ 15 - 1)) value

-- The commas of a string.
unfoldable pub count_commas : Bytes → ℕ
count_commas [] = 0
count_commas (c ∷ s) = if c == b',' then suc (count_commas s) else count_commas s

-- The loop over the integers, `rounds` of them still to be read, with what follows them.
unfoldable pub int_list_loop : ℕ → Bytes → Option (List ℤ × Bytes)
int_list_loop zero s = some ([], s)
int_list_loop (suc rounds) s = elim (read_long s) [
  | none ↦ none
  | some (value, rest) ↦
      let others = int_list_loop rounds (if rounds == 0 then rest else drop 1 rest) in
      if outside_int16 value
      then none
      else if not (rounds == 0) && not (first rest == b',')
      then none
      else elim others [ none ↦ none | some (values, behind) ↦ some (value ∷ values, behind) ]
]

-- `uCxStringToIntList`; `none` is the result -1.
unfoldable pub string_to_int_list : Bytes → Option (List ℤ)
string_to_int_list s =
    if leb 2 (length s) && (first s == b'[' && first (drop 1 s) == b']')
    then some []
    else if ltb (length s) 3 || not (first s == b'[')
    then none
    else elim (int_list_loop (suc (count_commas (take (length s - 2) (drop 1 s)))) (drop 1 s)) [
      | none ↦ none
      | some (values, rest) ↦ if first rest == b']' then some values else none
    ]

-- The loop of `uCxIntListToString` behind the first value, at the position `place` of the buffer.
unfoldable pub int_list_text : List ℤ → ℕ → ℕ → Option Bytes
int_list_text [] place size = if leb (size - 1) place then none else some (b']' ∷ [])
int_list_text (value ∷ values) place size =
    let text = show_ℤ value in
    let rest = int_list_text values (place + 1 + length text) size in
    if leb (size - 1) place
    then none
    else if leb (size - 1) (place + 1 + length text)
    then none
    else elim rest [ none ↦ none | some tail ↦ some (b',' ∷ text ++ tail) ]

-- `uCxIntListToString`: the string, whose length is the result; `none` is the result -1.
unfoldable pub int_list_to_string : List ℤ → ℕ → Option Bytes
int_list_to_string [] size = if ltb size 3 then none else some (b'[' ∷ b']' ∷ [])
int_list_to_string (value ∷ values) size =
    let text = show_ℤ value in
    let rest = int_list_text values (1 + length text) size in
    if ltb size 3
    then none
    else if leb (size - 1) (1 + length text)
    then none
    else elim rest [ none ↦ none | some tail ↦ some (b'[' ∷ text ++ tail) ]

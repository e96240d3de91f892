-- ===== src/AtUtil/ParamEnd.antt =====
-- The tokenizer of AT parameters: uCxAtUtilFindParamEnd of src/u_cx_at_util.c.
pub mod Scan
pub mod Split
use ucxclient.Prelude.{
  ℕ, ◌+◌, Bool, true, false, Option, none, some, [], ◌∷◌, ◌&&◌, ◌||◌, not, Bytes, ◌==◌,
  if◌then◌else◌,
}

-- The three flags of the loop.
pub record Flags : Type 0 where
  pub inside_string : Bool
  pub inside_bracket : Bool
  pub escape : Bool

-- One round of the loop at a character; `none` is the `break`.
unfoldable pub scan_char : Flags → ℕ → Option Flags
scan_char f c =
    if f.escape
    then some (record f { escape = false })
    else if c == b'\\'
    then some (record f { escape = true })
    else if f.inside_string
    then some (if c == 0x22 then record f { inside_string = false } else f)
    else if c == 0x22
    then some (record f { inside_string = true })
    else if c == b'['
    then some (record f { inside_bracket = true })
    else if c == b']'
    then some (record f { inside_bracket = false })
    else if c == b',' && not f.inside_bracket
    then none
    else some f

-- The test behind the loop, at the distance `pos` of `pIter` from the start.
unfoldable pub scan_end : Flags → ℕ → Option ℕ
scan_end f pos = if f.inside_string || f.escape || f.inside_bracket then none else some pos

unfoldable pub scan_loop : Flags → Bytes → ℕ → Option ℕ
scan_loop f [] pos = scan_end f pos
scan_loop f (c ∷ s) pos = elim (scan_char f c) [
  | none ↦ scan_end f pos
  | some f' ↦ scan_loop f' s (pos + 1)
]

abbrev pub start_flags : Flags
start_flags = record { inside_string = false; inside_bracket = false; escape = false }

-- `uCxAtUtilFindParamEnd`: the distance of the result from `pStr`; `none` is NULL.
unfoldable pub find_param_end : Bytes → Option ℕ
find_param_end s = scan_loop start_flags s 0

-- ===== src/AtClient/Parse.antt =====
-- parseLine of src/u_cx_at_client.c: what a received line means.
pub mod Safe
pub mod Status
use ucxclient.Prelude.{
  ℕ, ◌+◌, ◌-◌, ◌*◌, ◌^◌, Bool, true, false, not, ◌&&◌, ◌||◌, Option, none, some, [], ◌∷◌, Bytes,
  codes, length, drop, leb, ltb, ◌==◌, if◌then◌else◌, min,
}
use ucxclient.Prelude.Int.{ℤ, pos, ◌-ℤ◌}
use ucxclient.Prelude.Decimal.{first, isdigit, scan_digits, long_max}
use ucxclient.UrcQueue.{enqueue_begin}
use ucxclient.AtClient.State.{
  Client, ParserCode, nop, got_status, got_rsp, got_urc, Exec, ran, on_queue, ◌>>=◌, error_status,
}

-- `strncmp(s, p, strlen(p)) == 0`
abbrev pub starts_with : Bytes → Bytes → Bool
starts_with s [] = true
starts_with [] (p ∷ ps) = false
starts_with (c ∷ s) (p ∷ ps) = c == p && starts_with s ps

-- `strcmp(s, t) == 0`
abbrev pub same_text : Bytes → Bytes → Bool
same_text [] [] = true
same_text [] (d ∷ t) = false
same_text (c ∷ s) [] = false
same_text (c ∷ s) (d ∷ t) = c == d && same_text s t

-- The characters behind `ERROR`, with no further ones or with an extended code.
unfoldable pub parse_error : Client → Bytes → ParserCode × Client
parse_error c [] = (got_status, record c { status = error_status })
parse_error c (d ∷ code_str) =
    let (code, rest) = scan_digits 0 code_str in
    if d == b':' && (isdigit (first code_str) && first rest == 0)
    then (got_status, record c { status = pos 0 -ℤ pos (min code long_max) })
    else (nop, c)

-- `pExpectedRsp` is set, not empty, and starts the line.
unfoldable pub is_expected : Option Bytes → Bytes → Bool
is_expected none line = false
is_expected (some []) line = false
is_expected (some (p ∷ ps)) line = starts_with line (p ∷ ps)

abbrev pub expected_len : Option Bytes → ℕ
expected_len none = 0
expected_len (some p) = length p

-- The part of `parseLine` that runs while a command is being executed.
unfoldable pub parse_response : Client → Bytes → ParserCode × Client
parse_response c line =
    if is_expected c.expected_rsp line
    then (got_rsp, record c { rsp_params = some (drop (expected_len c.expected_rsp) line) })
    else if same_text line (codes "OK")
    then (got_status, record c { status = pos 0 })
    else if starts_with line (codes "ERROR")
    then parse_error c (drop 5 line)
    else if not (first line == b'+')
        && (not (first line == b'*') && not (starts_with line (codes "AT+")))
    then (got_rsp, record c { rsp_params = some line })
    else (nop, c)

-- The part of `parseLine` for lines that are no response: URCs go to the queue.
unfoldable pub parse_urc : Client → Bytes → Exec (ParserCode × Client)
parse_urc c line =
    if first line == b'+' || first line == b'*'
    then (on_queue c (enqueue_begin c.urc_queue line) >>= λ (queued, c').
        ran (if queued then got_urc else nop, c'))
    else ran (nop, c)

abbrev pub is_line_end : ℕ → Bool
is_line_end ch = ch == 0x0D || ch == 0x0A

-- The loop that finds out whether the line is empty.
unfoldable pub empty_line : Bytes → Bool
empty_line [] = true
empty_line (ch ∷ line) = if is_line_end ch then empty_line line else false

-- `parseLine`
unfoldable pub parse_line : Client → Bytes → Exec (ParserCode × Client)
parse_line c line =
    if empty_line line
    then ran (nop, c)
    else if c.executing_cmd
    then (let (code, c') = parse_response c line in
        elim code [ nop ↦ parse_urc c' line | other ↦ ran (other, c') ])
    else parse_urc c line

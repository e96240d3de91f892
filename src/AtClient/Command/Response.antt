-- ===== src/AtClient/Command/Response.antt =====
-- The wait for a response line.
use ucxclient.Prelude.{
  ℕ, ◌≡◌, refl, ap, sym, ◌∙◌, inl, inr, Bool-cases, Option, none, some, List, [], ◌∷◌, ◌++◌, Bytes,
  if◌then◌else◌, if_both, if_true, if_false,
}
use mathlib.Core.Bool.{false≢true}
use ucxclient.Prelude.Int.{ℤ, ltb_ℤ, ◌-ℤ◌}
use ucxclient.UrcQueue.Entries.{Entry}
use ucxclient.AtClient.State.{Client, ParserCode, Exec, ran}
use ucxclient.AtClient.Uart.{Event}
use ucxclient.AtClient.Parse.Safe.{Returns, returned, Returns->>=, Returns-mono}
use ucxclient.AtClient.Rx.Char.{Grown, grown, unchanged, regrow, Ends}
use ucxclient.AtClient.Rx.Receive.{Mode, text, header, data_part}
use ucxclient.AtClient.Rx.Safe.{handle_rx_data-Mode}
use ucxclient.AtClient.Rx.Frame.{Frame, frame, middle}
use ucxclient.AtClient.Rx.Frame.Path.{handle_rx_data-Leaves}
use ucxclient.AtClient.Command.{is_pending, is_late, is_rsp, rsp_wait, cmd_get_rsp_param_line}
use ucxclient.AtClient.Command.Wait.{Late, Returns-both}

-- A wait that has ended, with a response or without.
pub data Answered (k : Frame) (entries : List Entry)
    : Option (Option Bytes × Client × List Event) → Type 0 where
  answered :
      (params : Option Bytes) (c : Client) (rest : List Event)
      → Grown entries Mode c
      → frame c ≡ k
      → Answered k entries (some (params, c, rest))

widen_answer :
    {k k' : Frame} {entries : List Entry} (added : List Entry)
    (r : Option (Option Bytes × Client × List Event))
    → k ≡ k'
    → Answered k (entries ++ added) r
    → Answered k' entries r
widen_answer added r e (answered params c rest g f) =
    answered params c rest (regrow added g) (f ∙ e)

after_read :
    (clock : List ℤ) (now : ℤ) (k : Frame) (entries : List Entry)
    → ((c : Client) (entries' : List Entry) (events : List Event)
        → Mode c entries'
        → Late c.cmd_start_time c.cmd_timeout clock
        → Returns (Answered (frame c) entries') (rsp_wait clock c events))
    → Late k.cmd_start_time k.cmd_timeout (now ∷ clock)
    → (r : ParserCode × Client × List Event) → Ends entries Mode r
    → frame r.1 ≡ k
    → Returns (Answered k entries) (
        if is_rsp r.0
        then ran (some (r.1.rsp_params, r.1, r.2))
        else if is_late r.1 now
        then ran (some (none, r.1, r.2))
        else rsp_wait clock r.1 r.2)
after_read clock now k entries loop late (code, c, rest) (grown added m) e =
    let starts = ap (λ (f : Frame). f.cmd_start_time) e in
    let limits = ap (λ (f : Frame). f.cmd_timeout) e in
    let same_late : is_late c now ≡ ltb_ℤ k.cmd_timeout (now -ℤ k.cmd_start_time) =
      rw (starts, limits) refl in
    let R : Exec (Option (Option Bytes × Client × List Event)) → Type 0 =
      Returns (Answered k entries) in
    if_both R (is_rsp code) (returned _ (answered c.rsp_params c rest (grown added m) e))
      (elim (Bool-cases (is_late c now)) [
        | inl l ↦ if_true R _ l (returned _ (answered none c rest (grown added m) e))
        | inr l ↦ if_false R (ran (some (none, c, rest))) l (elim late [
          | inl past ↦ absurd (false≢true (sym l ∙ same_late ∙ past))
          | inr later ↦
              Returns-mono (loop c (entries ++ added) rest m (rw (starts, limits) later))
                (λ r w. widen_answer added r e w)
        ])
      ])

rsp_wait_ends :
    (clock : List ℤ) (c : Client) (entries : List Entry) (events : List Event)
    → Mode c entries
    → Late c.cmd_start_time c.cmd_timeout clock
    → Returns (Answered (frame c) entries) (rsp_wait clock c events)
unfolding rsp_wait
rsp_wait_ends [] c entries events m late = absurd late
rsp_wait_ends (now ∷ clock) c entries events m late = elim (Bool-cases (is_pending c)) [
  | inl p ↦ if_true (Returns (Answered (frame c) entries)) _ p (
      Returns->>=
        (Returns-both middle (handle_rx_data-Mode c entries events m)
          (handle_rx_data-Leaves c events))
        (λ r h.
          after_read clock now (frame c) entries
            (λ c' en ev m' l. rsp_wait_ends clock c' en ev m' l) late r h.0 h.1))
  | inr n ↦
      if_false (Returns (Answered (frame c) entries)) _ n
        (returned (some (none, c, events)) (answered none c events (unchanged m) refl))
]

-- The client that waits for a response.
abbrev pub asking : Client → Option Bytes → Bytes → Option ℕ → Client
asking c expected binary_buf binary_buf_length = record c {
  rsp_buffer = binary_buf;
  rsp_length = binary_buf_length;
  rsp_params = none;
  expected_rsp = expected;
}

asking-Mode :
    {c : Client} {entries : List Entry} (expected : Option Bytes) (buf : Bytes) (len : Option ℕ)
    → Mode c entries
    → Mode (asking c expected buf len) entries
asking-Mode expected buf len (text t) = text (record {
  fits = record { within = t.fits.within; size = t.fits.size; small = t.fits.small };
  no_binary = t.no_binary;
  no_header = t.no_header;
  queue = t.queue;
})
asking-Mode expected buf len (header h) = header (record {
  fits = record { within = h.fits.within; size = h.fits.size; small = h.fits.small };
  binary = h.binary;
  headless = h.headless;
  queue = h.queue;
})
asking-Mode expected buf len (data_part d) = data_part (record {
  fits = record { within = d.fits.within; size = d.fits.size; small = d.fits.small };
  binary = d.binary;
  headed = d.headed;
  carries = d.carries;
})

-- `uCxAtClientCmdGetRspParamLine`, from any mode of the receive path and whatever arrives, returns if
-- one of the clock's readings is past the command's timeout, with a response or with none: it waits for
-- no mutex and fails no assertion, ends in a mode of the receive path, keeps the queue's entries, and
-- leaves the command as it is but for the response that it asked for.
pub cmd_get_rsp_param_line-Answered :
    (c : Client) (entries : List Entry) (expected : Option Bytes) (binary_buf : Bytes)
    (binary_buf_length : Option ℕ) (clock : List ℤ) (events : List Event)
    → Mode c entries
    → Late c.cmd_start_time c.cmd_timeout clock
    → Returns
        (Answered (frame (asking c expected binary_buf binary_buf_length)) entries)
        (cmd_get_rsp_param_line c expected binary_buf binary_buf_length clock events)
unfolding cmd_get_rsp_param_line
cmd_get_rsp_param_line-Answered c entries expected buf len clock events m late =
    rsp_wait_ends clock (asking c expected buf len) entries events (asking-Mode expected buf len m)
      late

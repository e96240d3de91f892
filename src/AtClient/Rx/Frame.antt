-- ===== src/AtClient/Rx/Frame.antt =====
-- What the receive path leaves alone: the command's state and the settings.
pub mod Path
use ucxclient.Prelude.{
  ℕ, zero, suc, ◌+◌, ◌-◌, ◌≡◌, refl, ◌∙◌, Bool, true, false, not, ◌&&◌, ◌||◌, Option, none, some,
  List, [], ◌∷◌, Bytes, codes, length, drop, ltb, ◌==◌, if◌then◌else◌, if_both, min,
}
use ucxclient.Prelude.Int.{ℤ}
use ucxclient.UrcQueue.{
  Outcome, returns, waits, asserts, enqueue_begin, enqueue_end, enqueue_abort,
  enqueue_get_payload_ptr,
}
use ucxclient.AtUtil.Escape.{isprint}
use ucxclient.AtClient.State.{
  Client, BinaryState, flush, rsp, urc, Target, nowhere, response, in_queue, ParserCode, nop,
  got_status, got_rsp, got_urc, start_binary, error, Exec, ran, stuck, failed_assert, on_queue,
  ◌>>=◌,
}
use ucxclient.AtClient.Uart.{Event, byte, pause, fault, ReadResult, got, failed, uart_read}
use ucxclient.AtClient.Parse.{
  parse_line, parse_response, parse_error, parse_urc, is_line_end, empty_line, is_expected,
  same_text, starts_with,
}
use ucxclient.Prelude.Decimal.{first, isdigit, scan_digits, long_max}
use ucxclient.AtClient.Rx.{
  soh, rx_line, terminate, push_char, finish_line, parse_incoming_char, char_loop, io_error,
  setup_binary_rx_buffer, setup_binary_transfer, store_binary, Round, go_on, leave, io_failed,
  received, binary_round, binary_loop, end_transfer, finish_binary, receive_binary, start_transfer,
  store_header, handle_binary_rx, handle_rx_data,
}

-- The command under way and the settings of a client.
pub record Frame : Type 0 where
  pub executing_cmd : Bool
  pub opened : Bool
  pub cmd_start_time : ℤ
  pub cmd_timeout : ℤ
  pub cmd_timeout_last_perm : ℤ
  pub expected_rsp : Option Bytes
  pub has_urc_callback : Bool
  pub cmd_mutex : Bool

abbrev pub frame : Client → Frame
frame c = record {
  executing_cmd = c.executing_cmd;
  opened = c.opened;
  cmd_start_time = c.cmd_start_time;
  cmd_timeout = c.cmd_timeout;
  cmd_timeout_last_perm = c.cmd_timeout_last_perm;
  expected_rsp = c.expected_rsp;
  has_urc_callback = c.has_urc_callback;
  cmd_mutex = c.cmd_mutex;
}

-- If a call returns, its client has the frame `k`.
abbrev pub Leaves {ℓ} : {A : Type ℓ} → (A → Client) → Frame → Exec A → Type 0
Leaves view k (ran a) = frame (view a) ≡ k
Leaves view k stuck = Unit
Leaves view k failed_assert = Unit

pub Leaves->>= {ℓ κ} :
    {A : Type ℓ} {B : Type κ} (view : A → Client) (view' : B → Client) (k : Frame) (m : Exec A)
    (f : A → Exec B)
    → Leaves view k m
    → ((a : A) → frame (view a) ≡ k → Leaves view' k (f a))
    → Leaves view' k (m >>= f)
Leaves->>= view view' k (ran a) f l next = next a l
Leaves->>= view view' k stuck f l next = tt
Leaves->>= view view' k failed_assert f l next = tt

abbrev pub middle {ℓ} : {A : Type ℓ} → ParserCode × Client × A → Client
middle r = r.1

pub on_queue-Leaves {ℓ} :
    {A : Type ℓ} (k : Frame) (c : Client) (o : Outcome A)
    → frame c ≡ k
    → Leaves (λ r. r.1) k (on_queue c o)
on_queue-Leaves k c (returns a q) e = e
on_queue-Leaves k c (waits q) e = tt
on_queue-Leaves k c asserts e = tt

parse_error-frame :
    (k : Frame) (c : Client) (s : Bytes) → frame c ≡ k → frame (parse_error c s).1 ≡ k
unfolding parse_error
parse_error-frame k c [] e = e
parse_error-frame k c (d ∷ s) e =
    if_both (λ (r : ParserCode × Client). frame r.1 ≡ k)
      (d == b':' && (isdigit (first s) && first (scan_digits 0 s).1 == 0)) e e

parse_response-frame :
    (k : Frame) (c : Client) (line : Bytes) → frame c ≡ k → frame (parse_response c line).1 ≡ k
unfolding parse_response
parse_response-frame k c line e =
    let P : ParserCode × Client → Type 0 = λ r. frame r.1 ≡ k in
    if_both P (is_expected c.expected_rsp line) e (
      if_both P (same_text line (codes "OK")) e (
        if_both P (starts_with line (codes "ERROR")) (parse_error-frame k c (drop 5 line) e) (
          if_both P
            (not (first line == b'+')
              && (not (first line == b'*') && not (starts_with line (codes "AT+"))))
            e e)))

parse_urc-Leaves :
    (k : Frame) (c : Client) (line : Bytes) → frame c ≡ k → Leaves (λ r. r.1) k (parse_urc c line)
unfolding parse_urc
parse_urc-Leaves k c line e =
    if_both (Leaves (λ r. r.1) k) (first line == b'+' || first line == b'*')
      (Leaves->>= (λ r. r.1) (λ r. r.1) k (on_queue c (enqueue_begin c.urc_queue line)) _
        (on_queue-Leaves k c _ e) (λ a e'. e'))
      e

otherwise_urc-Leaves :
    (k : Frame) (line : Bytes) (r : ParserCode × Client)
    → frame r.1 ≡ k
    → Leaves (λ r'. r'.1) k (elim (r.0) [ nop ↦ parse_urc r.1 line | other ↦ ran (other, r.1) ])
otherwise_urc-Leaves k line (nop, c) e = parse_urc-Leaves k c line e
otherwise_urc-Leaves k line (got_status, c) e = e
otherwise_urc-Leaves k line (got_rsp, c) e = e
otherwise_urc-Leaves k line (got_urc, c) e = e
otherwise_urc-Leaves k line (start_binary, c) e = e
otherwise_urc-Leaves k line (error, c) e = e

pub parse_line-Leaves :
    (k : Frame) (c : Client) (line : Bytes) → frame c ≡ k → Leaves (λ r. r.1) k (parse_line c line)
unfolding parse_line
parse_line-Leaves k c line e = if_both (Leaves (λ r. r.1) k) (empty_line line) e (
    if_both (Leaves (λ r. r.1) k) c.executing_cmd
      (otherwise_urc-Leaves k line (parse_response c line) (parse_response-frame k c line e))
      (parse_urc-Leaves k c line e))

-- ===== src/AtClient/Rx/Frame/Path.antt =====
-- handleRxData leaves the command's state and the settings alone.
use ucxclient.Prelude.{
  ℕ, zero, suc, ◌-◌, ◌≡◌, refl, ◌∙◌, Bool, true, false, Option, none, some, List, [], ◌∷◌, Bytes,
  length, ltb, ◌==◌, if◌then◌else◌, if_both, min,
}
use ucxclient.UrcQueue.{enqueue_end, enqueue_abort, enqueue_get_payload_ptr}
use ucxclient.AtUtil.Escape.{isprint}
use ucxclient.AtClient.State.{
  Client, BinaryState, flush, rsp, urc, Target, nowhere, response, in_queue, ParserCode, nop,
  got_status, got_rsp, got_urc, start_binary, error, ran, stuck, on_queue, ◌>>=◌,
}
use ucxclient.AtClient.Uart.{Event, byte, pause, fault, ReadResult, got, failed, uart_read}
use ucxclient.AtClient.Parse.{parse_line, is_line_end}
use ucxclient.AtClient.Rx.{
  soh, rx_line, terminate, push_char, finish_line, parse_incoming_char, char_loop, io_error,
  setup_binary_rx_buffer, setup_binary_transfer, store_binary, Round, go_on, leave, io_failed,
  received, binary_round, binary_loop, end_transfer, finish_binary, receive_binary, start_transfer,
  store_header, handle_binary_rx, handle_rx_data,
}
use ucxclient.AtClient.Rx.Frame.{
  Frame, frame, Leaves, Leaves->>=, on_queue-Leaves, parse_line-Leaves, middle,
}

finish_line-Leaves :
    (k : Frame) (code : ParserCode) (c : Client)
    → frame c ≡ k
    → Leaves (λ r. r.1) k (finish_line code c)
unfolding finish_line
finish_line-Leaves k got_urc c e =
    Leaves->>= (λ r. r.1) (λ r. r.1) k (on_queue c (enqueue_end c.urc_queue 0)) _
      (on_queue-Leaves k c _ e) (λ a e'. e')
finish_line-Leaves k nop c e = e
finish_line-Leaves k _ c e = e

parse_incoming_char-Leaves :
    (k : Frame) (c : Client) (ch : ℕ) → frame c ≡ k → Leaves (λ r. r.1) k (parse_incoming_char c ch)
unfolding parse_incoming_char push_char
parse_incoming_char-Leaves k c ch e = if_both (Leaves (λ r. r.1) k) (ch == soh) e (
    if_both (Leaves (λ r. r.1) k) (is_line_end ch)
      (Leaves->>= (λ r. r.1) (λ r. r.1) k (parse_line (terminate c) (rx_line c)) _
        (parse_line-Leaves k (terminate c) (rx_line c) e)
        (λ r e'. finish_line-Leaves k r.0 (record (r.1) { rx_buffer_pos = 0 }) e'))
      (if_both (Leaves (λ r. r.1) k) (isprint ch) e e))

next_char-Leaves :
    (k : Frame) (events : List Event)
    → ((c : Client) → frame c ≡ k → Leaves middle k (char_loop events c))
    → (code : ParserCode) (c : Client) → frame c ≡ k
    → Leaves middle k (elim code [ nop ↦ char_loop events c | other ↦ ran (other, c, events) ])
next_char-Leaves k events loop nop c e = loop c e
next_char-Leaves k events loop got_status c e = e
next_char-Leaves k events loop got_rsp c e = e
next_char-Leaves k events loop got_urc c e = e
next_char-Leaves k events loop start_binary c e = e
next_char-Leaves k events loop error c e = e

char_loop-Leaves :
    (k : Frame) (events : List Event) (c : Client)
    → frame c ≡ k
    → Leaves middle k (char_loop events c)
unfolding char_loop
char_loop-Leaves k [] c e = e
char_loop-Leaves k (pause ∷ events) c e = e
char_loop-Leaves k (fault x ∷ events) c e = e
char_loop-Leaves k (byte ch ∷ events) c e =
    Leaves->>= (λ r. r.1) middle k (parse_incoming_char c ch) _
      (parse_incoming_char-Leaves k c ch e)
      (λ r e'. next_char-Leaves k events (λ c' e''. char_loop-Leaves k events c' e'') r.0 r.1 e')

setup_binary_transfer-Leaves :
    (k : Frame) (c : Client) (code : ParserCode) (n : ℕ)
    → frame c ≡ k
    → Leaves (λ c'. c') k (setup_binary_transfer c code n)
unfolding setup_binary_transfer setup_binary_rx_buffer
setup_binary_transfer-Leaves k c got_rsp n e = e
setup_binary_transfer-Leaves k c got_urc n e =
    Leaves->>= (λ r. r.1) (λ c'. c') k (on_queue c (enqueue_get_payload_ptr c.urc_queue)) _
      (on_queue-Leaves k c _ e)
      (λ r e'. if_both (Leaves (λ c'. c') k) (ltb n r.0.0) e' (
        Leaves->>= (λ r'. r'.1) (λ c'. c') k (on_queue r.1 (enqueue_abort r.1.urc_queue)) _
          (on_queue-Leaves k r.1 _ e') (λ r' e''. e'')))
setup_binary_transfer-Leaves k c _ n e = e

start_transfer-Leaves :
    (k : Frame) (c : Client) → frame c ≡ k → Leaves (λ c'. c') k (start_transfer c)
unfolding start_transfer
start_transfer-Leaves k c e =
    Leaves->>= (λ r. r.1) (λ c'. c') k (parse_line c (rx_line c)) _
      (parse_line-Leaves k c (rx_line c) e)
      (λ r e'.
        Leaves->>= (λ c'. c') (λ c'. c') k (setup_binary_transfer r.1 r.0 _) _
          (setup_binary_transfer-Leaves k r.1 r.0 _ e') (λ c' e''. e''))

-- The client that a round leaves.
abbrev client_of : Round → Client
client_of (go_on c events) = c
client_of (leave c events) = c
client_of (io_failed c events) = c

store_binary-frame :
    (c : Client) (target : Target) (pos : ℕ) (bytes : Bytes)
    → frame (store_binary c target pos bytes) ≡ frame c
unfolding store_binary
store_binary-frame c nowhere pos bytes = refl
store_binary-frame c response pos bytes = refl
store_binary-frame c (in_queue place) pos bytes = refl

received-frame :
    (c : Client) (into : Bool) (bytes : Bytes) (events : List Event)
    → frame (client_of (received c into bytes events)) ≡ frame c
unfolding received
received-frame c into [] events = refl
received-frame c true (b ∷ more) events =
    store_binary-frame c c.binary_rx.target c.binary_rx.buffer_pos (b ∷ more)
received-frame c false (b ∷ more) events = refl

after_read-frame :
    (c : Client) (into : Bool) (result : ReadResult) (events : List Event)
    → frame (
        client_of (elim result [
          | failed e ↦ io_failed (io_error e c) events
          | got bytes ↦ received c into bytes events
        ]))
      ≡ frame c
after_read-frame c into (got bytes) events = received-frame c into bytes events
after_read-frame c into (failed e) events = refl

binary_round-frame :
    (c : Client) (events : List Event) → frame (client_of (binary_round c events)) ≡ frame c
unfolding binary_round
binary_round-frame c events =
    let room = c.binary_rx.buffer_size - c.binary_rx.buffer_pos in
    let read =
      uart_read
        (if ltb 0 room then min room c.binary_rx.remaining else min 64 c.binary_rx.remaining)
        events in
    after_read-frame c (ltb 0 room) read.0 read.1

end_transfer-Leaves :
    (k : Frame) (state : BinaryState) (c : Client)
    → frame c ≡ k
    → Leaves (λ r. r.1) k (end_transfer state c)
unfolding end_transfer
end_transfer-Leaves k rsp c e = e
end_transfer-Leaves k flush c e = e
end_transfer-Leaves k urc c e =
    Leaves->>= (λ r. r.1) (λ r. r.1) k (on_queue c (enqueue_end c.urc_queue c.binary_rx.buffer_pos))
      _ (on_queue-Leaves k c _ e) (λ a e'. e')

finish_binary-Leaves :
    (k : Frame) (c : Client) → frame c ≡ k → Leaves (λ r. r.1) k (finish_binary c)
unfolding finish_binary
finish_binary-Leaves k c e =
    if_both (Leaves (λ r. r.1) k) (c.binary_rx.remaining == 0)
      (end_transfer-Leaves k c.binary_rx.state _ e) e

abbrev LoopLeaves : Frame → Option Round → Type 0
LoopLeaves k none = Unit
LoopLeaves k (some r) = frame (client_of r) ≡ k

next_round-Leaves :
    (k : Frame) (fuel : ℕ)
    → ((c : Client) (events : List Event) → frame c ≡ k → LoopLeaves k (binary_loop fuel c events))
    → (r : Round) → frame (client_of r) ≡ k
    → LoopLeaves k (elim r [
      | go_on c' events' ↦ binary_loop fuel c' events'
      | leave c' events' ↦ some (leave c' events')
      | io_failed c' events' ↦ some (io_failed c' events')
    ])
next_round-Leaves k fuel loop (go_on c events) e = loop c events e
next_round-Leaves k fuel loop (leave c events) e = e
next_round-Leaves k fuel loop (io_failed c events) e = e

binary_loop-Leaves :
    (k : Frame) (fuel : ℕ) (c : Client) (events : List Event)
    → frame c ≡ k
    → LoopLeaves k (binary_loop fuel c events)
unfolding binary_loop
binary_loop-Leaves k zero c events e = tt
binary_loop-Leaves k (suc fuel) c events e = if_both (LoopLeaves k) (c.binary_rx.remaining == 0) e (
    next_round-Leaves k fuel (λ c' ev e'. binary_loop-Leaves k fuel c' ev e')
      (binary_round c events) (binary_round-frame c events ∙ e))

after_loop-Leaves :
    (k : Frame) (r : Option Round)
    → LoopLeaves k r
    → Leaves middle k (elim r [
      | none ↦ stuck
      | some (io_failed c' rest) ↦ ran (error, c', rest)
      | some (leave c' rest) ↦ (finish_binary c' >>= λ (code, c''). ran (code, c'', rest))
      | some (go_on c' rest) ↦ stuck
    ])
after_loop-Leaves k none l = tt
after_loop-Leaves k (some (io_failed c rest)) l = l
after_loop-Leaves k (some (leave c rest)) l =
    Leaves->>= (λ r. r.1) middle k (finish_binary c) _ (finish_binary-Leaves k c l) (λ r e. e)
after_loop-Leaves k (some (go_on c rest)) l = tt

receive_binary-Leaves :
    (k : Frame) (c : Client) (events : List Event)
    → frame c ≡ k
    → Leaves middle k (receive_binary c events)
unfolding receive_binary
receive_binary-Leaves k c events e =
    after_loop-Leaves k _ (binary_loop-Leaves k (suc c.binary_rx.remaining) c events e)

after_header-Leaves :
    (k : Frame) (c : Client) (result : ReadResult) (rest : List Event)
    → frame c ≡ k
    → Leaves middle k (elim result [
      | failed e ↦ ran (error, io_error e c, rest)
      | got bytes ↦
          if ltb (length bytes) (2 - c.binary_rx.header_count)
          then ran (nop, store_header c bytes, rest)
          else (start_transfer (store_header c bytes) >>= λ c'. receive_binary c' rest)
    ])
after_header-Leaves k c (failed x) rest e = e
after_header-Leaves k c (got bytes) rest e =
    if_both (Leaves middle k) (ltb (length bytes) (2 - c.binary_rx.header_count)) e (
      Leaves->>= (λ c'. c') middle k (start_transfer (store_header c bytes)) _
        (start_transfer-Leaves k (store_header c bytes) e)
        (λ c' e'. receive_binary-Leaves k c' rest e'))

handle_binary_rx-Leaves :
    (k : Frame) (c : Client) (events : List Event)
    → frame c ≡ k
    → Leaves middle k (handle_binary_rx c events)
unfolding handle_binary_rx
handle_binary_rx-Leaves k c events e =
    let read = uart_read (2 - c.binary_rx.header_count) events in
    if_both (Leaves middle k) (ltb c.binary_rx.header_count 2)
      (after_header-Leaves k c read.0 read.1 e) (receive_binary-Leaves k c events e)

after_text-Leaves :
    (k : Frame) (code : ParserCode) (c : Client) (rest : List Event)
    → frame c ≡ k
    → Leaves middle k (elim code [
      | start_binary ↦ handle_binary_rx (record c { is_binary_rx = true }) rest
      | other ↦ ran (other, c, rest)
    ])
after_text-Leaves k start_binary c rest e =
    handle_binary_rx-Leaves k (record c { is_binary_rx = true }) rest e
after_text-Leaves k nop c rest e = e
after_text-Leaves k got_status c rest e = e
after_text-Leaves k got_rsp c rest e = e
after_text-Leaves k got_urc c rest e = e
after_text-Leaves k error c rest e = e

-- `handleRxData`, in whatever state and whatever arrives, leaves the command under way (its start,
-- its timeout, the response that it expects, its mutex) and the settings of the client alone.
pub handle_rx_data-Leaves :
    (c : Client) (events : List Event) → Leaves middle (frame c) (handle_rx_data c events)
unfolding handle_rx_data
handle_rx_data-Leaves c events =
    if_both (Leaves middle (frame c)) c.is_binary_rx
      (handle_binary_rx-Leaves (frame c) c events refl)
      (Leaves->>= middle middle (frame c) (char_loop events c) _
        (char_loop-Leaves (frame c) events c refl)
        (λ r e. after_text-Leaves (frame c) r.0 r.1 r.2 e))

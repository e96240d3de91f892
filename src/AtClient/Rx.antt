-- ===== src/AtClient/Rx.antt =====
-- The receive path of src/u_cx_at_client.c: parseIncomingChar, setupBinaryTransfer, handleBinaryRx and
-- handleRxData.
pub mod Char
pub mod Binary
pub mod Frame
pub mod Line
pub mod Receive
pub mod Safe
use ucxclient.Prelude.{
  ℕ, zero, suc, ◌+◌, ◌-◌, ◌*◌, Bool, true, false, Option, none, some, List, [], ◌∷◌, ◌++◌, Bytes,
  length, take, set, ltb, ◌==◌, if◌then◌else◌, min, write_at, get_or,
}
use ucxclient.Prelude.Int.{ℤ}
use ucxclient.AtUtil.Escape.{isprint}
use ucxclient.UrcQueue.{enqueue_end, enqueue_get_payload_ptr, enqueue_abort}
use ucxclient.AtClient.State.{
  Client, BinaryRx, BinaryState, flush, rsp, urc, Target, nowhere, response, in_queue, ParserCode,
  nop, got_rsp, got_urc, start_binary, error, Exec, ran, stuck, on_queue, ◌>>=◌, error_io,
}
use ucxclient.AtClient.Uart.{Event, byte, pause, fault, ReadResult, got, failed, uart_read}
use ucxclient.AtClient.Parse.{parse_line, is_line_end}

-- `U_CX_SOH_CHAR`
abbrev pub soh : ℕ
soh = 0x01

-- The characters of the line in the RX buffer.
abbrev pub rx_line : Client → Bytes
rx_line c = take c.rx_buffer_pos c.rx_buffer

-- `pRxBuffer[pClient->rxBufferPos] = 0`
abbrev pub terminate : Client → Client
terminate c = record c { rx_buffer = set c.rx_buffer c.rx_buffer_pos 0 }

-- A character is put into the RX buffer, which starts over when it is full.
unfoldable pub push_char : Client → ℕ → Client
push_char c ch = record c {
  rx_buffer = set c.rx_buffer c.rx_buffer_pos ch;
  rx_buffer_pos = if c.rx_buffer_pos + 1 == c.rx_buffer_len then 0 else c.rx_buffer_pos + 1;
}

-- A URC without binary data is complete at the end of its line.
unfoldable pub finish_line : ParserCode → Client → Exec (ParserCode × Client)
finish_line got_urc c = on_queue c (enqueue_end c.urc_queue 0) >>= λ (_, c'). ran (nop, c')
finish_line code c = ran (code, c)

-- `parseIncomingChar`
unfoldable pub parse_incoming_char : Client → ℕ → Exec (ParserCode × Client)
parse_incoming_char c ch =
    if ch == soh
    then ran (start_binary, terminate c)
    else if is_line_end ch
    then (parse_line (terminate c) (rx_line c) >>= λ (code, c').
        finish_line code (record c' { rx_buffer_pos = 0 }))
    else if isprint ch
    then ran (nop, push_char c ch)
    else ran (nop, c)

-- `CHECK_READ_ERROR`
abbrev pub io_error : ℤ → Client → Client
io_error e c = record c { last_io_error = e; status = error_io }

-- The loop of handleRxData over characters: reads of one byte each.
unfoldable pub char_loop : List Event → Client → Exec (ParserCode × Client × List Event)
char_loop [] c = ran (nop, c, [])
char_loop (pause ∷ events) c = ran (nop, c, events)
char_loop (fault e ∷ events) c = ran (error, io_error e c, events)
char_loop (byte ch ∷ events) c = parse_incoming_char c ch >>= λ (code, c'). elim code [
  | nop ↦ char_loop events c'
  | other ↦ ran (other, c', events)
]

-- `setupBinaryRxBuffer`
unfoldable pub setup_binary_rx_buffer : Client → BinaryState → Target → ℕ → ℕ → Client
setup_binary_rx_buffer c state target size remaining = record c {
  binary_rx = record {
    state = state;
    header_count = c.binary_rx.header_count;
    remaining = remaining;
    target = target;
    buffer_size = size;
    buffer_pos = 0;
  };
}

abbrev pub length_of : Option ℕ → ℕ
length_of none = 0
length_of (some n) = n

-- Writes through a length pointer, if there is one.
abbrev pub store_length : Option ℕ → ℕ → Option ℕ
store_length none n = none
store_length (some old) n = some n

-- `setupBinaryTransfer`
unfoldable pub setup_binary_transfer : Client → ParserCode → ℕ → Exec Client
setup_binary_transfer c got_rsp bin_length = ran (
    setup_binary_rx_buffer (record c { rsp_length = store_length c.rsp_length 0 }) rsp response
      (length_of c.rsp_length) bin_length)
setup_binary_transfer c got_urc bin_length =
    on_queue c (enqueue_get_payload_ptr c.urc_queue) >>= λ ((room, place), c').
    if ltb bin_length room
    then ran (setup_binary_rx_buffer c' urc (in_queue place) room bin_length)
    else (on_queue c' (enqueue_abort c'.urc_queue) >>= λ (_, c'').
        ran (setup_binary_rx_buffer c'' flush nowhere 0 bin_length))
setup_binary_transfer c code bin_length = ran (setup_binary_rx_buffer c flush nowhere 0 bin_length)

-- The bytes of a read land behind those received before.
unfoldable pub store_binary : Client → Target → ℕ → Bytes → Client
store_binary c nowhere pos bytes = c
store_binary c response pos bytes = record c { rsp_buffer = write_at c.rsp_buffer pos bytes }
store_binary c (in_queue place) pos bytes = record c {
  urc_queue = record (c.urc_queue) { buffer = write_at c.urc_queue.buffer (place + pos) bytes };
}

-- How a round of the loop over binary data ends.
pub data Round : Type 0 where
  go_on leave : Client → List Event → Round
  io_failed : Client → List Event → Round

-- The part of a round behind its read: `kept` if the bytes were read into the buffer.
unfoldable pub received : Client → Bool → Bytes → List Event → Round
received c kept [] events = leave c events
received c kept (b ∷ more) events =
    let rx = c.binary_rx in
    let bytes = b ∷ more in
    go_on
      (if kept
        then record (store_binary c rx.target rx.buffer_pos bytes) {
          binary_rx = record rx {
            buffer_pos = rx.buffer_pos + length bytes;
            remaining = rx.remaining - length bytes;
          };
        }
        else record c { binary_rx = record rx { remaining = rx.remaining - length bytes } })
      events

-- A round: a read into what is left of the buffer, or, if nothing is left, into a scratch buffer of
-- 64 bytes.
unfoldable pub binary_round : Client → List Event → Round
binary_round c events =
    let rx = c.binary_rx in
    let room = rx.buffer_size - rx.buffer_pos in
    let (result, rest) =
      uart_read (if ltb 0 room then min room rx.remaining else min 64 rx.remaining) events in
    elim result [
      | failed e ↦ io_failed (io_error e c) rest
      | got bytes ↦ received c (ltb 0 room) bytes rest
    ]

-- `while (pBinRx->remainingDataBytes > 0)`, on fuel; `none` means that the fuel ran out.
unfoldable pub binary_loop : ℕ → Client → List Event → Option Round
binary_loop zero c events = none
binary_loop (suc fuel) c events =
    if c.binary_rx.remaining == 0 then some (leave c events) else elim (binary_round c events) [
      | go_on c' events' ↦ binary_loop fuel c' events'
      | leave c' events' ↦ some (leave c' events')
      | io_failed c' events' ↦ some (io_failed c' events')
    ]

-- The switch at the end of a binary transfer, on the state that it had.
unfoldable pub end_transfer : BinaryState → Client → Exec (ParserCode × Client)
end_transfer rsp c =
    ran (got_rsp, record c { rsp_length = store_length c.rsp_length c.binary_rx.buffer_pos })
end_transfer urc c =
    on_queue c (enqueue_end c.urc_queue c.binary_rx.buffer_pos) >>= λ (_, c'). ran (nop, c')
end_transfer flush c = ran (nop, c)

-- The part of handleBinaryRx behind the loop.
unfoldable pub finish_binary : Client → Exec (ParserCode × Client)
finish_binary c =
    if c.binary_rx.remaining == 0
    then end_transfer c.binary_rx.state (record c {
      binary_rx = record (c.binary_rx) { state = flush; header_count = 0 };
      is_binary_rx = false;
    })
    else ran (nop, c)

-- The loop and what follows it. The fuel is one more than the bytes that are missing.
unfoldable pub receive_binary : Client → List Event → Exec (ParserCode × Client × List Event)
receive_binary c events = elim (binary_loop (suc c.binary_rx.remaining) c events) [
  | none ↦ stuck
  | some (io_failed c' rest) ↦ ran (error, c', rest)
  | some (leave c' rest) ↦ (finish_binary c' >>= λ (code, c''). ran (code, c'', rest))
  | some (go_on c' rest) ↦ stuck
]

-- The two length bytes are here: the line before them is parsed, and the transfer set up.
unfoldable pub start_transfer : Client → Exec Client
start_transfer c = parse_line c (rx_line c) >>= λ (code, c').
    setup_binary_transfer c' code (get_or c.length_buf 0 0 * 256 + get_or c.length_buf 1 0)
    >>= λ c''. ran (record c'' { rx_buffer_pos = 0 })

-- The length bytes of a read, if any.
abbrev pub store_header : Client → Bytes → Client
store_header c bytes = record c {
  length_buf = write_at c.length_buf c.binary_rx.header_count bytes;
  binary_rx = record (c.binary_rx) { header_count = c.binary_rx.header_count + length bytes };
}

-- `handleBinaryRx`
unfoldable pub handle_binary_rx : Client → List Event → Exec (ParserCode × Client × List Event)
handle_binary_rx c events =
    if ltb c.binary_rx.header_count 2
    then (let (result, rest) = uart_read (2 - c.binary_rx.header_count) events in
        elim result [
          | failed e ↦ ran (error, io_error e c, rest)
          | got bytes ↦
              if ltb (length bytes) (2 - c.binary_rx.header_count)
              then ran (nop, store_header c bytes, rest)
              else (start_transfer (store_header c bytes) >>= λ c'. receive_binary c' rest)
        ])
    else receive_binary c events

-- `handleRxData`. handleBinaryRx never asks for another round, so the outer loop runs twice at most:
-- once for characters, and once for the binary data that these announce.
unfoldable pub handle_rx_data : Client → List Event → Exec (ParserCode × Client × List Event)
handle_rx_data c events =
    if c.is_binary_rx
    then handle_binary_rx c events
    else (char_loop events c >>= λ (code, c', rest). elim code [
      | start_binary ↦ handle_binary_rx (record c' { is_binary_rx = true }) rest
      | other ↦ ran (other, c', rest)
    ])

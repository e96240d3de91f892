-- ===== src/AtClient/Rx/Safe.antt =====
-- The receive path as a whole: from any of its modes, on anything that arrives, it returns in one of
-- its modes.
use ucxclient.Prelude.{
  ℕ, ◌+◌, ◌-◌, ◌*◌, ◌%◌, ◌^◌, ◌≡◌, refl, inl, inr, true, false, List, Bytes, arith, length, get_or,
  Bool-cases, if◌then◌else◌, if_true, if_false, ltb,
}
use ucxclient.UrcQueue.Entries.{Entry, idle}
use ucxclient.UrcQueue.Commit.{enqueue_abort-Holds, enqueue_get_payload_ptr_lem}
use ucxclient.AtClient.State.{
  Client, ParserCode, nop, got_status, got_rsp, got_urc, start_binary, error, ran, ◌>>=◌,
}
use ucxclient.AtClient.Uart.{Event, ReadResult, got, failed, uart_read}
use ucxclient.AtClient.Parse.Safe.{
  Queue, left_pending, Returns, returned, Returns->>=, Returns-mono, Parsed, parsed,
  parse_line-Parsed,
}
use ucxclient.AtClient.Rx.{
  rx_line, setup_binary_rx_buffer, setup_binary_transfer, receive_binary, start_transfer,
  store_header, handle_binary_rx, handle_rx_data, io_error,
}
use ucxclient.AtClient.Rx.Char.{
  RxFits, length-rx_line, TextMode, Grown, grown, unchanged, regrow, Ends, char_loop-TextMode,
}
use ucxclient.AtClient.Rx.Binary.{DataMode, plain, payload, AtMost, uart_read-AtMost}
use ucxclient.AtClient.Rx.Receive.{
  HeaderMode, Mode, text, header, data_part, rsp-ne-urc, flush-ne-urc, widen, receive_binary-Mode,
}

-- What parsing the line leaves pending decides how its data are taken.
setup_binary_transfer-DataMode :
    (c : Client) (code : ParserCode) (line : Bytes) (bin_length : ℕ) (entries : List Entry)
    → RxFits c
    → c.is_binary_rx ≡ true
    → c.binary_rx.header_count ≡ 2
    → Queue c.urc_queue entries (left_pending code line)
    → Returns (λ c'. DataMode c' entries) (setup_binary_transfer c code bin_length)
unfolding setup_binary_transfer setup_binary_rx_buffer
setup_binary_transfer-DataMode c got_rsp line bin_length entries f b n q = returned _ (record {
  fits = record { within = f.within; size = f.size; small = f.small };
  binary = b;
  headed = n;
  carries = plain rsp-ne-urc tt q;
})
setup_binary_transfer-DataMode c got_urc line bin_length entries f b n q =
    let (q', e, h) = enqueue_abort-Holds q.holds in
    rw (enqueue_get_payload_ptr_lem q.holds)
      (elim (Bool-cases (ltb bin_length (length q.free % 2 ^ 16))) [
        | inl fit ↦ rw fit (
            returned _ (record {
              fits = record { within = f.within; size = f.size; small = f.small };
              binary = b;
              headed = n;
              carries = payload refl (record {
                line = line;
                taking = q.taking;
                free = q.free;
                holds = q.holds;
                at_payload = refl;
                room = ground (arith, fit);
                size = omega arith;
                size16 = omega arith;
              });
            }))
        | inr full ↦
            rw (full, e)
              (returned _ (record {
                fits = record { within = f.within; size = f.size; small = f.small };
                binary = b;
                headed = n;
                carries = plain flush-ne-urc tt (record { taking = q.taking; free = _; holds = h });
              }))
      ])
setup_binary_transfer-DataMode c _ line bin_length entries f b n q = returned _ (record {
  fits = record { within = f.within; size = f.size; small = f.small };
  binary = b;
  headed = n;
  carries = plain flush-ne-urc tt q;
})

-- Both length bytes are here.
record Headed (c : Client) (entries : List Entry) : Type 0 where
  fits : RxFits c
  binary : c.is_binary_rx ≡ true
  headed : c.binary_rx.header_count ≡ 2
  queue : Queue c.urc_queue entries idle

after_parse-DataMode :
    (c : Client) (entries : List Entry) (line : Bytes) (bin_length : ℕ)
    → Headed c entries
    → (r : ParserCode × Client) → Parsed c line entries r
    → Returns
        (λ c'. DataMode c' entries)
        (setup_binary_transfer r.1 r.0 bin_length >>= λ c''. ran (record c'' { rx_buffer_pos = 0 }))
after_parse-DataMode c entries line bin_length p r (parsed code params s q h) =
    Returns->>=
      (setup_binary_transfer-DataMode _ code line bin_length entries
        (record { within = p.fits.within; size = p.fits.size; small = p.fits.small }) p.binary
        p.headed h)
      (λ c' m. returned _ (record {
        fits = record {
          within = omega (arith, m.fits.within);
          size = m.fits.size;
          small = m.fits.small;
        };
        binary = m.binary;
        headed = m.headed;
        carries = m.carries;
      }))

start_transfer-DataMode :
    (c : Client) (entries : List Entry)
    → Headed c entries
    → Returns (λ c'. DataMode c' entries) (start_transfer c)
unfolding start_transfer
start_transfer-DataMode c entries p =
    Returns->>= (parse_line-Parsed c (rx_line c) entries p.queue (length-rx_line c p.fits)) (
      after_parse-DataMode c entries (rx_line c)
        (get_or c.length_buf 0 0 * 256 + get_or c.length_buf 1 0) p)

after_header-Mode :
    (c : Client) (entries : List Entry) (result : ReadResult) (rest : List Event)
    → HeaderMode c entries
    → AtMost (2 - c.binary_rx.header_count) result
    → Returns (Ends entries Mode) (elim result [
      | failed e ↦ ran (error, io_error e c, rest)
      | got bytes ↦
          if ltb (length bytes) (2 - c.binary_rx.header_count)
          then ran (nop, store_header c bytes, rest)
          else (start_transfer (store_header c bytes) >>= λ c'. receive_binary c' rest)
    ])
after_header-Mode c entries (failed e) rest m few = returned _ (
    unchanged (
      header (record {
        fits = record { within = m.fits.within; size = m.fits.size; small = m.fits.small };
        binary = m.binary;
        headless = m.headless;
        queue = m.queue;
      })))
after_header-Mode c entries (got bytes) rest m few =
    let f : RxFits (store_header c bytes) = record {
      within = m.fits.within;
      size = m.fits.size;
      small = m.fits.small;
    } in
    elim (Bool-cases (ltb (length bytes) (2 - c.binary_rx.header_count))) [
      | inl short ↦ rw short (
          returned _ (
            unchanged (
              header (record {
                fits = f;
                binary = m.binary;
                headless = ground (arith, short);
                queue = m.queue;
              }))))
      | inr whole ↦ rw whole (
          Returns->>=
            (start_transfer-DataMode (store_header c bytes) entries (record {
              fits = f;
              binary = m.binary;
              headed = ground (arith, whole, few, m.headless);
              queue = m.queue;
            }))
            (λ c' m'. receive_binary-Mode c' entries rest m'))
    ]

header-Mode :
    (c : Client) (entries : List Entry) (events : List Event)
    → HeaderMode c entries
    → Returns (Ends entries Mode) (handle_binary_rx c events)
unfolding handle_binary_rx
header-Mode c entries events m =
    let less : ltb c.binary_rx.header_count 2 ≡ true = ground (arith, m.headless) in
    rw less (
      after_header-Mode c entries (uart_read (2 - c.binary_rx.header_count) events).0
        (uart_read (2 - c.binary_rx.header_count) events).1 m
        (uart_read-AtMost (2 - c.binary_rx.header_count) events))

data-Mode :
    (c : Client) (entries : List Entry) (events : List Event)
    → DataMode c entries
    → Returns (Ends entries Mode) (handle_binary_rx c events)
unfolding handle_binary_rx
data-Mode c entries events m =
    let less : ltb c.binary_rx.header_count 2 ≡ false = ground (arith, m.headed) in
    rw less (receive_binary-Mode c entries events m)

-- The binary data that characters announce are taken in the same call.
after_text-Mode :
    {entries : List Entry} (code : ParserCode) (c : Client) (rest : List Event)
    → Grown entries TextMode c
    → Returns (Ends entries Mode) (elim code [
      | start_binary ↦ handle_binary_rx (record c { is_binary_rx = true }) rest
      | other ↦ ran (other, c, rest)
    ])
after_text-Mode start_binary c rest (grown added t) =
    Returns-mono
      (header-Mode (record c { is_binary_rx = true }) _ rest
        (record {
          fits = record { within = t.fits.within; size = t.fits.size; small = t.fits.small };
          binary = refl;
          headless = omega (arith, t.no_header);
          queue = t.queue;
        }))
      (λ r g. regrow added g)
after_text-Mode nop c rest g = returned _ (widen g)
after_text-Mode got_status c rest g = returned _ (widen g)
after_text-Mode got_rsp c rest g = returned _ (widen g)
after_text-Mode got_urc c rest g = returned _ (widen g)
after_text-Mode error c rest g = returned _ (widen g)

-- `handleRxData`, called in any mode of the receive path (between two characters, with the length
-- bytes of binary data missing, or with binary data missing) and whatever arrives, returns: its loops
-- end, it waits for no mutex and fails no assertion of the URC queue. It ends in one of the modes
-- again, in which the RX buffer has room for the next character and a URC's payload has room in the
-- queue, and the queue holds the entries that it had, with those completed meanwhile behind them.
pub handle_rx_data-Mode :
    (c : Client) (entries : List Entry) (events : List Event)
    → Mode c entries
    → Returns (Ends entries Mode) (handle_rx_data c events)
unfolding handle_rx_data
handle_rx_data-Mode c entries events (text t) =
    if_false (Returns (Ends entries Mode)) _ t.no_binary
      (Returns->>= (char_loop-TextMode events c entries t) (λ r g. after_text-Mode r.0 r.1 r.2 g))
handle_rx_data-Mode c entries events (header h) =
    if_true (Returns (Ends entries Mode)) _ h.binary (header-Mode c entries events h)
handle_rx_data-Mode c entries events (data_part d) =
    if_true (Returns (Ends entries Mode)) _ d.binary (data-Mode c entries events d)

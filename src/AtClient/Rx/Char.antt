-- ===== src/AtClient/Rx/Char.antt =====
-- The character mode of the receive path: it keeps to its buffers and never gets stuck.
use ucxclient.Prelude.{
  ℕ, ◌^◌, ◌<◌, ◌≤◌, ◌≡◌, refl, sym, subst, ◌∙◌, false, List, [], ◌∷◌, ◌++◌, append-nil,
  append_assoc, Bytes, arith, length, length-set, length-take, if_both, ◌==◌,
}
use ucxclient.AtUtil.Escape.{isprint}
use ucxclient.UrcQueue.Entries.{Entry, idle}
use ucxclient.UrcQueue.Commit.{enqueue_end-Holds}
use ucxclient.AtClient.State.{
  Client, ParserCode, nop, got_status, got_rsp, got_urc, start_binary, error, ran,
}
use ucxclient.AtClient.Uart.{Event, byte, pause, fault}
use ucxclient.AtClient.Parse.{is_line_end}
use ucxclient.AtClient.Parse.Safe.{
  Queue, left_pending, Returns, returned, Returns->>=, Returns-mono, Parsed, parsed,
  parse_line-Parsed,
}
use ucxclient.AtClient.Rx.{
  soh, rx_line, terminate, push_char, finish_line, parse_incoming_char, char_loop, io_error,
}

-- The RX buffer has the size that the configuration says, 64 KiB at most, and the next character has
-- room in it.
pub record RxFits (c : Client) : Type 0 where
  pub within : c.rx_buffer_pos < c.rx_buffer_len
  pub size : c.rx_buffer_len ≡ length c.rx_buffer
  pub small : c.rx_buffer_len ≤ 2 ^ 16

-- Between two characters: no binary transfer and no enqueueing is under way.
pub record TextMode (c : Client) (entries : List Entry) : Type 0 where
  pub fits : RxFits c
  pub no_binary : c.is_binary_rx ≡ false
  pub no_header : c.binary_rx.header_count ≡ 0
  pub queue : Queue c.urc_queue entries idle

-- The client after some input: in character mode, with entries added behind those it had.
pub data Grown (entries : List Entry) (P : Client → List Entry → Type 0) (c : Client) : Type 0 where
  grown : (added : List Entry) → P c (entries ++ added) → Grown entries P c

pub unchanged :
    {entries : List Entry} {P : Client → List Entry → Type 0} {c : Client}
    → P c entries
    → Grown entries P c
unchanged {entries} {P} {c} p = grown [] (subst (P c) (sym (append-nil entries)) p)

-- The end of a line, with what its parsing left in the queue.
finish_line-TextMode :
    (code : ParserCode) (c : Client) (line : Bytes) (entries : List Entry)
    → RxFits c
    → c.is_binary_rx ≡ false
    → c.binary_rx.header_count ≡ 0
    → Queue c.urc_queue entries (left_pending code line)
    → Returns (λ r. Grown entries TextMode r.1) (finish_line code c)
unfolding finish_line
finish_line-TextMode got_urc c line entries fits b n q =
    let (q', e, h) = enqueue_end-Holds q.holds [] q.free refl (omega arith) in
    rw e (
      returned _ (
        grown (record { line = line; payload = [] } ∷ []) (record {
          fits = record { within = fits.within; size = fits.size; small = fits.small };
          no_binary = b;
          no_header = n;
          queue = record { taking = q.taking; free = q.free; holds = h };
        })))
finish_line-TextMode nop c line entries fits b n q =
    returned _ (unchanged (record { fits = fits; no_binary = b; no_header = n; queue = q }))
finish_line-TextMode _ c line entries fits b n q =
    returned _ (unchanged (record { fits = fits; no_binary = b; no_header = n; queue = q }))

push_char-RxFits : (c : Client) (ch : ℕ) → RxFits c → RxFits (push_char c ch)
unfolding push_char
push_char-RxFits c ch f = record {
  within = ground (arith, f.within);
  size = f.size ∙ sym (length-set c.rx_buffer c.rx_buffer_pos ch);
  small = f.small;
}

terminate-TextMode :
    (c : Client) (entries : List Entry) → TextMode c entries → TextMode (terminate c) entries
terminate-TextMode c entries t = record {
  fits = record {
    within = t.fits.within;
    size = t.fits.size ∙ sym (length-set c.rx_buffer c.rx_buffer_pos 0);
    small = t.fits.small;
  };
  no_binary = t.no_binary;
  no_header = t.no_header;
  queue = t.queue;
}

pub length-rx_line : (c : Client) → RxFits c → length (rx_line c) < 2 ^ 16
length-rx_line c f =
    omega (arith, length-take c.rx_buffer_pos c.rx_buffer, f.within, f.size, f.small)

-- What a parsed line leaves, in the frame of parse_line.
after_parse-TextMode :
    (c : Client) (line : Bytes) (entries : List Entry)
    → TextMode c entries
    → (r : ParserCode × Client) → Parsed c line entries r
    → Returns
        (λ r'. Grown entries TextMode r'.1)
        (finish_line r.0 (record (r.1) { rx_buffer_pos = 0 }))
after_parse-TextMode c line entries t r (parsed code params s q h) =
    finish_line-TextMode code _ line entries
      (record { within = omega (arith, t.fits.within); size = t.fits.size; small = t.fits.small })
      t.no_binary t.no_header h

push_char-TextMode :
    (c : Client) (ch : ℕ) (entries : List Entry)
    → TextMode c entries
    → TextMode (push_char c ch) entries
unfolding push_char
push_char-TextMode c ch entries t = record {
  fits = push_char-RxFits c ch t.fits;
  no_binary = t.no_binary;
  no_header = t.no_header;
  queue = t.queue;
}

-- `parseIncomingChar` between two characters returns on every character, keeps to the RX buffer, and
-- ends between two characters again, with the queue's entries kept and any new one behind them.
pub parse_incoming_char-TextMode :
    (c : Client) (ch : ℕ) (entries : List Entry)
    → TextMode c entries
    → Returns (λ r. Grown entries TextMode r.1) (parse_incoming_char c ch)
unfolding parse_incoming_char
parse_incoming_char-TextMode c ch entries t =
    if_both (Returns (λ r. Grown entries TextMode r.1)) (ch == soh)
      (returned (start_binary, terminate c) (unchanged (terminate-TextMode c entries t)))
      (if_both (Returns (λ r. Grown entries TextMode r.1)) (is_line_end ch)
        (Returns->>=
          (parse_line-Parsed (terminate c) (rx_line c) entries t.queue (length-rx_line c t.fits))
          (after_parse-TextMode (terminate c) (rx_line c) entries (terminate-TextMode c entries t)))
        (if_both (Returns (λ r. Grown entries TextMode r.1)) (isprint ch)
          (returned (nop, push_char c ch) (unchanged (push_char-TextMode c ch entries t)))
          (returned (nop, c) (unchanged t))))

pub regrow :
    {entries : List Entry} (added : List Entry) {P : Client → List Entry → Type 0} {c : Client}
    → Grown (entries ++ added) P c
    → Grown entries P c
regrow {entries} added {P} {c} (grown more p) =
    grown (added ++ more) (subst (P c) (append_assoc entries added more) p)

-- The client that a loop ends with.
abbrev pub Ends :
    List Entry → (Client → List Entry → Type 0) → ParserCode × Client × List Event → Type 0
Ends entries P (code, c, rest) = Grown entries P c

next_char :
    (events : List Event) (entries : List Entry)
    → ((c : Client) (entries' : List Entry)
        → TextMode c entries'
        → Returns (Ends entries' TextMode) (char_loop events c))
    → (code : ParserCode) (c : Client) → Grown entries TextMode c
    → Returns
        (Ends entries TextMode)
        (elim code [ nop ↦ char_loop events c | other ↦ ran (other, c, events) ])
next_char events entries loop nop c (grown added t) =
    Returns-mono (loop c (entries ++ added) t) (λ r g. regrow added g)
next_char events entries loop got_status c g = returned _ g
next_char events entries loop got_rsp c g = returned _ g
next_char events entries loop got_urc c g = returned _ g
next_char events entries loop start_binary c g = returned _ g
next_char events entries loop error c g = returned _ g

pub char_loop-TextMode :
    (events : List Event) (c : Client) (entries : List Entry)
    → TextMode c entries
    → Returns (Ends entries TextMode) (char_loop events c)
unfolding char_loop
char_loop-TextMode [] c entries t = returned (nop, c, []) (unchanged t)
char_loop-TextMode (pause ∷ events) c entries t = returned (nop, c, events) (unchanged t)
char_loop-TextMode (fault e ∷ events) c entries t =
    returned (error, io_error e c, events)
      (unchanged (record {
        fits = record { within = t.fits.within; size = t.fits.size; small = t.fits.small };
        no_binary = t.no_binary;
        no_header = t.no_header;
        queue = t.queue;
      }))
char_loop-TextMode (byte ch ∷ events) c entries t =
    Returns->>= (parse_incoming_char-TextMode c ch entries t) (λ r g.
      next_char events entries (λ c' entries' t'. char_loop-TextMode events c' entries' t') r.0 r.1
        g)

-- ===== src/AtClient/Rx/Line.antt =====
-- A line that arrives character by character, up to the queue.
use ucxclient.Prelude.{
  ℕ, zero, suc, ◌+◌, ◌<◌, ◌≤◌, ◌≡◌, refl, ap, sym, ◌∙◌, inl, inr, true, false, ◌||◌, List, [], ◌∷◌,
  ◌++◌, arith, Bytes, All, length, take, drop, set, write_at, length-write_at, length-set, ◌==◌,
  if_true, if_false,
}
use ucxclient.Prelude.Decimal.{first}
use ucxclient.AtUtil.Escape.{isprint}
use ucxclient.UrcQueue.{UrcQueue, returns, enqueue_begin, enqueue_end}
use ucxclient.UrcQueue.Entries.{Entry}
use ucxclient.UrcQueue.Enqueue.{enqueue_begin-Holds}
use ucxclient.UrcQueue.Commit.{enqueue_end-Holds}
use ucxclient.AtClient.State.{Client, ParserCode, nop, got_urc, Exec, ran, ◌>>=◌}
use ucxclient.AtClient.Uart.{Event, byte}
use ucxclient.AtClient.Parse.{parse_line, parse_urc, empty_line, is_line_end}
use ucxclient.AtClient.Rx.{
  soh, rx_line, terminate, push_char, finish_line, parse_incoming_char, char_loop,
}
use ucxclient.AtClient.Rx.Char.{TextMode}

abbrev pub IsPrint : ℕ → Type 0
IsPrint ch = isprint ch ≡ true

-- The bytes of a line, as they arrive.
abbrev pub arrives : Bytes → List Event → List Event
arrives [] events = events
arrives (ch ∷ line) events = byte ch ∷ arrives line events

-- The client with a line in its RX buffer.
abbrev pushed : Client → Bytes → Client
pushed c line = record c {
  rx_buffer = write_at c.rx_buffer c.rx_buffer_pos line;
  rx_buffer_pos = c.rx_buffer_pos + length line;
}

write_at-none : (buf : Bytes) (at : ℕ) → write_at buf at [] ≡ buf
write_at-none [] at = refl
write_at-none (x ∷ buf) zero = refl
write_at-none (x ∷ buf) (suc at) = ap (λ t. x ∷ t) (write_at-none buf at)

write_at-set :
    (buf : Bytes) (at b : ℕ) (s : Bytes)
    → write_at (set buf at b) (suc at) s ≡ write_at buf at (b ∷ s)
write_at-set [] at b s = refl
write_at-set (x ∷ buf) zero b s = refl
write_at-set (x ∷ buf) (suc at) b s = ap (λ t. x ∷ t) (write_at-set buf at b s)

take-write_at : (buf s : Bytes) → length s ≤ length buf → take (length s) (write_at buf 0 s) ≡ s
take-write_at buf [] fits = refl
take-write_at [] (b ∷ s) fits = absurd (omega (arith, fits))
take-write_at (x ∷ buf) (b ∷ s) fits = ap (λ t. b ∷ t) (take-write_at buf s (omega (arith, fits)))

-- A printable character goes into the buffer.
incoming_printable :
    (c : Client) (ch : ℕ)
    → IsPrint ch
    → c.rx_buffer_pos + 1 < c.rx_buffer_len
    → parse_incoming_char c ch
      ≡ ran (
        nop,
        record c {
          rx_buffer = set c.rx_buffer c.rx_buffer_pos ch;
          rx_buffer_pos = c.rx_buffer_pos + 1;
        },
      )
unfolding parse_incoming_char push_char
incoming_printable c ch p room =
    let not_soh : (ch == soh) ≡ false = ground (arith, p) in
    let not_end : is_line_end ch ≡ false = ground (arith, p) in
    let not_full : (c.rx_buffer_pos + 1 == c.rx_buffer_len) ≡ false = ground (arith, room) in
    rw (not_soh, not_end, p, not_full) refl

char_loop-arrives :
    (line : Bytes) (events : List Event) (c : Client)
    → All IsPrint line
    → c.rx_buffer_pos + length line < c.rx_buffer_len
    → char_loop (arrives line events) c ≡ char_loop events (pushed c line)
unfolding char_loop
char_loop-arrives [] events c p room = ap (char_loop events) (λ i. record c {
  rx_buffer = sym (write_at-none c.rx_buffer c.rx_buffer_pos) i;
  rx_buffer_pos = same i;
})
  where
    same : c.rx_buffer_pos ≡ c.rx_buffer_pos + 0
    same = omega arith
char_loop-arrives (ch ∷ line) events c (p, ps) room =
    let c' : Client = record c {
      rx_buffer = set c.rx_buffer c.rx_buffer_pos ch;
      rx_buffer_pos = c.rx_buffer_pos + 1;
    } in
    let at_next : c.rx_buffer_pos + 1 ≡ suc c.rx_buffer_pos = omega arith in
    let place : c.rx_buffer_pos + 1 + length line ≡ c.rx_buffer_pos + length (ch ∷ line) =
      omega arith in
    let bytes : write_at (set c.rx_buffer c.rx_buffer_pos ch) (c.rx_buffer_pos + 1) line
        ≡ write_at c.rx_buffer c.rx_buffer_pos (ch ∷ line) =
      ap (λ k. write_at (set c.rx_buffer c.rx_buffer_pos ch) k line) at_next
      ∙ write_at-set c.rx_buffer c.rx_buffer_pos ch line in
    rw (incoming_printable c ch p (omega (arith, room))) (
      char_loop-arrives line events c' ps (omega (arith, room))
      ∙ ap (char_loop events) (λ i. record c { rx_buffer = bytes i; rx_buffer_pos = place i }))

rx_line-pushed :
    (c : Client) (line : Bytes)
    → c.rx_buffer_pos ≡ 0
    → length line ≤ length c.rx_buffer
    → rx_line (pushed c line) ≡ line
rx_line-pushed c line start fits =
    let whole : c.rx_buffer_pos + length line ≡ length line = omega (arith, start) in
    ap (λ k. take k (write_at c.rx_buffer c.rx_buffer_pos line)) whole
    ∙ ap (λ k. take (length line) (write_at c.rx_buffer k line)) start
    ∙ take-write_at c.rx_buffer line fits

nonempty :
    (line : Bytes) → (first line == b'+' || first line == b'*') ≡ true → empty_line line ≡ false
unfolding empty_line
nonempty [] u = ground (arith, u)
nonempty (ch ∷ line) u = let printed : is_line_end ch ≡ false = ground (arith, u) in rw printed refl

-- A URC that the queue has room for is queued.
parse_line-urc :
    (c : Client) (line : Bytes) (q : UrcQueue)
    → c.executing_cmd ≡ false
    → (first line == b'+' || first line == b'*') ≡ true
    → enqueue_begin c.urc_queue line ≡ returns true q
    → parse_line c line ≡ ran (got_urc, record c { urc_queue = q })
unfolding parse_line parse_urc
parse_line-urc c line q x u e =
    let P : Exec (ParserCode × Client) → Type 0 =
      λ m. m ≡ ran (got_urc, record c { urc_queue = q }) in
    if_false P _ (nonempty line u) (if_false P _ x (if_true P (ran (nop, c)) u (rw e refl)))

-- The end of its line completes it.
line_end-urc :
    (c : Client) (line : Bytes) (q q' : UrcQueue)
    → rx_line c ≡ line
    → c.executing_cmd ≡ false
    → (first line == b'+' || first line == b'*') ≡ true
    → enqueue_begin c.urc_queue line ≡ returns true q
    → enqueue_end q 0 ≡ returns tt q'
    → parse_incoming_char c 0x0D
      ≡ ran (nop, record (terminate c) { rx_buffer_pos = 0; urc_queue = q' })
unfolding parse_incoming_char finish_line
line_end-urc c line q q' r x u e e' =
    let finish : ParserCode × Client → Exec (ParserCode × Client) =
      λ p. finish_line p.0 (record (p.1) { rx_buffer_pos = 0 }) in
    ap (λ l. parse_line (terminate c) l >>= finish) r
    ∙ ap (λ m. m >>= finish) (parse_line-urc (terminate c) line q x u e)
    ∙ rw e' refl

-- A URC that arrives between two lines, character by character and with its line end, while no command
-- is under way, shorter than the RX buffer and with room in the queue, ends up in the queue behind the
-- entries that were there, with exactly its characters and no payload; the next line starts at the
-- start of the RX buffer.
pub char_loop-urc :
    (c : Client) (entries : List Entry) (line : Bytes) (events : List Event)
    → (t : TextMode c entries) → c.rx_buffer_pos ≡ 0
    → c.executing_cmd ≡ false
    → All IsPrint line
    → length line < c.rx_buffer_len
    → (first line == b'+' || first line == b'*') ≡ true
    → length line + 5 ≤ length t.queue.free
    → (c' : Client) × (char_loop (arrives line (byte 0x0D ∷ events)) c ≡ char_loop events c')
      × TextMode c' (entries ++ record { line = line; payload = [] } ∷ [])
      × (c'.rx_buffer_pos ≡ 0)
unfolding char_loop
char_loop-urc c entries line events t start x p short u room =
    let c1 = pushed c line in
    let fits : length line ≤ length c.rx_buffer = omega (arith, short, t.fits.size) in
    let filled = char_loop-arrives line (byte 0x0D ∷ events) c p (omega (arith, start, short)) in
    elim (enqueue_begin-Holds line t.queue.holds (omega (arith, short, t.fits.small))) [
      | inr (full, e) ↦ absurd (omega (arith, full, room))
      | inl (enough, q, e, h) ↦
          (let (q', e', h') = enqueue_end-Holds h [] _ refl (omega arith) in
            let c' : Client = record (terminate c1) { rx_buffer_pos = 0; urc_queue = q' } in
            (
              c',
              filled
                  ∙ rw (line_end-urc c1 line q q' (rx_line-pushed c line start fits) x u e e') refl,
              record {
                fits = record {
                  within = omega (arith, short);
                  size =
                      t.fits.size
                      ∙ sym (length-write_at c.rx_buffer c.rx_buffer_pos line)
                      ∙ sym (
                          length-set (write_at c.rx_buffer c.rx_buffer_pos line)
                            (c.rx_buffer_pos + length line) 0);
                  small = t.fits.small;
                };
                no_binary = t.no_binary;
                no_header = t.no_header;
                queue = record {
                  taking = t.queue.taking;
                  free = drop (length line + 5) t.queue.free;
                  holds = h';
                };
              },
              refl,
            ))
    ]

-- ===== src/AtClient/Rx/Binary.antt =====
-- The loop over binary data: it keeps to the buffers, ends, and leaves the URC queue in order.
pub mod Loop
use ucxclient.Prelude.{
  ℕ, zero, suc, ◌+◌, ◌-◌, ◌^◌, ◌<◌, ◌≤◌, ◌≡◌, ◌≢◌, refl, ap, sym, subst, ◌∙◌, inl, inr, Bool, true,
  false, Option, none, some, List, [], ◌∷◌, ◌++◌, Bytes, arith, length, Bool-cases, if◌then◌else◌,
  if_both, ◌==◌, ltb, min, write_at, length-write_at,
}
use ucxclient.Prelude.Int.{ℤ}
use ucxclient.UrcQueue.{UrcQueue}
use ucxclient.UrcQueue.Entries.{Entry, Holds, Pending, idle, adding}
use ucxclient.UrcQueue.Commit.{store_payload-Holds}
use ucxclient.AtClient.State.{
  Client, BinaryRx, BinaryState, flush, rsp, urc, Target, nowhere, response, in_queue,
}
use ucxclient.AtClient.Uart.{Event, byte, pause, fault, ReadResult, got, failed, gather, uart_read}
use ucxclient.AtClient.Parse.Safe.{Queue}
use ucxclient.AtClient.Rx.{
  store_binary, Round, go_on, leave, io_failed, received, binary_round, binary_loop, io_error,
}
use ucxclient.AtClient.Rx.Char.{RxFits}

-- A URC's payload is being received into the queue, behind its line.
pub record UrcData (rx : BinaryRx) (q : UrcQueue) (entries : List Entry) : Type 0 where
  pub line : Bytes
  pub taking : Bool
  pub free : Bytes
  pub holds : Holds q entries (adding line) taking free
  pub at_payload : rx.target ≡ in_queue q.buffer_pos
  pub room : rx.buffer_pos + rx.remaining < rx.buffer_size
  pub size : rx.buffer_size ≤ length free
  pub size16 : rx.buffer_size < 2 ^ 16

abbrev pub OutsideQueue : Target → Type 0
OutsideQueue nowhere = Unit
OutsideQueue response = Unit
OutsideQueue (in_queue place) = ⊥

-- What a binary transfer carries: data for the caller or for nobody, or the payload of a URC.
pub data Carries (rx : BinaryRx) (q : UrcQueue) (entries : List Entry) : Type 0 where
  plain : rx.state ≢ urc → OutsideQueue rx.target → Queue q entries idle → Carries rx q entries
  payload : rx.state ≡ urc → UrcData rx q entries → Carries rx q entries

-- A transfer whose length bytes are here.
pub record DataMode (c : Client) (entries : List Entry) : Type 0 where
  pub fits : RxFits c
  pub binary : c.is_binary_rx ≡ true
  pub headed : c.binary_rx.header_count ≡ 2
  pub carries : Carries c.binary_rx c.urc_queue entries

-- A read gives at most the bytes asked for.
abbrev pub AtMost : ℕ → ReadResult → Type 0
AtMost n (got bytes) = length bytes ≤ n
AtMost n (failed e) = Unit

length-gather : (n : ℕ) (events : List Event) → length (gather n events).0 ≤ n
unfolding gather
length-gather zero events = omega arith
length-gather (suc n) [] = omega arith
length-gather (suc n) (byte b ∷ events) = omega (arith, length-gather n events)
length-gather (suc n) (pause ∷ events) = omega arith
length-gather (suc n) (fault e ∷ events) = omega arith

pub uart_read-AtMost : (n : ℕ) (events : List Event) → AtMost n (uart_read n events).0
unfolding uart_read
uart_read-AtMost n [] = omega arith
uart_read-AtMost n (pause ∷ events) = omega arith
uart_read-AtMost n (fault e ∷ events) = tt
uart_read-AtMost n (byte b ∷ events) = length-gather n (byte b ∷ events)

-- The client behind a read of `bytes` into its buffer.
abbrev pub kept : Client → Target → Bytes → Client
kept c target bytes = record (store_binary c target c.binary_rx.buffer_pos bytes) {
  binary_rx = record (c.binary_rx) {
    buffer_pos = c.binary_rx.buffer_pos + length bytes;
    remaining = c.binary_rx.remaining - length bytes;
  };
}

kept_plain :
    (c : Client) (entries : List Entry) (target : Target) (bytes : Bytes)
    → OutsideQueue target
    → c.binary_rx.state ≢ urc
    → DataMode c entries
    → OutsideQueue c.binary_rx.target
    → Queue c.urc_queue entries idle
    → DataMode (kept c target bytes) entries
unfolding store_binary
kept_plain c entries nowhere bytes o s m o' q = record {
  fits = record { within = m.fits.within; size = m.fits.size; small = m.fits.small };
  binary = m.binary;
  headed = m.headed;
  carries = plain s o' q;
}
kept_plain c entries response bytes o s m o' q = record {
  fits = record { within = m.fits.within; size = m.fits.size; small = m.fits.small };
  binary = m.binary;
  headed = m.headed;
  carries = plain s o' q;
}
kept_plain c entries (in_queue place) bytes o s m o' q = absurd o

kept_payload :
    (c : Client) (entries : List Entry) (bytes : Bytes)
    → length bytes ≤ c.binary_rx.remaining
    → c.binary_rx.state ≡ urc
    → DataMode c entries
    → UrcData c.binary_rx c.urc_queue entries
    → DataMode (kept c (in_queue c.urc_queue.buffer_pos) bytes) entries
unfolding store_binary
kept_payload c entries bytes few s m u = record {
  fits = record { within = m.fits.within; size = m.fits.size; small = m.fits.small };
  binary = m.binary;
  headed = m.headed;
  carries = payload s (record {
    line = u.line;
    taking = u.taking;
    free = write_at u.free c.binary_rx.buffer_pos bytes;
    holds = store_payload-Holds u.holds c.binary_rx.buffer_pos bytes;
    at_payload = u.at_payload;
    room = omega (arith, u.room);
    size = omega (arith, u.size, length-write_at u.free c.binary_rx.buffer_pos bytes);
    size16 = u.size16;
  });
}

pub kept-DataMode :
    (c : Client) (entries : List Entry) (bytes : Bytes)
    → length bytes ≤ c.binary_rx.remaining
    → DataMode c entries
    → Carries c.binary_rx c.urc_queue entries
    → DataMode (kept c c.binary_rx.target bytes) entries
kept-DataMode c entries bytes few m (plain s o q) =
    kept_plain c entries c.binary_rx.target bytes o s m o q
kept-DataMode c entries bytes few m (payload s u) =
    subst (λ t. DataMode (kept c t bytes) entries) (sym u.at_payload)
      (kept_payload c entries bytes few s m u)

-- The client behind a read whose bytes are thrown away.
abbrev pub dropped : Client → Bytes → Client
dropped c bytes = record c {
  binary_rx = record (c.binary_rx) { remaining = c.binary_rx.remaining - length bytes };
}

pub dropped-DataMode :
    (c : Client) (entries : List Entry) (bytes : Bytes)
    → DataMode c entries
    → Carries c.binary_rx c.urc_queue entries
    → DataMode (dropped c bytes) entries
dropped-DataMode c entries bytes m (plain s o q) = record {
  fits = record { within = m.fits.within; size = m.fits.size; small = m.fits.small };
  binary = m.binary;
  headed = m.headed;
  carries = plain s o q;
}
dropped-DataMode c entries bytes m (payload s u) = record {
  fits = record { within = m.fits.within; size = m.fits.size; small = m.fits.small };
  binary = m.binary;
  headed = m.headed;
  carries = payload s (record {
    line = u.line;
    taking = u.taking;
    free = u.free;
    holds = u.holds;
    at_payload = u.at_payload;
    room = omega (arith, u.room);
    size = u.size;
    size16 = u.size16;
  });
}

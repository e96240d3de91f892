-- ===== src/AtClient/Rx/Binary/Loop.antt =====
-- The rounds of the loop over binary data: each one makes progress or ends the loop.
use ucxclient.Prelude.{
  ℕ, zero, suc, ◌-◌, ◌<◌, ◌≤◌, Bool, true, false, Option, some, List, [], ◌∷◌, Bytes, arith, length,
  if◌then◌else◌, if_both, ◌==◌, ltb, min,
}
use ucxclient.Prelude.Int.{ℤ}
use ucxclient.UrcQueue.Entries.{Entry}
use ucxclient.AtClient.State.{Client}
use ucxclient.AtClient.Uart.{Event, ReadResult, got, failed, uart_read}
use ucxclient.AtClient.Rx.{
  Round, go_on, leave, io_failed, received, binary_round, binary_loop, io_error,
}
use ucxclient.AtClient.Rx.Binary.{
  DataMode, AtMost, uart_read-AtMost, kept-DataMode, dropped-DataMode,
}

-- A round goes on with fewer bytes missing, or ends.
pub data Proceeds (c : Client) (entries : List Entry) : Round → Type 0 where
  goes_on :
      (c' : Client) (events : List Event)
      → DataMode c' entries
      → c'.binary_rx.remaining < c.binary_rx.remaining
      → Proceeds c entries (go_on c' events)
  leaves :
      (c' : Client) (events : List Event)
      → DataMode c' entries
      → Proceeds c entries (leave c' events)
  fails :
      (c' : Client) (events : List Event)
      → DataMode c' entries
      → Proceeds c entries (io_failed c' events)

io_error-DataMode :
    (e : ℤ) (c : Client) (entries : List Entry)
    → DataMode c entries
    → DataMode (io_error e c) entries
io_error-DataMode e c entries m = record {
  fits = record { within = m.fits.within; size = m.fits.size; small = m.fits.small };
  binary = m.binary;
  headed = m.headed;
  carries = m.carries;
}

received-Proceeds :
    (c : Client) (entries : List Entry) (into : Bool) (bytes : Bytes) (events : List Event)
    → length bytes ≤ c.binary_rx.remaining
    → DataMode c entries
    → Proceeds c entries (received c into bytes events)
unfolding received
received-Proceeds c entries into [] events few m = leaves c events m
received-Proceeds c entries true (b ∷ more) events few m =
    goes_on _ events (kept-DataMode c entries (b ∷ more) few m m.carries) (omega (arith, few))
received-Proceeds c entries false (b ∷ more) events few m =
    goes_on _ events (dropped-DataMode c entries (b ∷ more) m m.carries) (omega (arith, few))

after_read-Proceeds :
    (c : Client) (entries : List Entry) (into : Bool) (n : ℕ) (result : ReadResult)
    (events : List Event)
    → AtMost n result
    → n ≤ c.binary_rx.remaining
    → DataMode c entries
    → Proceeds c entries (elim result [
      | failed e ↦ io_failed (io_error e c) events
      | got bytes ↦ received c into bytes events
    ])
after_read-Proceeds c entries into n (got bytes) events few small m =
    received-Proceeds c entries into bytes events (omega (arith, few, small)) m
after_read-Proceeds c entries into n (failed e) events few small m =
    fails _ events (io_error-DataMode e c entries m)

pub binary_round-Proceeds :
    (c : Client) (entries : List Entry) (events : List Event)
    → DataMode c entries
    → Proceeds c entries (binary_round c events)
unfolding binary_round
binary_round-Proceeds c entries events m =
    let rx = c.binary_rx in
    let room = rx.buffer_size - rx.buffer_pos in
    let n = if ltb 0 room then min room rx.remaining else min 64 rx.remaining in
    after_read-Proceeds c entries (ltb 0 room) n (uart_read n events).0 (uart_read n events).1
      (uart_read-AtMost n events) (ground arith) m

-- The loop ends, by itself or with a read error.
pub data Ended (entries : List Entry) : Option Round → Type 0 where
  done :
      (c : Client) (events : List Event)
      → DataMode c entries
      → Ended entries (some (leave c events))
  broke :
      (c : Client) (events : List Event)
      → DataMode c entries
      → Ended entries (some (io_failed c events))

next_round :
    (fuel : ℕ) (c : Client) (entries : List Entry) {r : Round}
    → ((c' : Client) (events : List Event)
        → c'.binary_rx.remaining < fuel
        → DataMode c' entries
        → Ended entries (binary_loop fuel c' events))
    → c.binary_rx.remaining < suc fuel
    → Proceeds c entries r
    → Ended entries (elim r [
      | go_on c' events' ↦ binary_loop fuel c' events'
      | leave c' events' ↦ some (leave c' events')
      | io_failed c' events' ↦ some (io_failed c' events')
    ])
next_round fuel c entries loop enough (goes_on c' events m less) =
    loop c' events (omega (arith, enough, less)) m
next_round fuel c entries loop enough (leaves c' events m) = done c' events m
next_round fuel c entries loop enough (fails c' events m) = broke c' events m

-- Fuel beyond the number of missing bytes is enough.
pub binary_loop-Ended :
    (fuel : ℕ) (c : Client) (entries : List Entry) (events : List Event)
    → c.binary_rx.remaining < fuel
    → DataMode c entries
    → Ended entries (binary_loop fuel c events)
unfolding binary_loop
binary_loop-Ended zero c entries events enough m = absurd (omega (arith, enough))
binary_loop-Ended (suc fuel) c entries events enough m =
    if_both (Ended entries) (c.binary_rx.remaining == 0) (done c events m) (
      next_round fuel c entries (λ c' ev e m'. binary_loop-Ended fuel c' entries ev e m') enough
        (binary_round-Proceeds c entries events m))

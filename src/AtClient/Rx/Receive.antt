-- ===== src/AtClient/Rx/Receive.antt =====
-- The modes of the receive path, and how a binary transfer is received and ended.
use ucxclient.Prelude.{
  suc, ◌^◌, ◌<◌, ◌≤◌, ◌≡◌, ◌≢◌, refl, ap, sym, subst, ◌∙◌, Bool, true, false, Option, none, some,
  List, [], ◌∷◌, Bytes, arith, length, take, drop, take-append-drop, length-take, if_both, ◌==◌,
}
use ucxclient.UrcQueue.{enqueue_end, returns}
use ucxclient.UrcQueue.Entries.{Entry, Holds, idle, adding}
use ucxclient.UrcQueue.Commit.{enqueue_end-Holds}
use ucxclient.AtClient.State.{Client, BinaryState, flush, rsp, urc, error, ran, stuck, ◌>>=◌}
use ucxclient.AtClient.Uart.{Event}
use ucxclient.AtClient.Parse.Safe.{Queue, Returns, returned, Returns->>=, Returns-mono}
use ucxclient.AtClient.Rx.{
  Round, end_transfer, finish_binary, receive_binary, leave, io_failed, go_on,
}
use ucxclient.AtClient.Rx.Char.{RxFits, TextMode, Grown, grown, unchanged, Ends}
use ucxclient.AtClient.Rx.Binary.{DataMode, Carries, plain, payload}
use ucxclient.AtClient.Rx.Binary.Loop.{Ended, done, broke, binary_loop-Ended}

-- A binary transfer whose length bytes are not all here.
pub record HeaderMode (c : Client) (entries : List Entry) : Type 0 where
  pub fits : RxFits c
  pub binary : c.is_binary_rx ≡ true
  pub headless : c.binary_rx.header_count < 2
  pub queue : Queue c.urc_queue entries idle

-- Where the receive path stands between two calls of handleRxData.
pub data Mode (c : Client) (entries : List Entry) : Type 0 where
  text : TextMode c entries → Mode c entries
  header : HeaderMode c entries → Mode c entries
  data_part : DataMode c entries → Mode c entries

pub rsp-ne-urc : rsp ≢ urc
rsp-ne-urc e = cc

pub flush-ne-urc : flush ≢ urc
flush-ne-urc e = cc

-- The end of a transfer that is not a URC's.
end_plain-TextMode :
    (state : BinaryState) (c : Client) (entries : List Entry)
    → state ≢ urc
    → TextMode c entries
    → Returns (λ r. Grown entries TextMode r.1) (end_transfer state c)
unfolding end_transfer
end_plain-TextMode rsp c entries ne t = returned _ (
    unchanged (record {
      fits = record { within = t.fits.within; size = t.fits.size; small = t.fits.small };
      no_binary = t.no_binary;
      no_header = t.no_header;
      queue = t.queue;
    }))
end_plain-TextMode flush c entries ne t = returned _ (unchanged t)
end_plain-TextMode urc c entries ne t = absurd (ne refl)

-- The end of a URC's: the bytes received are its payload.
end_urc-TextMode :
    (c : Client) {entries : List Entry} {line : Bytes} {taking : Bool} {free : Bytes}
    → RxFits c
    → c.is_binary_rx ≡ false
    → c.binary_rx.header_count ≡ 0
    → Holds c.urc_queue entries (adding line) taking free
    → c.binary_rx.buffer_pos ≤ length free
    → c.binary_rx.buffer_pos < 2 ^ 16
    → Returns (λ r. Grown entries TextMode r.1) (end_transfer urc c)
unfolding end_transfer
end_urc-TextMode c {entries} {line} {taking} {free} fits b n h room small =
    let k = c.binary_rx.buffer_pos in
    let size : length (take k free) ≡ k = omega (arith, length-take k free, room) in
    let (q', e, h') =
      enqueue_end-Holds h (take k free) (drop k free) (sym (take-append-drop k free))
        (omega (arith, size, small)) in
    let e' : enqueue_end c.urc_queue k ≡ returns tt q' =
      ap (enqueue_end c.urc_queue) (sym size) ∙ e in
    rw e' (
      returned _ (
        grown (record { line = line; payload = take k free } ∷ []) (record {
          fits = record { within = fits.within; size = fits.size; small = fits.small };
          no_binary = b;
          no_header = n;
          queue = record { taking = taking; free = drop k free; holds = h' };
        })))

-- The transfer is over.
abbrev closed : Client → Client
closed c = record c {
  binary_rx = record (c.binary_rx) { state = flush; header_count = 0 };
  is_binary_rx = false;
}

closed-TextMode :
    (c : Client) (entries : List Entry)
    → RxFits c
    → Carries c.binary_rx c.urc_queue entries
    → Returns (λ r. Grown entries TextMode r.1) (end_transfer c.binary_rx.state (closed c))
closed-TextMode c entries f (plain s o q) =
    end_plain-TextMode c.binary_rx.state (closed c) entries s (record {
      fits = record { within = f.within; size = f.size; small = f.small };
      no_binary = refl;
      no_header = refl;
      queue = q;
    })
closed-TextMode c entries f (payload s u) =
    subst (λ st. Returns (λ r. Grown entries TextMode r.1) (end_transfer st (closed c))) (sym s)
      (end_urc-TextMode (closed c) (record { within = f.within; size = f.size; small = f.small })
        refl refl u.holds (omega (arith, u.room, u.size)) (omega (arith, u.room, u.size16)))

pub widen : {entries : List Entry} {c : Client} → Grown entries TextMode c → Grown entries Mode c
widen (grown added t) = grown added (text t)

finish_binary-Mode :
    (c : Client) (entries : List Entry)
    → DataMode c entries
    → Returns (λ r. Grown entries Mode r.1) (finish_binary c)
unfolding finish_binary
finish_binary-Mode c entries m =
    if_both (Returns (λ r. Grown entries Mode r.1)) (c.binary_rx.remaining == 0)
      (Returns-mono (closed-TextMode c entries m.fits m.carries) (λ r g. widen g))
      (returned _ (unchanged (data_part m)))

after_loop-Mode :
    {entries : List Entry} (r : Option Round)
    → Ended entries r
    → Returns (Ends entries Mode) (elim r [
      | none ↦ stuck
      | some (io_failed c' rest) ↦ ran (error, c', rest)
      | some (leave c' rest) ↦ (finish_binary c' >>= λ (code, c''). ran (code, c'', rest))
      | some (go_on c' rest) ↦ stuck
    ])
after_loop-Mode {entries} r (done c events m) =
    Returns->>= (finish_binary-Mode c entries m) (λ a g. returned (a.0, a.1, events) g)
after_loop-Mode r (broke c events m) = returned (error, c, events) (unchanged (data_part m))

pub receive_binary-Mode :
    (c : Client) (entries : List Entry) (events : List Event)
    → DataMode c entries
    → Returns (Ends entries Mode) (receive_binary c events)
unfolding receive_binary
receive_binary-Mode c entries events m =
    after_loop-Mode _
      (binary_loop-Ended (suc c.binary_rx.remaining) c entries events (omega arith) m)

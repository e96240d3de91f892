-- ===== src/AtClient/Command/Start.antt =====
-- The start of the client and of a command.
use ucxclient.Prelude.{◌^◌, ◌<◌, ◌≤◌, ◌≡◌, refl, true, false, Option, none, List, [], Bytes, length}
use ucxclient.Prelude.Int.{ℤ}
use ucxclient.UrcQueue.Entries.{Entry}
use ucxclient.UrcQueue.Fifo.{init-Holds}
use ucxclient.AtClient.State.{Client, Exec, ran, no_status, ◌>>=◌}
use ucxclient.AtClient.Uart.{Event}
use ucxclient.AtClient.Rx.Char.{TextMode}
use ucxclient.AtClient.Rx.Receive.{Mode, text, header, data_part}
use ucxclient.AtClient.Urcs.{Call}
use ucxclient.AtClient.Send.{Param, send_cmd}
use ucxclient.AtClient.Command.{init}
use ucxclient.AtClient.Command.Wait.Finish.{Finished}

-- `uCxAtClientInit`, with an RX buffer that is not empty and has 64 KiB at most, and a URC buffer below
-- 2 GiB, gives a client between two characters, with an empty queue.
pub init-TextMode :
    (rx_buffer urc_buffer length_buf : Bytes)
    → 0 < length rx_buffer
    → length rx_buffer ≤ 2 ^ 16
    → length urc_buffer < 2 ^ 31
    → TextMode (init rx_buffer urc_buffer length_buf) []
unfolding init
init-TextMode rx_buffer urc_buffer length_buf some_room few small = record {
  fits = record { within = some_room; size = refl; small = few };
  no_binary = refl;
  no_header = refl;
  queue = record { taking = false; free = urc_buffer; holds = init-Holds urc_buffer small };
}

-- The client with a command under way.
abbrev pub begun : Client → ℤ → Client
begun c now = record c {
  cmd_mutex = true;
  rsp_params = none;
  executing_cmd = true;
  status = no_status;
  cmd_start_time = now;
}

pub begun-Mode :
    {c : Client} {entries : List Entry} (now : ℤ) → Mode c entries → Mode (begun c now) entries
begun-Mode now (text t) = text (record {
  fits = record { within = t.fits.within; size = t.fits.size; small = t.fits.small };
  no_binary = t.no_binary;
  no_header = t.no_header;
  queue = t.queue;
})
begun-Mode now (header h) = header (record {
  fits = record { within = h.fits.within; size = h.fits.size; small = h.fits.small };
  binary = h.binary;
  headless = h.headless;
  queue = h.queue;
})
begun-Mode now (data_part d) = data_part (record {
  fits = record { within = d.fits.within; size = d.fits.size; small = d.fits.small };
  binary = d.binary;
  headed = d.headed;
  carries = d.carries;
})

-- A command that ran to its end: what was sent, and how it ended.
pub data Executed (c : Client) (cmd : Bytes) (params : List Param) (clock : List ℤ)
    (events : List Event) : Exec (List Bytes × Option (ℤ × List Call × Client)) → Type 0 where
  executed :
      (chunks : List Bytes) {m : Exec (Option (ℤ × List Call × Client))}
      → send_cmd cmd params ≡ ran chunks
      → Finished clock c events m
      → Executed c cmd params clock events (m >>= λ r. ran (chunks, r))

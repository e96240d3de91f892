-- ===== src/AtClient/Tests.antt =====
-- The AT client at concrete inputs.
use ucxclient.Prelude.{
  ◌≡◌, refl, true, false, none, some, List, [], ◌∷◌, ◌++◌, arith, Bytes, codes, replicate,
}
use ucxclient.Prelude.Int.{ℤ, pos, negsuc, ◌-ℤ◌}
use ucxclient.UrcQueue.{UrcQueue, init}
use ucxclient.UrcQueue.Entries.{Entry, Holds, idle, encode, encode_head}
use ucxclient.UrcQueue.Fifo.{init-Holds}
use ucxclient.AtClient.State.{Client, flush, nowhere, ran}
use ucxclient.AtClient.Uart.{Event, byte, pause}
use ucxclient.AtClient.Parse.{parse_line}
use ucxclient.AtClient.Parse.Safe.{Returns, Parsed, parse_line-Parsed}
use ucxclient.AtClient.Rx.{handle_rx_data}
use ucxclient.AtClient.Rx.Char.{TextMode, Ends}
use ucxclient.AtClient.Rx.Receive.{Mode, text}
use ucxclient.AtClient.Rx.Safe.{handle_rx_data-Mode}
use ucxclient.AtClient.Rx.Frame.{frame, Leaves, middle}
use ucxclient.AtClient.Rx.Frame.Path.{handle_rx_data-Leaves}
use ucxclient.AtClient.Urcs.{process_urcs}
use ucxclient.AtClient.Urcs.Deliver.{call_of, process_urcs_delivers}
use ucxclient.Prelude.{inl, inr}
use ucxclient.Prelude.Int.{ℤ, ◌-ℤ◌}
use ucxclient.AtClient.State.{no_status}
use ucxclient.AtClient.Command.{cmd_wait, cmd_end}
use ucxclient.AtClient.Command.Wait.{Late, Waited, cmd_wait_ends}
use ucxclient.AtClient.Command.Wait.Finish.{Finished, cmd_end-Finished}
use ucxclient.AtClient.Send.{Param, digit, mac_address, binary}
use ucxclient.AtClient.Rx.{char_loop}
use ucxclient.AtClient.Rx.Line.{arrives, char_loop-urc}
use ucxclient.Prelude.Decimal.{show_ℕ}
use ucxclient.AtClient.State.{got_status}
use ucxclient.AtClient.Parse.{is_expected}
use ucxclient.AtClient.Parse.Status.{parse_line-status}
use ucxclient.AtClient.Command.Start.{init-TextMode}
use ucxclient.AtClient.Command.{cmd_get_rsp_param_line}
use ucxclient.AtClient.Command.Response.{Answered, asking, cmd_get_rsp_param_line-Answered}

abbrev storage : Bytes
storage = replicate 16 0

-- An open client with nothing received.
abbrev idle_client : Client
idle_client = record {
  rx_buffer = replicate 8 0;
  rx_buffer_len = 8;
  rx_buffer_pos = 0;
  executing_cmd = false;
  opened = true;
  cmd_start_time = pos 0;
  cmd_timeout = pos 10000;
  cmd_timeout_last_perm = pos 10000;
  expected_rsp = none;
  rsp_params = none;
  status = pos 0;
  last_io_error = pos 0;
  has_urc_callback = true;
  urc_queue = init storage 16;
  is_binary_rx = false;
  binary_rx = record {
    state = flush;
    header_count = 0;
    remaining = 0;
    target = nowhere;
    buffer_size = 0;
    buffer_pos = 0;
  };
  length_buf = 0 ∷ 0 ∷ [];
  rsp_buffer = [];
  rsp_length = none;
  cmd_mutex = false;
}

idle_client-TextMode : TextMode idle_client []
idle_client-TextMode = record {
  fits = record { within = omega arith; size = refl; small = omega arith };
  no_binary = refl;
  no_header = refl;
  queue = record { taking = false; free = storage; holds = init-Holds storage (omega arith) };
}

-- A URC with two bytes of binary data, interrupted by a silence.
abbrev binary_urc : List Event
binary_urc = byte 0x2B ∷ byte 0x41 ∷ byte 0x01 ∷ byte 0 ∷ byte 2 ∷ byte 120 ∷ pause ∷ byte 121 ∷ []

handle_rx_data-Mode_example : Returns (Ends [] Mode) (handle_rx_data idle_client binary_urc)
handle_rx_data-Mode_example =
    handle_rx_data-Mode idle_client [] binary_urc (text idle_client-TextMode)

parse_line-Parsed_example :
    Returns (Parsed idle_client (codes "+A") []) (parse_line idle_client (codes "+A"))
parse_line-Parsed_example =
    parse_line-Parsed idle_client (codes "+A") [] idle_client-TextMode.queue (omega arith)

-- A queue with one entry, and the client that has it.
abbrev entry : Entry
entry = record { line = codes "+A"; payload = 7 ∷ 8 ∷ [] }

abbrev full_client : Client
full_client = record idle_client {
  urc_queue = record {
    buffer = encode entry ++ 9 ∷ [];
    buffer_len = 10;
    buffer_pos = 9;
    queue_mutex = false;
    dequeue_mutex = false;
    enqueue_entry = none;
    dequeue_entry = none;
  };
}

full_client-Holds : Holds full_client.urc_queue (entry ∷ []) idle false (9 ∷ [])
full_client-Holds = record {
  layout = refl;
  whole = refl;
  small = omega arith;
  used = refl;
  sizes = omega arith;
  pending_size = tt;
  locked = refl;
  at_entry = refl;
  taking_locked = refl;
  taking_entry = refl;
  taking_some = λ t. omega arith;
}

process_urcs_delivers_example :
    (q' : UrcQueue) × (free' : Bytes) × (process_urcs full_client
      ≡ ran (some (call_of entry ∷ [], record full_client { urc_queue = q' })))
    × Holds q' [] idle false free'
process_urcs_delivers_example =
    process_urcs_delivers full_client (entry ∷ []) (9 ∷ []) full_client-Holds

-- A client in the middle of a URC.
abbrev busy_client : Client
busy_client = record idle_client {
  urc_queue = record {
    buffer = encode_head (codes "+A") 0 ++ 9 ∷ [];
    buffer_len = 8;
    buffer_pos = 7;
    queue_mutex = true;
    dequeue_mutex = false;
    enqueue_entry = some 0;
    dequeue_entry = none;
  };
}

handle_rx_data-Leaves_example :
    Leaves middle (frame idle_client) (handle_rx_data idle_client binary_urc)
handle_rx_data-Leaves_example = handle_rx_data-Leaves idle_client binary_urc

-- A command under way, of which the answer comes in two parts.
abbrev cmd_client : Client
cmd_client = record idle_client {
  executing_cmd = true;
  status = no_status;
  cmd_mutex = true;
  cmd_timeout = pos 50;
}

cmd_client-Mode : Mode cmd_client []
cmd_client-Mode = text (record {
  fits = record { within = omega arith; size = refl; small = omega arith };
  no_binary = refl;
  no_header = refl;
  queue = record { taking = false; free = storage; holds = init-Holds storage (omega arith) };
})

abbrev clock : List ℤ
clock = pos 10 ∷ pos 60 ∷ []

abbrev answer : List Event
answer = byte 0x4F ∷ pause ∷ byte 0x4B ∷ byte 0x0D ∷ []

clock-Late : Late (pos 0) (pos 50) clock
unfolding ◌-ℤ◌
clock-Late = inr (inl refl)

cmd_wait_ends_example : Returns (Waited (frame cmd_client) []) (cmd_wait clock cmd_client answer)
cmd_wait_ends_example = cmd_wait_ends clock cmd_client [] answer cmd_client-Mode clock-Late

cmd_end-Finished_example : Finished clock cmd_client answer (cmd_end clock cmd_client answer)
cmd_end-Finished_example =
    cmd_end-Finished clock cmd_client answer [] refl cmd_client-Mode clock-Late

abbrev params : List Param
params = digit (pos 7) ∷ mac_address (0 ∷ 1 ∷ 2 ∷ 3 ∷ 4 ∷ 5 ∷ []) ∷ binary (1 ∷ 2 ∷ []) ∷ []

char_loop-urc_example :
    (c' : Client) × (char_loop (arrives (codes "+A") (byte 0x0D ∷ pause ∷ [])) idle_client
      ≡ char_loop (pause ∷ []) c')
    × TextMode c' (record { line = codes "+A"; payload = [] } ∷ [])
    × (c'.rx_buffer_pos ≡ 0)
char_loop-urc_example =
    char_loop-urc idle_client [] (codes "+A") (pause ∷ [])
      (record {
        fits = idle_client-TextMode.fits;
        no_binary = refl;
        no_header = refl;
        queue = record { taking = false; free = storage; holds = init-Holds storage (omega arith) };
      })
      refl refl (refl, (refl, tt)) (omega arith) refl (omega arith)

init-TextMode_example :
    TextMode (ucxclient.AtClient.Command.init (replicate 8 0) storage (0 ∷ 0 ∷ [])) []
init-TextMode_example =
    init-TextMode (replicate 8 0) storage (0 ∷ 0 ∷ []) (omega arith) (omega arith) (omega arith)

parse_line-status_example :
    (parse_line cmd_client (codes "OK") ≡ ran (got_status, record cmd_client { status = pos 0 }))
    × (parse_line cmd_client (codes "ERROR")
        ≡ ran (got_status, record cmd_client { status = negsuc 0 }))
    × (parse_line cmd_client (codes "ERROR:" ++ show_ℕ 25)
        ≡ ran (got_status, record cmd_client { status = pos 0 -ℤ pos 25 }))
unfolding is_expected
parse_line-status_example = parse_line-status cmd_client 25 refl (omega arith) refl refl refl

cmd_get_rsp_param_line-Answered_example :
    Returns
      (Answered (frame (asking cmd_client (some (codes "+X:")) [] none)) [])
      (cmd_get_rsp_param_line cmd_client (some (codes "+X:")) [] none clock answer)
cmd_get_rsp_param_line-Answered_example =
    cmd_get_rsp_param_line-Answered cmd_client [] (some (codes "+X:")) [] none clock answer
      cmd_client-Mode clock-Late

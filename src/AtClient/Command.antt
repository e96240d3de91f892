-- ===== src/AtClient/Command.antt =====
-- The commands of src/u_cx_at_client.c. The readings of the clock are a list; a wait whose readings
-- run out before it ends has the result `none`. Times do not overflow an `int32_t`.
pub mod Wait
pub mod Start
pub mod Response
use ucxclient.Prelude.{
  ℕ, Bool, true, false, not, ◌&&◌, Option, none, some, List, [], ◌∷◌, Bytes, length, replicate,
  ◌==◌, if◌then◌else◌,
}
use ucxclient.Prelude.Int.{ℤ, pos, negsuc, pos_part, neg_part, ltb_ℤ, ◌-ℤ◌}
use ucxclient.AtClient.State.{
  Client, BinaryRx, flush, nowhere, ParserCode, got_rsp, Exec, ran, stuck, failed_assert, ◌>>=◌,
  no_status, error_cmd_timeout, error_io,
}
use ucxclient.UrcQueue
use ucxclient.AtClient.Uart.{Event}
use ucxclient.AtClient.Rx.{handle_rx_data}
use ucxclient.AtClient.Urcs.{Call, process_urcs}
use ucxclient.AtClient.Send.{Param, send_cmd}
use ucxclient.ParamParser.{Arg, parse_params, result_of, args_of}

-- `uCxAtClientInit` on a configuration with its buffers, with the static variable of handleBinaryRx.
unfoldable pub init : Bytes → Bytes → Bytes → Client
init rx_buffer urc_buffer length_buf = record {
  rx_buffer = rx_buffer;
  rx_buffer_len = length rx_buffer;
  rx_buffer_pos = 0;
  executing_cmd = false;
  opened = false;
  cmd_start_time = pos 0;
  cmd_timeout = pos 10000;
  cmd_timeout_last_perm = pos 10000;
  expected_rsp = none;
  rsp_params = none;
  status = pos 0;
  last_io_error = pos 0;
  has_urc_callback = false;
  urc_queue = UrcQueue.init urc_buffer (length urc_buffer);
  is_binary_rx = false;
  binary_rx = record {
    state = flush;
    header_count = 0;
    remaining = 0;
    target = nowhere;
    buffer_size = 0;
    buffer_pos = 0;
  };
  length_buf = length_buf;
  rsp_buffer = [];
  rsp_length = none;
  cmd_mutex = false;
}

abbrev pub error_already_exists : ℤ
error_already_exists = negsuc 0x10001

abbrev pub error_invalid_parameter : ℤ
error_invalid_parameter = negsuc 0x10002

-- `uCxAtClientOpen`, with whether a device is configured and whether the port opens it.
unfoldable pub client_open : Client → Bool → Bool → ℤ × Client
client_open c has_device port_opens =
    if c.opened
    then (error_already_exists, c)
    else if not has_device
    then (error_invalid_parameter, c)
    else if not port_opens
    then (error_io, c)
    else (pos 0, record c { opened = true })

-- `uCxAtClientClose`
unfoldable pub client_close : Client → Client
client_close c = if c.opened then record c { opened = false } else c

-- `uCxAtClientSetUrcCallback`
unfoldable pub set_urc_callback : Client → Bool → Client
set_urc_callback c has_callback = record c { has_urc_callback = has_callback }

-- `uCxAtClientSetCommandTimeout`: the timeout before, and the client.
unfoldable pub set_command_timeout : Client → ℤ → Bool → ℤ × Client
set_command_timeout c timeout_ms permanent = (
  c.cmd_timeout,
  record c {
    cmd_timeout = timeout_ms;
    cmd_timeout_last_perm = if permanent then timeout_ms else c.cmd_timeout_last_perm;
  },
)

-- `uCxAtClientGetLastIoError`
unfoldable pub get_last_io_error : Client → ℤ
get_last_io_error c = c.last_io_error

-- `cmdBeginF`: the writes, and the client.
unfoldable pub cmd_begin : Client → Bytes → List Param → ℤ → Exec (List Bytes × Client)
cmd_begin c cmd params now =
    if c.cmd_mutex
    then stuck
    else if c.executing_cmd
    then failed_assert
    else (send_cmd cmd params >>= λ chunks. ran (
      chunks,
      record c {
        cmd_mutex = true;
        rsp_params = none;
        executing_cmd = true;
        status = no_status;
        cmd_start_time = now;
      },
    ))

-- `pClient->status == NO_STATUS`
abbrev pub is_pending : Client → Bool
is_pending c = pos_part c.status == pos_part no_status && neg_part c.status == 0

-- `(now - pClient->cmdStartTime) > pClient->cmdTimeout`
abbrev pub is_late : Client → ℤ → Bool
is_late c now = ltb_ℤ c.cmd_timeout (now -ℤ c.cmd_start_time)

-- The loop of `cmdEnd`.
unfoldable pub cmd_wait : List ℤ → Client → List Event → Exec (Option (Client × List Event))
cmd_wait [] c events = ran (if is_pending c then none else some (c, events))
cmd_wait (now ∷ clock) c events =
    if is_pending c
    then (handle_rx_data c events >>= λ (code, c', rest).
        if is_late c' now
        then ran (some (record c' { status = error_cmd_timeout }, rest))
        else cmd_wait clock c' rest)
    else ran (some (c, events))

-- The part of `cmdEnd` behind the loop: the result, the calls of the URC callback and the client.
unfoldable pub cmd_finish : Client → Exec (Option (ℤ × List Call × Client))
cmd_finish c =
    if c.executing_cmd
    then (process_urcs (record c {
      cmd_timeout = c.cmd_timeout_last_perm;
      executing_cmd = false;
      cmd_mutex = false;
    })
        >>= λ r. ran (elim r [ none ↦ none | some (calls, c') ↦ some (c'.status, calls, c') ]))
    else failed_assert

-- `cmdEnd`, and so `uCxAtClientCmdEnd`
unfoldable pub cmd_end : List ℤ → Client → List Event → Exec (Option (ℤ × List Call × Client))
cmd_end clock c events =
    cmd_wait clock c events >>= λ r. elim r [ none ↦ ran none | some (c', rest) ↦ cmd_finish c' ]

-- `uCxAtClientExecSimpleCmdF`
unfoldable pub exec_simple_cmd :
    Client
    → Bytes
    → List Param
    → ℤ
    → List ℤ
    → List Event
    → Exec (List Bytes × Option (ℤ × List Call × Client))
exec_simple_cmd c cmd params now clock events =
    cmd_begin c cmd params now >>= λ (chunks, c'). cmd_end clock c' events >>= λ r. ran (chunks, r)

abbrev pub is_rsp : ParserCode → Bool
is_rsp got_rsp = true
is_rsp code = false

-- The loop of `uCxAtClientCmdGetRspParamLine`.
unfoldable pub rsp_wait :
    List ℤ → Client → List Event → Exec (Option (Option Bytes × Client × List Event))
rsp_wait [] c events = ran (if is_pending c then none else some (none, c, events))
rsp_wait (now ∷ clock) c events =
    if is_pending c
    then (handle_rx_data c events >>= λ (code, c', rest).
        if is_rsp code
        then ran (some (c'.rsp_params, c', rest))
        else if is_late c' now
        then ran (some (none, c', rest))
        else rsp_wait clock c' rest)
    else ran (some (none, c, events))

-- `uCxAtClientCmdGetRspParamLine`
unfoldable pub cmd_get_rsp_param_line :
    Client
    → Option Bytes
    → Bytes
    → Option ℕ
    → List ℤ
    → List Event
    → Exec (Option (Option Bytes × Client × List Event))
cmd_get_rsp_param_line c expected binary_buf binary_buf_length clock events =
    rsp_wait clock
      (record c {
        rsp_buffer = binary_buf;
        rsp_length = binary_buf_length;
        rsp_params = none;
        expected_rsp = expected;
      })
      events

-- The part of `uCxAtClientCmdGetRspParamsF` behind the wait: the result and what has been stored, from
-- the response, with the byte `before` in front of it in memory; `none` is NULL.
unfoldable pub rsp_params_result : Bytes → ℕ → Option Bytes → ℤ × List Arg
rsp_params_result fmt before none = (error_cmd_timeout, [])
rsp_params_result fmt before (some params) =
    let r = parse_params fmt before params in (result_of r, args_of r)

-- `uCxAtClientCmdGetRspParamsF`
unfoldable pub cmd_get_rsp_params :
    Client
    → Option Bytes
    → Bytes
    → Option ℕ
    → Bytes
    → ℕ
    → List ℤ
    → List Event
    → Exec (Option ((ℤ × List Arg) × Client × List Event))
cmd_get_rsp_params c expected binary_buf binary_buf_length fmt before clock events =
    cmd_get_rsp_param_line c expected binary_buf binary_buf_length clock events >>= λ r.
    ran (elim r [
      | none ↦ none
      | some (params, c', rest) ↦ some (rsp_params_result fmt before params, c', rest)
    ])

-- `uCxAtClientHandleRx`: the calls of the URC callback, the client and what has not been read.
unfoldable pub handle_rx : Client → List Event → Exec (Option (List Call × Client × List Event))
handle_rx c events =
    if not c.opened
    then ran (some ([], c, events))
    else if c.cmd_mutex
    then stuck
    else ((if c.executing_cmd
          then ran (c, events)
          else (handle_rx_data c events >>= λ (code, c', rest). ran (c', rest)))
        >>= λ (c', rest). process_urcs c' >>= λ r.
            ran (elim r [ none ↦ none | some (calls, c'') ↦ some (calls, c'', rest) ]))

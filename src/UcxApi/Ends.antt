-- ===== src/UcxApi/Ends.antt =====
-- The functions of the API that end their command do end it, whatever the response was.
use ucxclient.Prelude.{ℕ, ◌≡◌, false, Option, none, some, List, Bytes, if◌then◌else◌}
use ucxclient.Prelude.Int.{ℤ}
use ucxclient.UrcQueue.Entries.{Entry}
use ucxclient.ParamParser.{Arg}
use ucxclient.AtClient.State.{Client, Exec, ran, stuck, ◌>>=◌}
use ucxclient.AtClient.Uart.{Event}
use ucxclient.AtClient.Rx.Binary.{UrcData}
use ucxclient.AtClient.Rx.Frame.{Frame}
use ucxclient.AtClient.Urcs.{Call}
use ucxclient.AtClient.Send.{Param, send_cmd}
use ucxclient.AtClient.Command.{is_pending, cmd_get_rsp_params, rsp_params_result}
use ucxclient.UcxApi.Call.{Setting, Answer, is_negative, end_cmd}

-- How a call ends: with an answer, its command sent whole and over, the mutex free and the timeout the
-- permanent one; or waiting, in the middle of the binary data of a URC.
pub data ApiEnds (c : Client) (cmd : Bytes) (params : List Param)
    : Exec (Option Answer) → Type 0 where
  api_ends :
      (a : Answer)
      → send_cmd cmd params ≡ ran a.chunks
      → is_pending a.client ≡ false
      → a.client.executing_cmd ≡ false
      → a.client.cmd_mutex ≡ false
      → a.client.cmd_timeout ≡ c.cmd_timeout_last_perm
      → ApiEnds c cmd params (ran (some a))
  api_blocked :
      (c' : Client) (entries : List Entry)
      → UrcData c'.binary_rx c'.urc_queue entries
      → ApiEnds c cmd params stuck

module _ (c : Client) (cmd : Bytes) (params : List Param) where
  abbrev end_result :
      List Bytes → ℤ × List Arg → Exec (Option (ℤ × List Call × Client)) → Exec (Option Answer)
  end_result chunks answer m = m >>= λ r. ran (elim r [
    | none ↦ none
    | some (end_ret, calls, c') ↦ some (record {
      chunks = chunks;
      result = if is_negative answer.0 then answer.0 else end_ret;
      values = answer.1;
      calls = calls;
      client = c';
    })
  ])

-- The part of a call behind the start of its command.
module _ (c : Client) (cmd : Bytes) (params : List Param) (t : Setting) (fmt : Bytes) where
  abbrev go_on : List Bytes → ℤ × List Arg → Client → List Event → Exec (Option Answer)
  go_on chunks answer c2 rest = end_cmd chunks answer c2 t rest

  abbrev parsed_rsp :
      Option (Option Bytes × Client × List Event) → Option ((ℤ × List Arg) × Client × List Event)
  parsed_rsp none = none
  parsed_rsp (some (line, c', rest)) = some (rsp_params_result fmt t.before line, c', rest)

  abbrev after_rsp :
      List Bytes → Option ((ℤ × List Arg) × Client × List Event) → Exec (Option Answer)
  after_rsp chunks none = ran none
  after_rsp chunks (some (answer, c2, rest)) = go_on chunks answer c2 rest

  module _ (expected : Bytes) (buf : Bytes) (len : Option ℕ) (events : List Event) where
    abbrev follow : List Bytes × Client → Exec (Option Answer)
    follow (chunks, c1) =
        cmd_get_rsp_params c1 (some expected) buf len fmt t.before t.rsp_clock events >>= λ r.
        elim r [ none ↦ ran none | some (answer, c2, rest) ↦ go_on chunks answer c2 rest ]

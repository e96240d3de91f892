-- ===== src/UcxApi/Call.antt =====
-- The shapes that the functions of ucx_api/generated which send a command have, on the client of their
-- handle. The readings of the clock are given for each wait.
use ucxclient.Prelude.{
  ℕ, ◌+◌, ◌-◌, ◌%◌, ◌^◌, Bool, not, Option, none, some, List, [], ◌∷◌, Bytes, if◌then◌else◌,
}
use ucxclient.Prelude.Int.{ℤ, pos, negsuc, ltb_ℤ}
use ucxclient.ParamParser.{Arg, digit_arg}
use ucxclient.AtClient.State.{Client, Exec, ran, ◌>>=◌}
use ucxclient.AtClient.Uart.{Event}
use ucxclient.AtClient.Urcs.{Call}
use ucxclient.AtClient.Send.{Param}
use ucxclient.AtClient.Command.{cmd_begin, cmd_end, exec_simple_cmd, cmd_get_rsp_params}

-- What a call meets: the clock when its command starts, the readings while its response and its end
-- are awaited, and the byte that stands in front of its response in memory.
pub record Setting : Type 0 where
  pub now : ℤ
  pub rsp_clock : List ℤ
  pub end_clock : List ℤ
  pub before : ℕ

-- How a function that ends its command has ended: the writes to the UART, its result, what it has
-- stored through the pointers for the values of the response, the calls of the URC callback, and the
-- client.
pub record Answer : Type 0 where
  pub chunks : List Bytes
  pub result : ℤ
  pub values : List Arg
  pub calls : List Call
  pub client : Client

-- How a function that leaves its command under way has ended; `true` is the result 1.
pub record Opened : Type 0 where
  pub chunks : List Bytes
  pub result : ℤ
  pub values : List Arg
  pub client : Client
  pub unread : List Event

-- The functions. In `none` a wait has run out of readings of the clock.
abbrev pub ApiCall : Type 0
ApiCall = Client → Setting → List Event → Exec (Option Answer)

abbrev pub OpenCall : Type 0
OpenCall = Client → Setting → List Event → Exec (Option Opened)

abbrev pub of_bool : Bool → ℤ
of_bool b = pos (if b then 1 else 0)

abbrev pub is_negative : ℤ → Bool
is_negative i = ltb_ℤ i (pos 0)

-- A function that is `return uCxAtClientExecSimpleCmdF(...)`.
unfoldable pub exec_cmd : Bytes → List Param → ApiCall
exec_cmd cmd params c t events =
    exec_simple_cmd c cmd params t.now t.end_clock events >>= λ (chunks, r). ran (elim r [
      | none ↦ none
      | some (status, calls, c') ↦
          some
            (record { chunks = chunks; result = status; values = []; calls = calls; client = c' })
    ])

-- `uCxEnd`, which ends the command of a function that has left it under way.
unfoldable ucx_end : List ℤ → Client → List Event → Exec (Option (ℤ × List Call × Client))
ucx_end = cmd_end

-- uCxAtClientCmdEnd behind a response: `if (ret >= 0) ret = endRet`.
unfoldable pub end_cmd :
    List Bytes → ℤ × List Arg → Client → Setting → List Event → Exec (Option Answer)
end_cmd chunks (ret, values) c t events = cmd_end t.end_clock c events >>= λ r. ran (elim r [
  | none ↦ none
  | some (end_ret, calls, c') ↦ some (record {
    chunks = chunks;
    result = if is_negative ret then ret else end_ret;
    values = values;
    calls = calls;
    client = c';
  })
])

-- uCxAtClientCmdBeginF and uCxAtClientCmdGetRspParamsF, and then what is done with the response.
unfoldable pub ask {ℓ} :
    {A : Type ℓ}
    → Bytes
    → List Param
    → Bytes
    → Bytes
    → Option ℕ
    → Bytes
    → Client
    → Setting
    → List Event
    → (List Bytes → ℤ × List Arg → Client → List Event → Exec (Option A))
    → Exec (Option A)
ask cmd params expected buf len fmt c t events go = cmd_begin c cmd params t.now >>= λ (chunks, c1).
    cmd_get_rsp_params c1 (some expected) buf len fmt t.before t.rsp_clock events >>= λ r. elim r [
      | none ↦ ran none
      | some (answer, c2, rest) ↦ go chunks answer c2 rest
    ]

-- A function that sends a command, parses its response, and ends it.
unfoldable pub get_values : Bytes → List Param → Bytes → Bytes → ApiCall
get_values cmd params expected fmt c t events =
    ask cmd params expected [] none fmt c t events
      (λ chunks answer c2 rest. end_cmd chunks answer c2 t rest)

-- A function that sends a command and parses its response, with `return ret >= 0`.
unfoldable pub begin_values : Bytes → List Param → Bytes → Bytes → OpenCall
begin_values cmd params expected fmt c t events =
    ask cmd params expected [] none fmt c t events (λ chunks (ret, values) c2 rest. ran (
      some (record {
        chunks = chunks;
        result = of_bool (not (is_negative ret));
        values = values;
        client = c2;
        unread = rest;
      })))

-- A function that is uCxAtClientCmdBeginF.
unfoldable pub begin_cmd : Bytes → List Param → OpenCall
begin_cmd cmd params c t events = cmd_begin c cmd params t.now >>= λ (chunks, c1).
    ran
      (some (record { chunks = chunks; result = pos 0; values = []; client = c1; unread = events }))

-- A function that parses one more response of a command, with `return ret >= 0`.
unfoldable pub next_values : Bytes → Bytes → OpenCall
next_values expected fmt c t events =
    cmd_get_rsp_params c (some expected) [] none fmt t.before t.rsp_clock events >>= λ r.
    ran (elim r [
      | none ↦ none
      | some ((ret, values), c2, rest) ↦ some (record {
        chunks = [];
        result = of_bool (not (is_negative ret));
        values = values;
        client = c2;
        unread = rest;
      })
    ])

-- The value of a local variable that a response was to be stored to, `junk` if nothing was.
abbrev pub stored_digit : ℤ → List Arg → ℤ
stored_digit junk [] = junk
stored_digit junk (digit_arg v ∷ values) = v
stored_digit junk (a ∷ values) = junk

-- The end of a function whose result is the value of a variable when all has gone well.
unfoldable pub with_result : (Answer → ℤ) → Exec (Option Answer) → Exec (Option Answer)
with_result value m = m >>= λ r. ran (elim r [
  | none ↦ none
  | some a ↦ some (if is_negative a.result then a else record a { result = value a })
])

-- A function of the shape of `get_values` that returns a number of its response, which is kept in a
-- variable of its own. That variable holds `junk` first.
unfoldable pub get_number : ℤ → Bytes → List Param → Bytes → Bytes → ApiCall
get_number junk cmd params expected fmt c t events =
    with_result (λ a. stored_digit junk a.values) (get_values cmd params expected fmt c t events)

-- `(uint16_t)`
abbrev pub to_uint16 : ℤ → ℕ
to_uint16 (pos n) = n % 2 ^ 16
to_uint16 (negsuc n) = (2 ^ 16 - (n + 1) % 2 ^ 16) % 2 ^ 16

-- `binBufferLen`, whose address the client has.
abbrev pub bin_buffer_len : Client → ℤ
bin_buffer_len c = elim c.rsp_length [ none ↦ pos 0 | some n ↦ pos n ]

-- The same with the binary data of the response, which are received into a buffer of `length` bytes;
-- the result is their number.
unfoldable pub get_binary : Bytes → List Param → Bytes → Bytes → Bytes → ℤ → ApiCall
get_binary cmd params expected fmt buf len c t events =
    with_result (λ a. bin_buffer_len a.client)
      (ask cmd params expected buf (some (to_uint16 len)) fmt c t events
        (λ chunks answer c2 rest. end_cmd chunks answer c2 t rest))

-- uCxMqttReadBegin has binary data, and leaves its command under way.
unfoldable pub begin_binary : Bytes → List Param → Bytes → Bytes → Bytes → ℤ → OpenCall
begin_binary cmd params expected fmt buf len c t events =
    ask cmd params expected buf (some (to_uint16 len)) fmt c t events
      (λ chunks (ret, values) c2 rest. ran (
        some (record {
          chunks = chunks;
          result = if is_negative ret then ret else bin_buffer_len c2;
          values = values;
          client = c2;
          unread = rest;
        })))

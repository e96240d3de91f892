-- ===== src/AtClient/Urcs.antt =====
-- processUrcs of src/u_cx_at_client.c: the queued URCs are handed to the callback.
pub mod Deliver
use ucxclient.Prelude.{
  ℕ, zero, suc, ◌+◌, Bool, Option, none, some, List, [], ◌∷◌, ◌++◌, Bytes, ltb, if◌then◌else◌,
  read_at, load16,
}
use ucxclient.UrcQueue.{dequeue_begin, dequeue_end, header_size}
use ucxclient.AtClient.State.{Client, Exec, ran, on_queue, ◌>>=◌}

-- A call of the URC callback: the line, and the payload if there is one (NULL otherwise).
pub record Call : Type 0 where
  pub line : Bytes
  pub payload : Option Bytes

-- What the callback is given of the entry at `entry`.
unfoldable pub call_at : Bytes → ℕ → Call
call_at buf entry =
    let line_len = load16 buf entry in
    let payload_size = load16 buf (entry + 2) in
    record {
      line = read_at buf (entry + header_size) line_len;
      payload =
          if ltb 0 payload_size
          then some (read_at buf (entry + header_size + (line_len + 1)) payload_size)
          else none;
    }

-- The calls made so far, with one more if there is a callback.
unfoldable pub notify : Client → ℕ → List Call → List Call
notify c entry calls =
    if c.has_urc_callback then calls ++ call_at c.urc_queue.buffer entry ∷ [] else calls

-- `processUrcs` on fuel, with the calls made so far; `none` means that the fuel ran out.
unfoldable pub urc_loop : ℕ → List Call → Client → Exec (Option (List Call × Client))
urc_loop zero calls c = ran none
urc_loop (suc fuel) calls c = on_queue c (dequeue_begin c.urc_queue) >>= λ (found, c'). elim found [
  | none ↦ ran (some (calls, c'))
  | some entry ↦
      (on_queue c' (dequeue_end c'.urc_queue entry) >>= λ (_, c'').
      urc_loop fuel (notify c' entry calls) c'')
]

-- `processUrcs`. An entry takes several bytes, so the bytes in use are more rounds than there are
-- entries.
unfoldable pub process_urcs : Client → Exec (Option (List Call × Client))
process_urcs c = urc_loop (suc c.urc_queue.buffer_pos) [] c

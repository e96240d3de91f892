-- ===== src/AtClient/Command/Wait/Finish.antt =====
-- How a command ends.
use ucxclient.Prelude.{
  ◌≡◌, refl, ap, ◌∙◌, Bool, true, false, Option, none, some, List, [], if_true, Bytes,
}
use ucxclient.Prelude.Int.{ℤ}
use ucxclient.UrcQueue.{UrcQueue, returns, dequeue_begin}
use ucxclient.UrcQueue.Entries.{Entry, Holds, Pending, idle, adding}
use ucxclient.AtClient.State.{Client, Exec, ran, stuck, ◌>>=◌}
use ucxclient.AtClient.Uart.{Event}
use ucxclient.AtClient.Parse.Safe.{Returns, returned}
use ucxclient.AtClient.Rx.Char.{grown}
use ucxclient.AtClient.Rx.Binary.{plain, payload, UrcData}
use ucxclient.AtClient.Rx.Receive.{Mode, text, header, data_part}
use ucxclient.AtClient.Rx.Frame.{Frame, frame}
use ucxclient.AtClient.Urcs.{Call, process_urcs, urc_loop}
use ucxclient.AtClient.Urcs.Deliver.{process_urcs_delivers, process_urcs_waits}
use ucxclient.AtClient.Command.{is_pending, cmd_wait, cmd_finish, cmd_end}
use ucxclient.AtClient.Command.Wait.{Late, Waited, waited, cmd_wait_ends}

-- processUrcs has returned: it changed the queue only.
data Processed (c : Client) : Option (List Call × Client) → Type 0 where
  processed :
      (calls : List Call) (q : UrcQueue) → Processed c (some (calls, record c { urc_queue = q }))

-- While somebody else is taking an entry out, processUrcs leaves the queue to them.
process_urcs_taken :
    (c : Client) {entries : List Entry} {pending : Pending} {free : Bytes}
    → Holds c.urc_queue entries pending true free
    → Returns (Processed c) (process_urcs c)
unfolding process_urcs urc_loop
process_urcs_taken c h =
    let busy : dequeue_begin c.urc_queue ≡ returns none c.urc_queue =
      unfold dequeue_begin in rw h.taking_locked refl in
    rw busy (returned _ (processed [] c.urc_queue))

process_urcs-idle :
    (c : Client) (entries : List Entry) (taking : Bool) {free : Bytes}
    → Holds c.urc_queue entries idle taking free
    → Returns (Processed c) (process_urcs c)
process_urcs-idle c entries true h = process_urcs_taken c h
process_urcs-idle c entries false {free} h =
    let (q, free', e, h') = process_urcs_delivers c entries free h in
    rw e (returned _ (processed _ q))

-- How a command ends: with a result, the command over, its mutex free and the timeout the permanent
-- one; or waiting, in the middle of the binary data of a URC.
pub data Finished (clock : List ℤ) (c : Client) (events : List Event)
    : Exec (Option (ℤ × List Call × Client)) → Type 0 where
  finished :
      (calls : List Call) (c' : Client)
      → is_pending c' ≡ false
      → c'.executing_cmd ≡ false
      → c'.cmd_mutex ≡ false
      → c'.cmd_timeout ≡ c.cmd_timeout_last_perm
      → Finished clock c events (ran (some (c'.status, calls, c')))
  blocked :
      (c' : Client) (rest : List Event) (entries : List Entry)
      → cmd_wait clock c events ≡ ran (some (c', rest))
      → UrcData c'.binary_rx c'.urc_queue entries
      → Finished clock c events stuck

-- The client that processUrcs gets.
abbrev released : Client → Client
released c = record c {
  cmd_timeout = c.cmd_timeout_last_perm;
  executing_cmd = false;
  cmd_mutex = false;
}

abbrev report : Exec (Option (List Call × Client)) → Exec (Option (ℤ × List Call × Client))
report m = m >>= λ r. ran (elim r [ none ↦ none | some (calls, c') ↦ some (c'.status, calls, c') ])

module _ (clock : List ℤ) (c : Client) (events : List Event) where
  urcs_done-Finished :
      (c' : Client) {m : Exec (Option (List Call × Client))}
      → is_pending c' ≡ false
      → frame c' ≡ frame c
      → Returns (Processed (released c')) m
      → Finished clock c events (report m)
  urcs_done-Finished c' p e (returned r (processed calls q)) =
      finished calls (record (released c') { urc_queue = q }) p refl refl
        (ap (λ (f : Frame). f.cmd_timeout_last_perm) e)

  payload-Finished :
      (c' : Client) (rest : List Event) (entries : List Entry) (line : Bytes) (taking : Bool)
      {free : Bytes}
      → cmd_wait clock c events ≡ ran (some (c', rest))
      → is_pending c' ≡ false
      → frame c' ≡ frame c
      → UrcData c'.binary_rx c'.urc_queue entries
      → Holds c'.urc_queue entries (adding line) taking free
      → Finished clock c events (report (process_urcs (released c')))
  payload-Finished c' rest entries line true w p e u h =
      urcs_done-Finished c' p e (process_urcs_taken (released c') h)
  payload-Finished c' rest entries line false {free} w p e u h =
      rw ((process_urcs_waits (released c') entries line free h).0) (blocked c' rest entries w u)

  wait_end-Finished :
      (c' : Client) (rest : List Event) (entries : List Entry)
      → cmd_wait clock c events ≡ ran (some (c', rest))
      → is_pending c' ≡ false
      → frame c' ≡ frame c
      → Mode c' entries
      → Finished clock c events (report (process_urcs (released c')))
  wait_end-Finished c' rest entries w p e (text t) =
      urcs_done-Finished c' p e
        (process_urcs-idle (released c') entries t.queue.taking t.queue.holds)
  wait_end-Finished c' rest entries w p e (header h) =
      urcs_done-Finished c' p e
        (process_urcs-idle (released c') entries h.queue.taking h.queue.holds)
  wait_end-Finished c' rest entries w p e (data_part d) = elim d.carries [
    | plain s o q ↦
        urcs_done-Finished c' p e (process_urcs-idle (released c') entries q.taking q.holds)
    | payload s u ↦ payload-Finished c' rest entries u.line u.taking w p e u u.holds
  ]

  wait-Finished :
      {entries : List Entry} {m : Exec (Option (Client × List Event))}
      → c.executing_cmd ≡ true
      → cmd_wait clock c events ≡ m
      → Returns (Waited (frame c) entries) m
      → Finished clock c events
          (m >>= λ r. elim r [ none ↦ ran none | some (c', rest) ↦ cmd_finish c' ])
  unfolding cmd_finish
  wait-Finished x w (returned r (waited c' rest (grown added m) p e)) =
      if_true (Finished clock c events) _ (ap (λ (f : Frame). f.executing_cmd) e ∙ x)
        (wait_end-Finished c' rest _ w p e m)

  -- `cmdEnd` of a command under way, from any mode of the receive path and whatever arrives, if one of
  -- the clock's readings is past the timeout: it ends the command with a status, with the command mutex
  -- free and the timeout set back to the permanent one, and fails no assertion; or it waits, and then
  -- the wait for the status ended in the middle of the binary data of a URC.
  pub cmd_end-Finished :
      (entries : List Entry)
      → c.executing_cmd ≡ true
      → Mode c entries
      → Late c.cmd_start_time c.cmd_timeout clock
      → Finished clock c events (cmd_end clock c events)
  unfolding cmd_end
  cmd_end-Finished entries x m late =
      wait-Finished x refl (cmd_wait_ends clock c entries events m late)

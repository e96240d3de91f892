-- ===== src/AtClient/Urcs/Deliver.antt =====
-- processUrcs delivers every queued URC, in the order of their arrival.
use ucxclient.Prelude.{
  ℕ, zero, suc, ◌≤◌, ◌<◌, ◌≡◌, refl, ap, ◌∙◌, Bool, true, false, none, some, List, [], ◌∷◌, ◌++◌,
  append_assoc, append-nil, arith, Bytes, length, length-append, ltb, if◌then◌else◌, store16,
}
use ucxclient.UrcQueue.{UrcQueue, returns, waits, dequeue_begin}
use ucxclient.UrcQueue.Entries.{Entry, Holds, idle, adding, encode, encode_head, encode_all}
use ucxclient.UrcQueue.Enqueue.{length-encode_head}
use ucxclient.UrcQueue.Dequeue.{ReadsAs, dequeue_begin-Holds, dequeue_end-Holds}
use ucxclient.AtClient.State.{Client, ran, stuck}
use ucxclient.AtClient.Urcs.{Call, call_at, notify, urc_loop, process_urcs}

-- How an entry is to be delivered.
abbrev pub call_of : Entry → Call
call_of e = record {
  line = e.line;
  payload = if ltb 0 (length e.payload) then some e.payload else none;
}

abbrev pub calls_of : Bool → List Entry → List Call
calls_of has_callback [] = []
calls_of has_callback (e ∷ entries) =
    if has_callback
    then call_of e ∷ calls_of has_callback entries
    else calls_of has_callback entries

call_at_lem :
    {buf : Bytes} {entry : ℕ} {e : Entry} → ReadsAs buf entry e → call_at buf entry ≡ call_of e
unfolding call_at
call_at_lem {buf} {entry} {e} r = rw (r.line_bytes, r.payload_bytes, r.payload_size) refl

add_call :
    (has_callback : Bool) (e : Entry) (call : Call) (rest : List Entry) (calls : List Call)
    → call ≡ call_of e
    → (if has_callback then calls ++ call ∷ [] else calls) ++ calls_of has_callback rest
      ≡ calls ++ calls_of has_callback (e ∷ rest)
add_call true e call rest calls p =
    append_assoc calls (call ∷ []) (calls_of true rest)
    ∙ ap (λ x. calls ++ x ∷ calls_of true rest) p
add_call false e call rest calls p = refl

notify_lem :
    (c : Client) (entry : ℕ) (e : Entry) (rest : List Entry) (calls : List Call)
    → ReadsAs c.urc_queue.buffer entry e
    → notify c entry calls ++ calls_of c.has_urc_callback rest
      ≡ calls ++ calls_of c.has_urc_callback (e ∷ rest)
unfolding notify
notify_lem c entry e rest calls r =
    add_call c.has_urc_callback e (call_at c.urc_queue.buffer entry) rest calls (call_at_lem r)

-- What the loop is to do on `entries`.
abbrev Delivers : ℕ → List Call → Client → List Entry → Type 0
Delivers fuel calls c entries =
    (q' : UrcQueue) × (free' : Bytes) × (urc_loop fuel calls c
      ≡ ran (some (calls ++ calls_of c.has_urc_callback entries, record c { urc_queue = q' })))
    × Holds q' [] idle false free'

urc_loop-Delivers :
    (fuel : ℕ) (calls : List Call) (c : Client) (entries : List Entry) {free : Bytes}
    → length entries < fuel
    → Holds c.urc_queue entries idle false free
    → Delivers fuel calls c entries
unfolding urc_loop
urc_loop-Delivers zero calls c entries enough h = absurd (omega (arith, enough))
urc_loop-Delivers (suc fuel) calls c [] {free} enough h =
    let none_left : dequeue_begin c.urc_queue ≡ returns none c.urc_queue =
      dequeue_begin-Holds [] h in
    (c.urc_queue, free, rw (none_left, append-nil calls) refl, h)
urc_loop-Delivers (suc fuel) calls c (e ∷ rest) enough h =
    let (q1, begun, h1, r) = dequeue_begin-Holds (e ∷ rest) h in
    let (q2, free2, ended, h2) = dequeue_end-Holds h1 in
    let more = notify (record c { urc_queue = q1 }) 0 calls in
    let (q3, free3, done, h3) =
      urc_loop-Delivers fuel more (record c { urc_queue = q2 }) rest (omega (arith, enough)) h2 in
    (
      q3,
      free3,
      rw (begun, ended)
          (done
            ∙ ap (λ l. ran (some (l, record c { urc_queue = q3 })))
                (notify_lem (record c { urc_queue = q1 }) 0 e rest calls r)),
      h3,
    )

-- An entry takes bytes of the queue's buffer.
pub length-encode_all : (entries : List Entry) → length entries ≤ length (encode_all entries)
length-encode_all [] = omega arith
length-encode_all (e ∷ entries) = omega (
  arith,
  length-encode_all entries,
  length-append (encode e) (encode_all entries),
  length-append (store16 (length e.line))
      (store16 (length e.payload) ++ (e.line ++ 0 ∷ []) ++ e.payload),
  length-append (encode_head e.line (length e.payload)) e.payload,
  length-encode_head e.line (length e.payload),
)

-- `processUrcs` on a queue that nobody else is using calls the callback, if there is one, once for each
-- entry, oldest first, with its line and its payload (NULL if that is empty), and ends with an empty
-- queue that nobody is using. It changes nothing else of the client.
pub process_urcs_delivers :
    (c : Client) (entries : List Entry) (free : Bytes)
    → Holds c.urc_queue entries idle false free
    → (q' : UrcQueue) × (free' : Bytes) × (process_urcs c
        ≡ ran (some (calls_of c.has_urc_callback entries, record c { urc_queue = q' })))
      × Holds q' [] idle false free'
unfolding process_urcs
process_urcs_delivers c entries free h =
    urc_loop-Delivers (suc c.urc_queue.buffer_pos) [] c entries
      (omega (arith, h.used, length-encode_all entries)) h

pub process_urcs_waits :
    (c : Client) (entries : List Entry) (line free : Bytes)
    → Holds c.urc_queue entries (adding line) false free
    → (process_urcs c ≡ stuck)
      × (dequeue_begin c.urc_queue ≡ waits (record (c.urc_queue) { dequeue_mutex = true }))
unfolding process_urcs urc_loop dequeue_begin
process_urcs_waits c entries line free h = (
  ground (arith, h.taking_locked, h.taking_entry, h.locked),
  ground (arith, h.taking_locked, h.taking_entry, h.locked),
)

-- ===== src/UrcQueue/Tests.antt =====
-- The URC queue at concrete inputs.
use ucxclient.Prelude.{
  ◌+◌, ◌≤◌, ◌<◌, ◌≡◌, refl, ◌⊎◌, true, false, none, some, List, [], ◌∷◌, ◌++◌, arith, Bytes, codes,
  length, drop, replicate,
}
use mathlib.Core.Bool.{false≢true}
use ucxclient.Prelude.Int.{◌+ℤ◌}
use ucxclient.UrcQueue.{
  UrcQueue, returns, waits, asserts, init, enqueue_begin, enqueue_get_payload_ptr, enqueue_end,
  enqueue_abort, dequeue_begin, dequeue_end, store_entry, has_space, get_unused_buf,
}
use ucxclient.UrcQueue.Entries.{Entry, Holds, idle, adding, encode_head, encode}
use ucxclient.UrcQueue.Enqueue.{enqueue_begin-Holds}
use ucxclient.UrcQueue.Commit.{enqueue_get_payload_ptr_lem, enqueue_end-Holds, enqueue_abort-Holds}
use ucxclient.UrcQueue.Dequeue.{dequeue_begin-Holds, dequeue_end-Holds, Begun}
use ucxclient.UrcQueue.Fifo.{Run, here, next, begin_add, end_add, State, Run-fifo, init-Holds}

abbrev line : Bytes
line = codes "+A"

abbrev storage : Bytes
storage = replicate 12 0

abbrev fresh : UrcQueue
fresh = init storage 12

-- A queue with one enqueueing under way, and what is free behind it.
abbrev room : Bytes
room = 7 ∷ 8 ∷ 9 ∷ []

abbrev adding_one : UrcQueue
adding_one = record {
  buffer = encode_head line 0 ++ room;
  buffer_len = 10;
  buffer_pos = 7;
  queue_mutex = true;
  dequeue_mutex = false;
  enqueue_entry = some 0;
  dequeue_entry = none;
}

adding_one-Holds : Holds adding_one [] (adding line) false room
adding_one-Holds = record {
  layout = refl;
  whole = refl;
  small = omega arith;
  used = refl;
  sizes = tt;
  pending_size = omega arith;
  locked = refl;
  at_entry = refl;
  taking_locked = refl;
  taking_entry = refl;
  taking_some = λ t. absurd (false≢true t);
}

abbrev entry : Entry
entry = record { line = line; payload = 7 ∷ 8 ∷ [] }

abbrev one_entry : UrcQueue
one_entry = record {
  buffer = encode entry ++ 9 ∷ [];
  buffer_len = 10;
  buffer_pos = 9;
  queue_mutex = false;
  dequeue_mutex = false;
  enqueue_entry = none;
  dequeue_entry = none;
}

one_entry-Holds : Holds one_entry (entry ∷ []) idle false (9 ∷ [])
one_entry-Holds = record {
  layout = refl;
  whole = refl;
  small = omega arith;
  used = refl;
  sizes = omega arith;
  pending_size = tt;
  locked = refl;
  at_entry = refl;
  taking_locked = refl;
  taking_entry = refl;
  taking_some = λ t. omega arith;
}

abbrev taking_one : UrcQueue
taking_one = record one_entry { dequeue_mutex = true; dequeue_entry = some 0 }

taking_one-Holds : Holds taking_one (entry ∷ []) idle true (9 ∷ [])
taking_one-Holds = record {
  layout = refl;
  whole = refl;
  small = omega arith;
  used = refl;
  sizes = omega arith;
  pending_size = tt;
  locked = refl;
  at_entry = refl;
  taking_locked = refl;
  taking_entry = refl;
  taking_some = λ t. omega arith;
}

enqueue_begin-Holds_example :
    ((length line + 5 ≤ length storage)
      × (q' : UrcQueue) × (enqueue_begin fresh line ≡ returns true q')
      × Holds q' [] (adding line) false (drop (length line + 5) storage))
    ⊎ ((length storage < length line + 5) × (enqueue_begin fresh line ≡ returns false fresh))
enqueue_begin-Holds_example =
    enqueue_begin-Holds line (init-Holds storage (omega arith)) (omega arith)

enqueue_get_payload_ptr_example : enqueue_get_payload_ptr adding_one ≡ returns (3, 7) adding_one
enqueue_get_payload_ptr_example = enqueue_get_payload_ptr_lem adding_one-Holds

enqueue_end-Holds_example :
    (q' : UrcQueue) × (enqueue_end adding_one 2 ≡ returns tt q')
    × Holds q' (entry ∷ []) idle false (9 ∷ [])
enqueue_end-Holds_example =
    enqueue_end-Holds adding_one-Holds (7 ∷ 8 ∷ []) (9 ∷ []) refl (omega arith)

enqueue_abort-Holds_example :
    (q' : UrcQueue) × (enqueue_abort adding_one ≡ returns tt q')
    × Holds q' [] idle false (encode_head line 0 ++ room)
enqueue_abort-Holds_example = enqueue_abort-Holds adding_one-Holds

dequeue_begin-Holds_example : Begun one_entry (entry ∷ []) (9 ∷ [])
dequeue_begin-Holds_example = dequeue_begin-Holds (entry ∷ []) one_entry-Holds

dequeue_end-Holds_example :
    (q' : UrcQueue) × (free' : Bytes) × (dequeue_end taking_one 0 ≡ returns tt q')
    × Holds q' [] idle false free'
dequeue_end-Holds_example = dequeue_end-Holds taking_one-Holds

-- A URC is enqueued without a payload, and taken out again.
abbrev bare : Entry
bare = record { line = line; payload = [] }

abbrev added : UrcQueue
added = record fresh {
  buffer = encode_head line 0 ++ replicate 5 0;
  buffer_pos = 7;
  queue_mutex = true;
  enqueue_entry = some 0;
}

abbrev stored : UrcQueue
stored = record added { queue_mutex = false; enqueue_entry = none }

added-Run : Run fresh (bare ∷ []) [] stored
unfolding init enqueue_begin enqueue_end store_entry has_space get_unused_buf ◌+ℤ◌
added-Run = next (next here (begin_add line true (omega arith) refl)) (
    end_add 0 0 bare (omega arith) refl refl
      (record { line_size = refl; payload_size = refl; line_bytes = refl; payload_bytes = refl }))

Run-fifo_example : (entries : List Entry) × State stored entries × (bare ∷ [] ≡ [] ++ entries)
Run-fifo_example = Run-fifo storage (omega arith) added-Run

-- A second caller gets nothing while an entry is out, and one that would wait for the receiving thread
-- keeps the dequeue mutex.
second_taker : dequeue_begin taking_one ≡ returns none taking_one
unfolding dequeue_begin
second_taker = refl

taker_waits : dequeue_begin adding_one ≡ waits (record adding_one { dequeue_mutex = true })
unfolding dequeue_begin
taker_waits = refl

too_long : enqueue_end adding_one 4 ≡ asserts
unfolding enqueue_end get_unused_buf
too_long = refl

-- ===== src/UrcQueue.antt =====
-- src/u_cx_at_urc_queue.c: the queue of incoming URCs, a byte buffer of packed entries behind two
-- mutexes. The functions are translated here; the modules below prove what they do.
pub mod Entries
pub mod Enqueue
pub mod Commit
pub mod Dequeue
pub mod Fifo
mod Tests
use ucxclient.Prelude.{
  ℕ, ◌+◌, ◌-◌, ◌%◌, ◌^◌, Bool, true, false, Option, none, some, [], ◌∷◌, Bytes, ltb, leb, ◌==◌,
  if◌then◌else◌, length, not, take, drop, write_at, store16, load16,
}
use ucxclient.Prelude.Int.{ℤ, pos, negsuc, ◌-ℤ◌, ◌+ℤ◌, ltb_ℤ, pos_part}

-- `uCxAtUrcQueue_t`. An entry pointer is the entry's distance from `pBuffer`, `none` is NULL; a mutex
-- is whether it is held.
pub record UrcQueue : Type 0 where
  pub buffer : Bytes
  pub buffer_len : ℕ
  pub buffer_pos : ℕ
  pub queue_mutex : Bool
  pub dequeue_mutex : Bool
  pub enqueue_entry : Option ℕ
  pub dequeue_entry : Option ℕ

-- How a call ends: it returns, it waits for a mutex that is held (with the state that it leaves
-- meanwhile), or an assertion fails.
pub data Outcome {ℓ} (A : Type ℓ) : Type ℓ where
  returns : A → UrcQueue → Outcome A
  waits : UrcQueue → Outcome A
  asserts : Outcome A

-- `sizeof(uUrcEntry_t)`: the two `uint16_t` fields.
abbrev pub header_size : ℕ
header_size = 4

abbrev pub size_mod : ℕ
size_mod = 2 ^ 32

-- `(int32_t)` of a `size_t`
abbrev pub int32 : ℕ → ℤ
int32 w = if ltb (w % 2 ^ 32) (2 ^ 31) then pos (w % 2 ^ 32) else negsuc (2 ^ 32 - w % 2 ^ 32 - 1)

-- `getUnusedBuf`
unfoldable pub get_unused_buf : UrcQueue → ℕ
get_unused_buf q = (q.buffer_len + size_mod - q.buffer_pos) % size_mod

-- `uCxAtUrcQueueInit` on a buffer of `size` bytes
unfoldable pub init : Bytes → ℕ → UrcQueue
init bytes size = record {
  buffer = bytes;
  buffer_len = size;
  buffer_pos = 0;
  queue_mutex = false;
  dequeue_mutex = false;
  enqueue_entry = none;
  dequeue_entry = none;
}

-- The fields and the text of a new entry at `entry`, stored in the order of the code.
unfoldable pub store_entry : Bytes → ℕ → Bytes → Bytes
store_entry buf entry line =
    let buf1 = write_at buf (entry + header_size) line in
    let buf2 = write_at buf1 (entry + header_size + length line) (0 ∷ []) in
    let buf3 = write_at buf2 entry (store16 (length line % 2 ^ 16)) in
    write_at buf3 (entry + 2) (store16 0)

-- The test of `uCxAtUrcQueueEnqueueBegin`, in `int32_t`.
unfoldable pub has_space : UrcQueue → ℕ → Bool
has_space q len =
    not (ltb_ℤ (int32 (get_unused_buf q + size_mod - header_size)) (int32 len +ℤ pos 1))

-- `uCxAtUrcQueueEnqueueBegin`
unfoldable pub enqueue_begin : UrcQueue → Bytes → Outcome Bool
enqueue_begin q line = if q.queue_mutex then waits q else elim q.enqueue_entry [
  | some _ ↦ asserts
  | none ↦
      if has_space q (length line)
      then returns true (record q {
        buffer = store_entry q.buffer q.buffer_pos line;
        buffer_pos = q.buffer_pos + (header_size + length line + 1);
        enqueue_entry = some q.buffer_pos;
        queue_mutex = true;
      })
      else returns false (record q { queue_mutex = false })
]

-- `uCxAtUrcQueueEnqueueGetPayloadPtr`: the space that is left and the place of the payload.
unfoldable pub enqueue_get_payload_ptr : UrcQueue → Outcome (ℕ × ℕ)
enqueue_get_payload_ptr q = elim q.enqueue_entry [
  | none ↦ asserts
  | some entry ↦
      returns (get_unused_buf q % 2 ^ 16, entry + header_size + (load16 q.buffer entry + 1)) q
]

-- `uCxAtUrcQueueEnqueueEnd`
unfoldable pub enqueue_end : UrcQueue → ℕ → Outcome (Unit {0})
enqueue_end q payload_size = elim q.enqueue_entry [
  | none ↦ asserts
  | some entry ↦
      if ltb (get_unused_buf q) payload_size
      then asserts
      else returns tt (record q {
        buffer = write_at q.buffer (entry + 2) (store16 payload_size);
        buffer_pos = q.buffer_pos + payload_size;
        enqueue_entry = none;
        queue_mutex = false;
      })
]

-- `uCxAtUrcQueueEnqueueAbort`
unfoldable pub enqueue_abort : UrcQueue → Outcome (Unit {0})
enqueue_abort q = elim q.enqueue_entry [
  | none ↦ asserts
  | some entry ↦
      returns tt (record q { buffer_pos = entry; enqueue_entry = none; queue_mutex = false })
]

-- `uCxAtUrcQueueDequeueBegin`. The call holds `dequeueMutex` while it waits for `queueMutex`.
unfoldable pub dequeue_begin : UrcQueue → Outcome (Option ℕ)
dequeue_begin q = if q.dequeue_mutex then returns none q else elim q.dequeue_entry [
  | some _ ↦ asserts
  | none ↦
      if q.queue_mutex
      then waits (record q { dequeue_mutex = true })
      else if ltb 0 q.buffer_pos
      then returns (some 0) (record q { dequeue_mutex = true; dequeue_entry = some 0 })
      else returns none q
]

-- `sizeof(uUrcEntry_t) + U_URC_ENTRY_SIZE(pEntry)`
unfoldable pub entry_size : Bytes → ℕ → ℕ
entry_size buf entry = header_size + (load16 buf entry + 1 + load16 buf (entry + 2))

-- The locked part of `uCxAtUrcQueueDequeueEnd`: the entry is cut off the start of the buffer.
unfoldable pub remove_entry : UrcQueue → ℕ → UrcQueue
remove_entry q entry =
    let size = entry_size q.buffer entry in
    let remaining = int32 q.buffer_pos -ℤ int32 size in
    if ltb_ℤ (pos 0) remaining
    then record q {
      buffer = write_at q.buffer 0 (take (pos_part remaining) (drop size q.buffer));
      buffer_pos = (q.buffer_pos + size_mod - size) % size_mod;
    }
    else record q { buffer_pos = 0 }

-- `uCxAtUrcQueueDequeueEnd`
unfoldable pub dequeue_end : UrcQueue → ℕ → Outcome (Unit {0})
dequeue_end q entry = elim q.dequeue_entry [
  | none ↦ asserts
  | some current ↦
      if current == entry
      then (if q.queue_mutex
          then waits q
          else returns tt
              (record (remove_entry q entry) { dequeue_entry = none; dequeue_mutex = false }))
      else asserts
]

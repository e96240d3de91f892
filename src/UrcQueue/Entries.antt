-- ===== src/UrcQueue/Entries.antt =====
-- The entries that a queue holds: what the packed bytes stand for.
use ucxclient.Prelude.{
  ℕ, ◌+◌, ◌^◌, ◌<◌, ◌≡◌, refl, sym, Bool, true, false, Option, none, some, List, [], ◌∷◌, ◌++◌,
  append_assoc, Bytes, All, length, if◌then◌else◌, store16,
}
use ucxclient.UrcQueue.{UrcQueue}

-- `uUrcEntry_t` with its data.
pub record Entry : Type 0 where
  pub line : Bytes
  pub payload : Bytes

-- The bytes of an entry up to its payload.
abbrev pub encode_head : Bytes → ℕ → Bytes
encode_head line payload_size = store16 (length line) ++ (store16 payload_size ++ (line ++ 0 ∷ []))

abbrev pub encode : Entry → Bytes
encode e = encode_head e.line (length e.payload) ++ e.payload

abbrev pub encode_all : List Entry → Bytes
encode_all [] = []
encode_all (e ∷ entries) = encode e ++ encode_all entries

-- The two sizes fit their `uint16_t` fields.
abbrev pub Fits : Entry → Type 0
Fits e = (length e.line < 2 ^ 16) × (length e.payload < 2 ^ 16)

pub encode_all-append :
    (xs ys : List Entry) → encode_all (xs ++ ys) ≡ encode_all xs ++ encode_all ys
encode_all-append [] ys = refl
encode_all-append (x ∷ xs) ys =
    rw (encode_all-append xs ys) (sym (append_assoc (encode x) (encode_all xs) (encode_all ys)))

-- An enqueueing under way, with its line.
pub data Pending : Type 0 where
  idle : Pending
  adding : Bytes → Pending

abbrev pub pending_bytes : Pending → Bytes
pending_bytes idle = []
pending_bytes (adding line) = encode_head line 0

abbrev pub is_adding : Pending → Bool
is_adding idle = false
is_adding (adding line) = true

abbrev pub pending_entry : Pending → ℕ → Option ℕ
pending_entry idle pos = none
pending_entry (adding line) pos = some pos

abbrev pub PendingFits : Pending → Type 0
PendingFits idle = Unit
PendingFits (adding line) = length line < 2 ^ 16

-- `q` holds the `entries`, oldest first, with an enqueueing in the state `pending`, its first entry
-- being dequeued if `taking`, and the bytes `free` unused.
pub record Holds (q : UrcQueue) (entries : List Entry) (pending : Pending) (taking : Bool)
    (free : Bytes) : Type 0 where
  pub layout : q.buffer ≡ encode_all entries ++ (pending_bytes pending ++ free)
  pub whole : q.buffer_len ≡ length q.buffer
  pub small : q.buffer_len < 2 ^ 31
  pub used : q.buffer_pos ≡ length (encode_all entries) + length (pending_bytes pending)
  pub sizes : All Fits entries
  pub pending_size : PendingFits pending
  pub locked : q.queue_mutex ≡ is_adding pending
  pub at_entry : q.enqueue_entry ≡ pending_entry pending (length (encode_all entries))
  pub taking_locked : q.dequeue_mutex ≡ taking
  pub taking_entry : q.dequeue_entry ≡ (if taking then some 0 else none)
  pub taking_some : taking ≡ true → 0 < length entries

-- ===== src/UrcQueue/Dequeue.antt =====
-- What the dequeueing functions see of the entries, and how they take the oldest one out.
use ucxclient.Prelude.{
  ℕ, ◌+◌, ◌-◌, ◌%◌, ◌^◌, ◌<◌, ◌≡◌, refl, sym, ◌∙◌, inl, inr, Bool-cases, write_at-nil, eq_nil, Bool,
  true, false, none, some, List, [], ◌∷◌, ◌++◌, append_assoc, arith, Bytes, length, length-append,
  take, drop, read_at, read_at_lem, write_at, write_at_lem, length-write_at, store16, load16,
  load16_lem, ltb, take-append-drop, length-take,
}
use mathlib.Core.Bool.{false≢true}
use ucxclient.Prelude.Int.{◌-ℤ◌, pos}
use ucxclient.UrcQueue.{
  UrcQueue, returns, dequeue_begin, dequeue_end, remove_entry, entry_size, header_size, int32,
  size_mod,
}
use ucxclient.UrcQueue.Entries.{
  Entry, Holds, Pending, idle, encode_head, encode_all, encode, pending_bytes, Fits,
}
use ucxclient.UrcQueue.Enqueue.{length_buffer, length-encode_head}

-- What a reader of `uUrcEntry_t` at `entry` finds there: the two sizes, the line and the payload.
pub record ReadsAs (buf : Bytes) (entry : ℕ) (e : Entry) : Type 0 where
  pub line_size : load16 buf entry ≡ length e.line
  pub payload_size : load16 buf (entry + 2) ≡ length e.payload
  pub line_bytes : read_at buf (entry + header_size) (load16 buf entry) ≡ e.line
  pub payload_bytes :
      read_at buf (entry + header_size + (load16 buf entry + 1)) (load16 buf (entry + 2))
      ≡ e.payload

-- An entry that stands behind `front` in memory.
pub reads_encode :
    (buf front rest : Bytes) (entry : ℕ) (e : Entry)
    → buf ≡ front ++ (encode e ++ rest)
    → entry ≡ length front
    → Fits e
    → ReadsAs buf entry e
reads_encode buf front rest entry e b at_entry (small, psmall) =
    let line_size : load16 buf entry ≡ length e.line =
      load16_lem buf entry (length e.line) front
        (store16 (length e.payload) ++ ((e.line ++ 0 ∷ []) ++ (e.payload ++ rest)))
        (b ∙ simp append_assoc) at_entry small in
    let payload_size : load16 buf (entry + 2) ≡ length e.payload =
      load16_lem buf (entry + 2) (length e.payload) (front ++ store16 (length e.line))
        ((e.line ++ 0 ∷ []) ++ (e.payload ++ rest)) (b ∙ simp append_assoc)
        (omega (arith, length-append front (store16 (length e.line)))) psmall in
    record {
      line_size = line_size;
      payload_size = payload_size;
      line_bytes =
          read_at_lem buf _ _ (front ++ (store16 (length e.line) ++ store16 (length e.payload)))
            e.line (0 ∷ (e.payload ++ rest)) (b ∙ simp append_assoc)
            (omega
              (arith, length-append front (store16 (length e.line) ++ store16 (length e.payload))))
            line_size;
      payload_bytes =
          read_at_lem buf _ _ (front ++ encode_head e.line (length e.payload)) e.payload rest
            (b ∙ simp append_assoc)
            (omega (
              arith,
              line_size,
              length-append front (encode_head e.line (length e.payload)),
              length-encode_head e.line (length e.payload),
            ))
            payload_size;
    }

entry_size_lem :
    {buf : Bytes} {entry : ℕ} {e : Entry}
    → ReadsAs buf entry e
    → entry_size buf entry ≡ length (encode e)
unfolding entry_size
entry_size_lem {e = e} r = omega (
  arith,
  r.line_size,
  r.payload_size,
  length-append (encode_head e.line (length e.payload)) e.payload,
  length-encode_head e.line (length e.payload),
)

-- As long as the queue holds an entry, and whatever is being added behind it, the oldest entry can be
-- read at the start of the buffer.
pub oldest-ReadsAs :
    {q : UrcQueue} {e : Entry} {entries : List Entry} {pending : Pending} {taking : Bool}
    {free : Bytes}
    → Holds q (e ∷ entries) pending taking free
    → ReadsAs q.buffer 0 e
oldest-ReadsAs {q} {e} {entries} {pending} {free = free} h =
    reads_encode q.buffer [] (encode_all entries ++ (pending_bytes pending ++ free)) 0 e
      (h.layout ∙ simp append_assoc) refl h.sizes.0

-- What dequeue_begin is to do on `entries`.
abbrev pub Begun : UrcQueue → List Entry → Bytes → Type 0
Begun q [] free = dequeue_begin q ≡ returns none q
Begun q (e ∷ rest) free =
    (q' : UrcQueue) × (dequeue_begin q ≡ returns (some 0) q')
    × Holds q' (e ∷ rest) idle true free
    × ReadsAs q'.buffer 0 e

-- `uCxAtUrcQueueDequeueBegin` on an empty queue returns NULL and leaves the queue as it is; on a
-- queue with entries it returns the start of the buffer, where the oldest entry is read, and holds the
-- queue's entries for the caller.
pub dequeue_begin-Holds :
    {q : UrcQueue} (entries : List Entry) {free : Bytes}
    → Holds q entries idle false free
    → Begun q entries free
unfolding dequeue_begin
dequeue_begin-Holds [] h = ground (arith, h.taking_entry, h.taking_locked, h.locked, h.used)
dequeue_begin-Holds {q} (e ∷ rest) {free} h =
    let h' : Holds (record q { dequeue_mutex = true; dequeue_entry = some 0 }) (e ∷ rest) idle true
        free =
      record {
        layout = h.layout;
        whole = h.whole;
        small = h.small;
        used = h.used;
        sizes = h.sizes;
        pending_size = tt;
        locked = h.locked;
        at_entry = h.at_entry;
        taking_locked = refl;
        taking_entry = refl;
        taking_some = λ t. omega arith;
      } in
    (
      record q { dequeue_mutex = true; dequeue_entry = some 0 },
      ground (
        arith,
        h.taking_entry,
        h.taking_locked,
        h.locked,
        h.used,
        length-append (encode e) (encode_all rest),
      ),
      h',
      oldest-ReadsAs h',
    )

-- The entry is cut off, and the bytes of the others move to the start.
remove_entry_lem :
    {q : UrcQueue} {e : Entry} {entries : List Entry} {taking : Bool} {free : Bytes}
    → Holds q (e ∷ entries) idle taking free
    → remove_entry q 0 ≡ record q {
      buffer = write_at q.buffer 0 (encode_all entries);
      buffer_pos = length (encode_all entries);
    }
unfolding remove_entry
remove_entry_lem {q} {e} {entries} {free = free} h =
    let rest = encode_all entries in
    let size : entry_size q.buffer 0 ≡ length (encode e) = entry_size_lem (oldest-ReadsAs h) in
    let at_end : q.buffer_pos ≡ length (encode e) + length rest =
      omega (arith, h.used, length-append (encode e) rest) in
    let bound : length (encode e) + length rest < 2 ^ 31 =
      omega (arith, length_buffer h, h.whole, h.small, length-append (encode e) rest) in
    let left : int32 q.buffer_pos -ℤ int32 (entry_size q.buffer 0) ≡ pos (length rest) =
      unfold ◌-ℤ◌ in ground (arith, size, at_end, bound) in
    let moved : take (length rest) (drop (entry_size q.buffer 0) q.buffer) ≡ rest =
      read_at_lem q.buffer (entry_size q.buffer 0) (length rest) (encode e) rest free
        (h.layout ∙ simp append_assoc) size refl in
    let wrap : (q.buffer_pos + size_mod - entry_size q.buffer 0) % size_mod ≡ length rest =
      omega (arith, size, at_end, bound) in
    rw (left, moved, wrap)
      (elim (Bool-cases (ltb 0 (length rest))) [
        | inl some_left ↦ ground arith
        | inr none_left ↦ ground (arith, eq_nil rest, write_at-nil q.buffer)
      ])

-- `uCxAtUrcQueueDequeueEnd` takes exactly the oldest entry out, and lets the next caller in.
pub dequeue_end-Holds :
    {q : UrcQueue} {e : Entry} {entries : List Entry} {free : Bytes}
    → Holds q (e ∷ entries) idle true free
    → (q' : UrcQueue) × (free' : Bytes) × (dequeue_end q 0 ≡ returns tt q')
      × Holds q' entries idle false free'
unfolding dequeue_end
dequeue_end-Holds {q} {e} {entries} {free} h =
    let rest = encode_all entries in
    (
      record q {
        buffer = write_at q.buffer 0 rest;
        buffer_pos = length rest;
        dequeue_entry = none;
        dequeue_mutex = false;
      },
      drop (length rest) q.buffer,
      ground (arith, h.taking_entry, h.locked, remove_entry_lem h),
      record {
        layout =
            write_at_lem q.buffer 0 [] (take (length rest) q.buffer) (drop (length rest) q.buffer)
              rest (sym (take-append-drop (length rest) q.buffer)) refl
              (omega (
                arith,
                length-take (length rest) q.buffer,
                length_buffer h,
                length-append (encode e) rest,
              ));
        whole = h.whole ∙ sym (length-write_at q.buffer 0 rest);
        small = h.small;
        used = omega arith;
        sizes = h.sizes.1;
        pending_size = tt;
        locked = h.locked;
        at_entry = h.at_entry;
        taking_locked = refl;
        taking_entry = refl;
        taking_some = λ t. absurd (false≢true t);
      },
    )

-- ===== src/UrcQueue/Commit.antt =====
-- How an enqueueing under way is filled, completed or given up.
use ucxclient.Prelude.{
  ℕ, ◌+◌, ◌%◌, ◌^◌, ◌≤◌, ◌<◌, ◌≡◌, refl, ap, sym, ◌∙◌, Bool, false, none, List, [], ◌∷◌, ◌++◌,
  append_assoc, append-nil, arith, Bytes, All-append, length, length-append, take, drop, write_at,
  write_at_lem, length-write_at, write_at-append, store16, load16, load16_lem, take-append-drop,
  length-take,
}
use ucxclient.UrcQueue.{
  UrcQueue, returns, asserts, enqueue_end, enqueue_abort, enqueue_get_payload_ptr,
}
use ucxclient.UrcQueue.Entries.{
  Entry, Holds, idle, adding, encode_head, encode_all, encode, encode_all-append, Fits,
}
use ucxclient.UrcQueue.Enqueue.{get_unused_buf_lem, length-encode_head}

module _ {q : UrcQueue} {entries : List Entry} {line : Bytes} {taking : Bool} {free : Bytes}
    (h : Holds q entries (adding line) taking free) where
  -- The payload pointer of an enqueueing under way is the first unused byte of the buffer, and the
  -- space reported is what is unused, cut to 16 bits; the queue is not changed.
  pub enqueue_get_payload_ptr_lem :
      enqueue_get_payload_ptr q ≡ returns (length free % 2 ^ 16, q.buffer_pos) q
  unfolding enqueue_get_payload_ptr
  enqueue_get_payload_ptr_lem =
      let size : load16 q.buffer (length (encode_all entries)) ≡ length line =
        load16_lem q.buffer _ (length line) (encode_all entries)
          (store16 0 ++ (line ++ 0 ∷ []) ++ free) (h.layout ∙ simp append_assoc) refl
          h.pending_size in
      ground (arith, h.at_entry, size, get_unused_buf_lem h, h.used, length-append line (0 ∷ []))

  -- What the client stores at the payload pointer changes the unused bytes only.
  pub write_payload-Holds :
      (bytes : Bytes)
      → length bytes ≤ length free
      → Holds
          (record q { buffer = write_at q.buffer q.buffer_pos bytes })
          entries
          (adding line)
          taking
          (bytes ++ drop (length bytes) free)
  write_payload-Holds bytes room = record {
    layout =
        write_at_lem q.buffer q.buffer_pos (encode_all entries ++ encode_head line 0)
          (take (length bytes) free) (drop (length bytes) free) bytes
          (h.layout ∙ rw take-append-drop (simp append_assoc))
          (omega (arith, h.used, length-append (encode_all entries) (encode_head line 0)))
          (omega (arith, length-take (length bytes) free))
        ∙ simp append_assoc;
    whole = h.whole ∙ sym (length-write_at q.buffer q.buffer_pos bytes);
    small = h.small;
    used = h.used;
    sizes = h.sizes;
    pending_size = h.pending_size;
    locked = h.locked;
    at_entry = h.at_entry;
    taking_locked = h.taking_locked;
    taking_entry = h.taking_entry;
    taking_some = h.taking_some;
  }

  -- So does what is stored further on.
  pub store_payload-Holds :
      (k : ℕ) (bytes : Bytes)
      → Holds
          (record q { buffer = write_at q.buffer (q.buffer_pos + k) bytes })
          entries
          (adding line)
          taking
          (write_at free k bytes)
  store_payload-Holds k bytes = record {
    layout =
        let front = encode_all entries ++ encode_head line 0 in
        let place : q.buffer_pos ≡ length front =
          omega (arith, h.used, length-append (encode_all entries) (encode_head line 0)) in
        let cut : q.buffer ≡ front ++ free = h.layout ∙ simp append_assoc in
        rw (place, cut) (write_at-append front free k bytes ∙ simp append_assoc);
    whole = h.whole ∙ sym (length-write_at q.buffer (q.buffer_pos + k) bytes);
    small = h.small;
    used = h.used;
    sizes = h.sizes;
    pending_size = h.pending_size;
    locked = h.locked;
    at_entry = h.at_entry;
    taking_locked = h.taking_locked;
    taking_entry = h.taking_entry;
    taking_some = h.taking_some;
  }

  -- `uCxAtUrcQueueEnqueueEnd` with the size of a payload (below 64 KiB) that stands at the start of the
  -- unused bytes: the queue then holds the old entries and, behind them, one with the line of the
  -- enqueueing and that payload, and lets go of its mutex.
  pub enqueue_end-Holds :
      (payload rest : Bytes)
      → free ≡ payload ++ rest
      → length payload < 2 ^ 16
      → (q' : UrcQueue) × (enqueue_end q (length payload) ≡ returns tt q')
        × Holds q' (entries ++ record { line = line; payload = payload } ∷ []) idle taking rest
  unfolding enqueue_end
  enqueue_end-Holds payload rest e small =
      let n = length payload in
      let front = encode_all entries in
      let entry : Entry = record { line = line; payload = payload } in
      let stored : write_at q.buffer (length front + 2) (store16 n)
          ≡ (front ++ store16 (length line)) ++ (store16 n ++ ((line ++ 0 ∷ []) ++ free)) =
        write_at_lem q.buffer _ (front ++ store16 (length line)) (store16 0)
          ((line ++ 0 ∷ []) ++ free) _ (h.layout ∙ simp append_assoc)
          (omega (arith, length-append front (store16 (length line)))) refl in
      let all : encode_all (entries ++ entry ∷ []) ≡ front ++ (encode entry ++ []) =
        encode_all-append entries (entry ∷ []) in
      let size : length (encode_all (entries ++ entry ∷ []))
          ≡ length front + (length line + 5 + n) =
        ap length all
        ∙ omega (
          arith,
          length-append front (encode entry ++ []),
          length-append (encode entry) [],
          length-append (encode_head line n) payload,
          length-encode_head line n,
        ) in
      (
        record q {
          buffer = write_at q.buffer (length front + 2) (store16 n);
          buffer_pos = q.buffer_pos + n;
          enqueue_entry = none;
          queue_mutex = false;
        },
        ground (arith, h.at_entry, get_unused_buf_lem h, e, length-append payload rest),
        record {
          layout = stored ∙ rw (e, all) (simp (append_assoc, append-nil));
          whole = h.whole ∙ sym (length-write_at q.buffer (length front + 2) (store16 n));
          small = h.small;
          used = omega (arith, h.used, size, length-encode_head line 0);
          sizes = All-append Fits entries (entry ∷ []) h.sizes ((h.pending_size, small), tt);
          pending_size = tt;
          locked = refl;
          at_entry = refl;
          taking_locked = h.taking_locked;
          taking_entry = h.taking_entry;
          taking_some = λ t. omega (arith, h.taking_some t, length-append {0} entries (entry ∷ []));
        },
      )

  -- A payload longer than the unused bytes fails the assertion.
  pub enqueue_end_too_long : (n : ℕ) → length free < n → enqueue_end q n ≡ asserts
  unfolding enqueue_end
  enqueue_end_too_long n long = ground (arith, h.at_entry, get_unused_buf_lem h)

  -- `uCxAtUrcQueueEnqueueAbort` gives the bytes of the entry under way back, keeps the entries before
  -- it, and lets go of the mutex.
  pub enqueue_abort-Holds :
      (q' : UrcQueue) × (enqueue_abort q ≡ returns tt q')
      × Holds q' entries idle taking (encode_head line 0 ++ free)
  unfolding enqueue_abort
  enqueue_abort-Holds = (
    record q {
      buffer_pos = length (encode_all entries);
      enqueue_entry = none;
      queue_mutex = false;
    },
    ground (arith, h.at_entry),
    record {
      layout = h.layout;
      whole = h.whole;
      small = h.small;
      used = omega arith;
      sizes = h.sizes;
      pending_size = tt;
      locked = refl;
      at_entry = refl;
      taking_locked = h.taking_locked;
      taking_entry = h.taking_entry;
      taking_some = h.taking_some;
    },
  )

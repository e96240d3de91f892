-- ===== src/UrcQueue/Enqueue.antt =====
-- What the enqueueing functions do to the entries that a queue holds.
use ucxclient.Prelude.{
  ℕ, ◌+◌, ◌-◌, ◌%◌, ◌^◌, ◌≤◌, ◌<◌, ◌≡◌, refl, ap, sym, ◌∙◌, ◌⊎◌, inl, inr, Bool-cases, Bool, true,
  false, some, List, [], ◌∷◌, ◌++◌, append_assoc, arith, Bytes, length, length-append, take, drop,
  write_at, write_at_lem, length-write_at, store16, leb, if◌then◌else◌, take-append-drop,
  length-take, length-drop, drop-drop,
}
use ucxclient.UrcQueue.{
  UrcQueue, returns, get_unused_buf, has_space, store_entry, enqueue_begin, header_size,
}
use ucxclient.Prelude.Int.{◌+ℤ◌}
use ucxclient.UrcQueue.Entries.{
  Entry, Holds, Pending, idle, adding, encode_head, encode_all, pending_bytes,
}

-- The four stores of a new entry, on a buffer cut at the places that they write.
store_entry_parts :
    (front h1 h2 l z free line : Bytes)
    → length h1 ≡ 2
    → length h2 ≡ 2
    → length l ≡ length line
    → length z ≡ 1
    → length line < 2 ^ 16
    → store_entry (front ++ (h1 ++ (h2 ++ (l ++ (z ++ free))))) (length front) line
      ≡ front ++ (store16 (length line) ++ (store16 0 ++ (line ++ ((0 ∷ []) ++ free))))
unfolding store_entry
store_entry_parts front h1 h2 l z free line e1 e2 e3 e4 small =
    let n = length front in
    let step1 : write_at (front ++ (h1 ++ (h2 ++ (l ++ (z ++ free))))) (n + 4) line
        ≡ (front ++ (h1 ++ h2)) ++ (line ++ (z ++ free)) =
      write_at_lem _ _ (front ++ (h1 ++ h2)) l (z ++ free) line (simp append_assoc)
        (omega (arith, length-append front (h1 ++ h2), length-append h1 h2)) e3 in
    let step2 : write_at ((front ++ (h1 ++ h2)) ++ (line ++ (z ++ free))) (n + 4 + length line)
          (0 ∷ [])
        ≡ (front ++ (h1 ++ (h2 ++ line))) ++ ((0 ∷ []) ++ free) =
      write_at_lem _ _ (front ++ (h1 ++ (h2 ++ line))) z free (0 ∷ []) (simp append_assoc)
        (omega (
          arith,
          length-append front (h1 ++ (h2 ++ line)),
          length-append h1 (h2 ++ line),
          length-append h2 line,
        ))
        e4 in
    let step3 : write_at ((front ++ (h1 ++ (h2 ++ line))) ++ ((0 ∷ []) ++ free)) n
          (store16 (length line % 2 ^ 16))
        ≡ front ++ (store16 (length line % 2 ^ 16) ++ (h2 ++ (line ++ ((0 ∷ []) ++ free)))) =
      write_at_lem _ _ front h1 (h2 ++ (line ++ ((0 ∷ []) ++ free))) _ (simp append_assoc) refl
        e1 in
    let step4 : write_at
          (front ++ (store16 (length line % 2 ^ 16) ++ (h2 ++ (line ++ ((0 ∷ []) ++ free)))))
          (n + 2) (store16 0)
        ≡ (front ++ store16 (length line % 2 ^ 16)) ++ (store16 0 ++ (line ++ ((0 ∷ []) ++ free))) =
      write_at_lem _ _ (front ++ store16 (length line % 2 ^ 16)) h2 (line ++ ((0 ∷ []) ++ free)) _
        (simp append_assoc) (omega (arith, length-append front (store16 (length line % 2 ^ 16))))
        e2 in
    let exact : length line % 2 ^ 16 ≡ length line = omega arith in
    rw (store_entry, step1, step2, step3, step4, exact) (simp append_assoc)

length-store_entry :
    (buf : Bytes) (entry : ℕ) (line : Bytes) → length (store_entry buf entry line) ≡ length buf
unfolding store_entry
length-store_entry buf entry line =
    rw (length-write_at, length-write_at, length-write_at) (length-write_at buf (entry + 4) line)

length-take_le : (n : ℕ) (xs : Bytes) → n ≤ length xs → length (take n xs) ≡ n
length-take_le n xs h = omega (arith, length-take n xs)

-- A new entry behind `front`, on free space that is large enough.
store_entry_lem :
    (front free line : Bytes)
    → length line + 5 ≤ length free
    → length line < 2 ^ 16
    → store_entry (front ++ free) (length front) line
      ≡ front ++ (encode_head line 0 ++ drop (length line + 5) free)
store_entry_lem front free line room small =
    let r1 = drop 2 free in
    let r2 = drop 2 r1 in
    let r3 = drop (length line) r2 in
    let n1 : length r1 ≡ length free - 2 = length-drop 2 free in
    let n2 : length r2 ≡ length free - 4 = omega (arith, length-drop 2 r1, n1) in
    let n3 : length r3 ≡ length free - 4 - length line =
      omega (arith, length-drop (length line) r2, n2) in
    let cut : free
        ≡ take 2 free ++ (take 2 r1 ++ (take (length line) r2 ++ (take 1 r3 ++ drop 1 r3))) =
      rw (
        take-append-drop 1 r3,
        take-append-drop (length line) r2,
        take-append-drop 2 r1,
        take-append-drop 2 free,
      ) in
    let last : drop 1 r3 ≡ drop (length line + 5) free =
      ap (drop 1) (ap (drop (length line)) (drop-drop 2 2 free) ∙ drop-drop 4 (length line) free)
      ∙ drop-drop (4 + length line) 1 free
      ∙ ap (λ k. drop k free) (omega arith) in
    ap (λ b. store_entry (front ++ b) (length front) line) cut
    ∙ store_entry_parts front (take 2 free) (take 2 r1) (take (length line) r2) (take 1 r3)
        (drop 1 r3) line (length-take_le 2 free (omega arith)) (length-take_le 2 r1 (omega arith))
        (length-take_le _ r2 (omega arith)) (length-take_le 1 r3 (omega arith)) small
    ∙ rw last (simp append_assoc)

module _ {q : UrcQueue} {entries : List Entry} {pending : Pending} {taking : Bool} {free : Bytes}
    (h : Holds q entries pending taking free) where
  pub length_buffer :
      length q.buffer ≡ length (encode_all entries) + (length (pending_bytes pending) + length free)
  length_buffer =
      ap length h.layout
      ∙ length-append (encode_all entries) (pending_bytes pending ++ free)
      ∙ ap (λ n. length (encode_all entries) + n) (length-append (pending_bytes pending) free)

  pub get_unused_buf_lem : get_unused_buf q ≡ length free
  unfolding get_unused_buf
  get_unused_buf_lem = omega (arith, length_buffer, h.whole, h.small, h.used)

  pub has_space_lem : (n : ℕ) → n < 2 ^ 16 → has_space q n ≡ leb (n + 5) (length free)
  unfolding has_space ◌+ℤ◌
  has_space_lem n small = ground (arith, get_unused_buf_lem, length_buffer, h.whole, h.small)

  -- The lock is free and no entry is under way, so only the space decides.
  enqueue_begin_test :
      (line : Bytes)
      → pending ≡ idle
      → length line < 2 ^ 16
      → enqueue_begin q line ≡ (
          if leb (length line + 5) (length free)
          then returns true (record q {
            buffer = store_entry q.buffer q.buffer_pos line;
            buffer_pos = q.buffer_pos + (header_size + length line + 1);
            enqueue_entry = some q.buffer_pos;
            queue_mutex = true;
          })
          else returns false q)
  unfolding enqueue_begin
  enqueue_begin_test line e small =
      ground (arith, h.locked, h.at_entry, has_space_lem (length line) small)

pub length-encode_head : (line : Bytes) (n : ℕ) → length (encode_head line n) ≡ length line + 5
length-encode_head line n = omega (arith, length-append line (0 ∷ []))

-- `uCxAtUrcQueueEnqueueBegin` on a queue with no enqueueing under way and a line shorter than 64 KiB:
-- if the unused part of the buffer has room for the header, the line and its terminator, the call
-- succeeds and the queue holds the same entries with that line being added; otherwise it reports
-- failure and changes nothing.
pub enqueue_begin-Holds :
    {q : UrcQueue} {entries : List Entry} {taking : Bool} {free : Bytes} (line : Bytes)
    → Holds q entries idle taking free
    → length line < 2 ^ 16
    → ((length line + 5 ≤ length free)
        × (q' : UrcQueue) × (enqueue_begin q line ≡ returns true q')
        × Holds q' entries (adding line) taking (drop (length line + 5) free))
      ⊎ ((length free < length line + 5) × (enqueue_begin q line ≡ returns false q))
enqueue_begin-Holds {q} {entries} {taking} {free} line h small =
    elim (Bool-cases (leb (length line + 5) (length free))) [
      | inl room ↦
          let n : length line + 5 ≤ length free = ground arith in
          let place : q.buffer_pos ≡ length (encode_all entries) = omega (arith, h.used) in
          let stored : store_entry q.buffer q.buffer_pos line
              ≡ encode_all entries ++ (encode_head line 0 ++ drop (length line + 5) free) =
            rw (place, h.layout) (store_entry_lem (encode_all entries) free line n small) in
          inl (
            n,
            record q {
              buffer = store_entry q.buffer q.buffer_pos line;
              buffer_pos = q.buffer_pos + (header_size + length line + 1);
              enqueue_entry = some q.buffer_pos;
              queue_mutex = true;
            },
            ground (arith, enqueue_begin_test h line refl small),
            record {
              layout = stored;
              whole = h.whole ∙ sym (length-store_entry q.buffer q.buffer_pos line);
              small = h.small;
              used = omega (arith, place, length-append line (0 ∷ []));
              sizes = h.sizes;
              pending_size = small;
              locked = refl;
              at_entry = ap some place;
              taking_locked = h.taking_locked;
              taking_entry = h.taking_entry;
              taking_some = h.taking_some;
            },
          )
      | inr full ↦ inr (ground arith, ground (arith, enqueue_begin_test h line refl small))
    ]

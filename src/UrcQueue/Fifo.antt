-- ===== src/UrcQueue/Fifo.antt =====
-- The queue under any interleaving of calls by the receiving and the dequeueing threads: a step is one
-- call that returns (a call that waits or fails an assertion makes none).
use ucxclient.Prelude.{
  ℕ, ◌%◌, ◌^◌, length-take, take-append-drop, ◌≤◌, ◌<◌, ◌≡◌, refl, ap, sym, subst, ◌∙◌, inl, inr,
  Bool, true, false, Option, some, List, [], ◌∷◌, ◌++◌, append_assoc, append-nil, arith, Bytes,
  length, take, drop, write_at,
}
use mathlib.Core.Bool.{false≢true}
use ucxclient.UrcQueue.{
  UrcQueue, returns, init, enqueue_begin, enqueue_get_payload_ptr, enqueue_end, enqueue_abort,
  dequeue_begin, dequeue_end,
}
use ucxclient.UrcQueue.Entries.{
  Entry, Holds, Pending, idle, adding, encode_all, encode_all-append, Fits,
}
use ucxclient.UrcQueue.Enqueue.{enqueue_begin-Holds, get_unused_buf_lem}
use ucxclient.UrcQueue.Commit.{
  enqueue_get_payload_ptr_lem, write_payload-Holds, enqueue_end-Holds, enqueue_abort-Holds,
}
use ucxclient.UrcQueue.Dequeue.{
  ReadsAs, reads_encode, oldest-ReadsAs, dequeue_begin-Holds, dequeue_end-Holds,
}

-- One call: the state before it, the entries that it completes, those that it takes out, and the state
-- after it. The payload is stored by the client between the calls.
pub data Step (q : UrcQueue) : List Entry → List Entry → UrcQueue → Type 0 where
  begin_add :
      (line : Bytes) (done : Bool) {q' : UrcQueue}
      → length line < 2 ^ 16
      → enqueue_begin q line ≡ returns done q'
      → Step q [] [] q'
  store_payload :
      (room place : ℕ) (bytes : Bytes)
      → enqueue_get_payload_ptr q ≡ returns (room, place) q
      → length bytes ≤ room
      → Step q [] [] (record q { buffer = write_at q.buffer place bytes })
  end_add :
      (n entry : ℕ) (e : Entry) {q' : UrcQueue}
      → n < 2 ^ 16
      → q.enqueue_entry ≡ some entry
      → enqueue_end q n ≡ returns tt q'
      → ReadsAs q'.buffer entry e
      → Step q (e ∷ []) [] q'
  abort_add : {q' : UrcQueue} → enqueue_abort q ≡ returns tt q' → Step q [] [] q'
  begin_take : (o : Option ℕ) {q' : UrcQueue} → dequeue_begin q ≡ returns o q' → Step q [] [] q'
  end_take :
      (e : Entry) {q' : UrcQueue}
      → ReadsAs q.buffer 0 e
      → dequeue_end q 0 ≡ returns tt q'
      → Step q [] (e ∷ []) q'

-- Any number of calls, with the entries added and those taken out, in order.
pub data Run (q : UrcQueue) : List Entry → List Entry → UrcQueue → Type 0 where
  here : Run q [] [] q
  next :
      {added taken more_added more_taken : List Entry} {q' q'' : UrcQueue}
      → Run q added taken q'
      → Step q' more_added more_taken q''
      → Run q (added ++ more_added) (taken ++ more_taken) q''

-- What is known of a queue between two calls.
pub record State (q : UrcQueue) (entries : List Entry) : Type 0 where
  pub pending : Pending
  pub taking : Bool
  pub free : Bytes
  pub holds : Holds q entries pending taking free

ReadsAs-unique : {buf : Bytes} {k : ℕ} {e e' : Entry} → ReadsAs buf k e → ReadsAs buf k e' → e ≡ e'
ReadsAs-unique {e = e} {e' = e'} r r' =
    let lines : e.line ≡ e'.line = sym r.line_bytes ∙ r'.line_bytes in
    let payloads : e.payload ≡ e'.payload = sym r.payload_bytes ∙ r'.payload_bytes in
    λ i. record { line = lines i; payload = payloads i }

returns-eq {ℓ} : {A : Type ℓ} {a b : A} {q q' : UrcQueue} → returns a q ≡ returns b q' → q ≡ q'
returns-eq h = cc

-- What a step has to show: the state goes on, and the entries are the old ones less those taken out,
-- with those added behind them.
abbrev After : UrcQueue → List Entry → List Entry → List Entry → Type 0
After q' entries added taken =
    (entries' : List Entry) × State q' entries' × (entries ++ added ≡ taken ++ entries')

-- A step that leaves the entries alone.
same :
    {q : UrcQueue} {entries : List Entry} {pending : Pending} {taking : Bool} {free : Bytes}
    → Holds q entries pending taking free
    → After q entries [] []
same {entries = entries} h =
    (entries, record { pending = _; taking = _; free = _; holds = h }, append-nil entries)

moved :
    (entries added taken : List Entry) {q q' : UrcQueue}
    → q ≡ q'
    → After q entries added taken
    → After q' entries added taken
moved entries added taken e a = subst (λ s. After s entries added taken) e a

module _ {q : UrcQueue} {entries : List Entry} {free : Bytes} where
  begin_add-After :
      (pending : Pending) {taking : Bool}
      → Holds q entries pending taking free
      → (line : Bytes) (done : Bool) {q' : UrcQueue} → length line < 2 ^ 16
      → enqueue_begin q line ≡ returns done q'
      → After q' entries [] []
  begin_add-After idle h line done small p = elim (enqueue_begin-Holds line h small) [
    | inl (room, q1, e, h') ↦ moved entries [] [] (returns-eq (sym e ∙ p)) (same h')
    | inr (full, e) ↦ moved entries [] [] (returns-eq (sym e ∙ p)) (same h)
  ]
  begin_add-After (adding _) h line done small p =
      absurd (unfold enqueue_begin in ground (arith, h.locked))

  store_payload-After :
      (pending : Pending) {taking : Bool}
      → Holds q entries pending taking free
      → (room place : ℕ) (bytes : Bytes) → enqueue_get_payload_ptr q ≡ returns (room, place) q
      → length bytes ≤ room
      → After (record q { buffer = write_at q.buffer place bytes }) entries [] []
  store_payload-After idle h room place bytes p fits =
      absurd (unfold enqueue_get_payload_ptr in ground (arith, h.at_entry))
  store_payload-After (adding line) h room place bytes p fits =
      let known : room ≡ length free % 2 ^ 16 = ground (arith, enqueue_get_payload_ptr_lem h) in
      let at : q.buffer_pos ≡ place = ground (arith, enqueue_get_payload_ptr_lem h) in
      moved entries [] [] (ap (λ k. record q { buffer = write_at q.buffer k bytes }) at)
        (same (write_payload-Holds h bytes (omega arith)))

  abort_add-After :
      (pending : Pending) {taking : Bool}
      → Holds q entries pending taking free
      → {q' : UrcQueue} → enqueue_abort q ≡ returns tt q'
      → After q' entries [] []
  abort_add-After idle h p = absurd (unfold enqueue_abort in ground (arith, h.at_entry))
  abort_add-After (adding line) h p =
      let (q1, e, h') = enqueue_abort-Holds h in
      moved entries [] [] (returns-eq (sym e ∙ p)) (same h')

  end_add_fits :
      {line : Bytes} {taking : Bool}
      → Holds q entries (adding line) taking free
      → (n : ℕ) {q' : UrcQueue} → enqueue_end q n ≡ returns tt q'
      → n ≤ length free
  unfolding enqueue_end
  end_add_fits h n p = ground (arith, h.at_entry, get_unused_buf_lem h)

-- The entry that a completed enqueueing leaves behind the others is read back from there.
added-ReadsAs :
    {q : UrcQueue} (entries : List Entry) {free : Bytes} {taking : Bool} (e : Entry)
    → Holds q (entries ++ e ∷ []) idle taking free
    → Fits e
    → ReadsAs q.buffer (length (encode_all entries)) e
added-ReadsAs {q} entries {free} e h fits =
    reads_encode q.buffer (encode_all entries) free _ e
      (h.layout
        ∙ ap (λ b. b ++ free) (encode_all-append entries (e ∷ []))
        ∙ simp (append_assoc, append-nil))
      refl fits

take_idle :
    {q : UrcQueue} (entries : List Entry) {free : Bytes}
    → Holds q entries idle false free
    → (o : Option ℕ) {q' : UrcQueue} → dequeue_begin q ≡ returns o q'
    → After q' entries [] []
take_idle [] h o p = moved [] [] [] (returns-eq (sym (dequeue_begin-Holds [] h) ∙ p)) (same h)
take_idle (e ∷ rest) h o p =
    let (q1, e1, h', _) = dequeue_begin-Holds (e ∷ rest) h in
    moved (e ∷ rest) [] [] (returns-eq (sym e1 ∙ p)) (same h')

taken :
    {q : UrcQueue} (entries : List Entry) {free : Bytes}
    → Holds q entries idle true free
    → (e : Entry) {q' : UrcQueue} → ReadsAs q.buffer 0 e
    → dequeue_end q 0 ≡ returns tt q'
    → After q' entries [] (e ∷ [])
taken [] h e r p = absurd (omega (arith, h.taking_some refl))
taken (first ∷ rest) h e r p =
    let (q1, free', e1, h') = dequeue_end-Holds h in
    let oldest : first ≡ e = ReadsAs-unique (oldest-ReadsAs h) r in
    moved (first ∷ rest) [] (e ∷ []) (returns-eq (sym e1 ∙ p)) (
      rest,
      record { pending = idle; taking = false; free = free'; holds = h' },
      append-nil (first ∷ rest) ∙ ap (λ x. x ∷ rest) oldest,
    )

module _ {q : UrcQueue} {entries : List Entry} {free : Bytes} where
  end_add-After :
      (pending : Pending) {taking : Bool}
      → Holds q entries pending taking free
      → (n entry : ℕ) (e : Entry) {q' : UrcQueue} → n < 2 ^ 16
      → q.enqueue_entry ≡ some entry
      → enqueue_end q n ≡ returns tt q'
      → ReadsAs q'.buffer entry e
      → After q' entries (e ∷ []) []
  end_add-After idle h n entry e small at p r = absurd (ground (arith, h.at_entry))
  end_add-After (adding line) h n entry e {q'} small at p r =
      let payload = take n free in
      let added : Entry = record { line = line; payload = payload } in
      let size : length payload ≡ n = omega (arith, length-take n free, end_add_fits h n p) in
      let (q1, e1, h') =
        enqueue_end-Holds h payload (drop n free) (sym (take-append-drop n free))
          (omega (arith, size)) in
      let same_q : q1 ≡ q' = returns-eq (sym e1 ∙ (ap (enqueue_end q) size ∙ p)) in
      let place : length (encode_all entries) ≡ entry = ground (arith, h.at_entry) in
      let read = added-ReadsAs entries added h' (h.pending_size, omega (arith, size)) in
      let read' : ReadsAs q'.buffer entry added =
        subst (λ s. ReadsAs s.buffer entry added) same_q
          (subst (λ k. ReadsAs q1.buffer k added) place read) in
      moved entries (e ∷ []) [] same_q (
        entries ++ added ∷ [],
        record { pending = idle; taking = _; free = _; holds = h' },
        ap (λ x. entries ++ x ∷ []) (ReadsAs-unique r read'),
      )

  end_take-After :
      (pending : Pending) (taking : Bool)
      → Holds q entries pending taking free
      → (e : Entry) {q' : UrcQueue} → ReadsAs q.buffer 0 e
      → dequeue_end q 0 ≡ returns tt q'
      → After q' entries [] (e ∷ [])
  end_take-After pending false h e r p =
      absurd (unfold dequeue_end in ground (arith, h.taking_entry))
  end_take-After (adding line) true h e r p =
      absurd (unfold dequeue_end in ground (arith, h.taking_entry, h.locked))
  end_take-After idle true h e r p = taken entries h e r p

  begin_take-After :
      (pending : Pending) (taking : Bool)
      → Holds q entries pending taking free
      → (o : Option ℕ) {q' : UrcQueue} → dequeue_begin q ≡ returns o q'
      → After q' entries [] []
  begin_take-After pending true h o {q'} p =
      let same_q : q ≡ q' = unfold dequeue_begin in ground (arith, h.taking_locked) in
      moved entries [] [] same_q (same h)
  begin_take-After (adding line) false h o p =
      absurd (unfold dequeue_begin in ground (arith, h.taking_locked, h.taking_entry, h.locked))
  begin_take-After idle false h o p = take_idle entries h o p

-- Every call keeps the state well formed, and changes the entries as its log says.
Step-After :
    {q q' : UrcQueue} {entries added taken : List Entry}
    → State q entries
    → Step q added taken q'
    → After q' entries added taken
Step-After s (begin_add line done small p) = begin_add-After s.pending s.holds line done small p
Step-After s (store_payload room place bytes p fits) =
    store_payload-After s.pending s.holds room place bytes p fits
Step-After s (end_add n entry e small at p r) =
    end_add-After s.pending s.holds n entry e small at p r
Step-After s (abort_add p) = abort_add-After s.pending s.holds p
Step-After s (begin_take o p) = begin_take-After s.pending s.taking s.holds o p
Step-After s (end_take e r p) = end_take-After s.pending s.taking s.holds e r p

Run-After :
    {q q' : UrcQueue} {entries added taken : List Entry}
    → State q entries
    → Run q added taken q'
    → After q' entries added taken
Run-After s here = (_, s, append-nil _)
Run-After {entries = entries} s
      (next {added = added} {taken = taken} {more_added = more} {more_taken = out} r st) =
    let (mid, s', e) = Run-After s r in
    let (last, s'', e') = Step-After s' st in
    (
      last,
      s'',
      sym (append_assoc entries added more)
          ∙ ap (λ l. l ++ more) e
          ∙ append_assoc taken mid more
          ∙ ap (λ l. taken ++ l) e'
          ∙ sym (append_assoc taken out last),
    )

pub init-Holds :
    (buf : Bytes) → length buf < 2 ^ 31 → Holds (init buf (length buf)) [] idle false buf
unfolding init
init-Holds buf small = record {
  layout = refl;
  whole = refl;
  small = small;
  used = refl;
  sizes = tt;
  pending_size = tt;
  locked = refl;
  at_entry = refl;
  taking_locked = refl;
  taking_entry = refl;
  taking_some = λ t. absurd (false≢true t);
}

-- From `uCxAtUrcQueueInit` on, whatever calls are made and in whatever order they interleave, the
-- entries completed so far are those taken out, followed by those that the queue still holds: none is
-- lost, repeated, changed or overtaken, and the state stays well formed.
pub Run-fifo :
    (buf : Bytes) {added taken : List Entry} {q : UrcQueue}
    → length buf < 2 ^ 31
    → Run (init buf (length buf)) added taken q
    → (entries : List Entry) × State q entries × (added ≡ taken ++ entries)
Run-fifo buf small r =
    Run-After (record { pending = idle; taking = false; free = buf; holds = init-Holds buf small })
      r

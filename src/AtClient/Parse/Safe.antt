-- ===== src/AtClient/Parse/Safe.antt =====
-- parseLine on a client whose URC queue has no enqueueing under way: what it changes.
use ucxclient.Prelude.{
  ◌^◌, ◌<◌, ◌≢◌, refl, inl, inr, Bool, not, ◌&&◌, ◌||◌, Option, some, List, [], ◌∷◌, Bytes, length,
  drop, codes, ◌==◌, min, if_both, Bool-cases,
}
use ucxclient.Prelude.Int.{ℤ, pos, ◌-ℤ◌}
use ucxclient.UrcQueue.{UrcQueue}
use ucxclient.UrcQueue.Entries.{Entry, Holds, Pending, idle, adding}
use ucxclient.UrcQueue.Enqueue.{enqueue_begin-Holds}
use ucxclient.AtClient.State.{
  Client, ParserCode, nop, got_status, got_rsp, got_urc, start_binary, error, Exec, ran, ◌>>=◌,
}
use ucxclient.AtClient.Parse.{
  parse_response, parse_error, parse_urc, parse_line, empty_line, is_expected, expected_len,
  same_text, starts_with,
}
use ucxclient.Prelude.Decimal.{first, isdigit, scan_digits, long_max}

-- The queue's entries, and an enqueueing that may be under way.
pub record Queue (q : UrcQueue) (entries : List Entry) (pending : Pending) : Type 0 where
  pub taking : Bool
  pub free : Bytes
  pub holds : Holds q entries pending taking free

-- What a parsed line leaves pending in the queue.
abbrev pub left_pending : ParserCode → Bytes → Pending
left_pending got_urc line = adding line
left_pending code line = idle

-- A result that changes the response and the status only, and does not report a URC.
pub data ResponseOnly (c : Client) : ParserCode × Client → Type 0 where
  responded :
      (code : ParserCode) (params : Option Bytes) (s : ℤ)
      → code ≢ got_urc
      → ResponseOnly c (code, record c { rsp_params = params; status = s })

status-ne-urc : got_status ≢ got_urc
status-ne-urc e = cc

rsp-ne-urc : got_rsp ≢ got_urc
rsp-ne-urc e = cc

nop-ne-urc : nop ≢ got_urc
nop-ne-urc e = cc

parse_error-ResponseOnly : (c : Client) (s : Bytes) → ResponseOnly c (parse_error c s)
unfolding parse_error
parse_error-ResponseOnly c [] = responded _ _ _ status-ne-urc
parse_error-ResponseOnly c (d ∷ s) =
    if_both (ResponseOnly c) (d == b':' && (isdigit (first s) && first (scan_digits 0 s).1 == 0))
      (responded got_status c.rsp_params (pos 0 -ℤ pos (min (scan_digits 0 s).0 long_max))
        status-ne-urc)
      (responded nop c.rsp_params c.status nop-ne-urc)

pub parse_response-ResponseOnly :
    (c : Client) (line : Bytes) → ResponseOnly c (parse_response c line)
unfolding parse_response
parse_response-ResponseOnly c line =
    if_both (ResponseOnly c) (is_expected c.expected_rsp line)
      (responded got_rsp (some (drop (expected_len c.expected_rsp) line)) c.status rsp-ne-urc)
      (if_both (ResponseOnly c) (same_text line (codes "OK"))
        (responded got_status c.rsp_params (pos 0) status-ne-urc)
        (if_both (ResponseOnly c) (starts_with line (codes "ERROR"))
          (parse_error-ResponseOnly c (drop 5 line))
          (if_both (ResponseOnly c)
            (not (first line == b'+')
              && (not (first line == b'*') && not (starts_with line (codes "AT+"))))
            (responded got_rsp (some line) c.status rsp-ne-urc)
            (responded nop c.rsp_params c.status nop-ne-urc))))

-- A call that returns, with a result of which `P` holds: it neither waits nor fails an assertion.
pub data Returns {ℓ} {A : Type ℓ} (P : A → Type 0) : Exec A → Type ℓ where
  returned : (a : A) → P a → Returns P (ran a)

pub Returns->>= {ℓ κ} :
    {A : Type ℓ} {B : Type κ} {P : A → Type 0} {Q : B → Type 0} {m : Exec A} {f : A → Exec B}
    → Returns P m
    → ((a : A) → P a → Returns Q (f a))
    → Returns Q (m >>= f)
Returns->>= (returned a h) k = k a h

pub Returns-mono {ℓ} :
    {A : Type ℓ} {P Q : A → Type 0} {m : Exec A} → Returns P m → ((a : A) → P a → Q a) → Returns Q m
Returns-mono (returned a h) k = returned a (k a h)

-- What parsing a line leaves of a client: the response, the status and the queue may change; the
-- entries are the old ones, and exactly a reported URC is being added.
pub data Parsed (c : Client) (line : Bytes) (entries : List Entry)
    : ParserCode × Client → Type 0 where
  parsed :
      (code : ParserCode) (params : Option Bytes) (s : ℤ) (q : UrcQueue)
      → Queue q entries (left_pending code line)
      → Parsed c line entries (code, record c { rsp_params = params; status = s; urc_queue = q })

parse_urc-Parsed :
    (c : Client) (line : Bytes) (entries : List Entry)
    → Queue c.urc_queue entries idle
    → length line < 2 ^ 16
    → Returns (Parsed c line entries) (parse_urc c line)
unfolding parse_urc
parse_urc-Parsed c line entries q small =
    elim (Bool-cases (first line == b'+' || first line == b'*')) [
      | inr other ↦ rw other (returned _ (parsed nop c.rsp_params c.status c.urc_queue q))
      | inl is_urc ↦ rw is_urc (elim (enqueue_begin-Holds line q.holds small) [
        | inl (room, q', e, h) ↦ rw e (
            returned _ (
              parsed got_urc c.rsp_params c.status q' (record { taking = _; free = _; holds = h })))
        | inr (full, e) ↦ rw e (returned _ (parsed nop c.rsp_params c.status c.urc_queue q))
      ])
    ]

-- What is said of a client whose response and status were changed before.
Parsed-widen :
    {c : Client} {x : Option Bytes} {s : ℤ} {line : Bytes} {entries : List Entry}
    (r : ParserCode × Client)
    → Parsed (record c { rsp_params = x; status = s }) line entries r
    → Parsed c line entries r
Parsed-widen r (parsed code params t q h) = parsed code params t q h

-- A parsed response goes on to the queue only if it is none.
after_response-Parsed :
    {c : Client} (line : Bytes) (entries : List Entry) {r : ParserCode × Client}
    → Queue c.urc_queue entries idle
    → length line < 2 ^ 16
    → ResponseOnly c r
    → Returns
        (Parsed c line entries)
        (elim (r.0) [ nop ↦ parse_urc r.1 line | other ↦ ran (other, r.1) ])
after_response-Parsed {c} line entries q small (responded nop x s ne) =
    Returns-mono (parse_urc-Parsed (record c { rsp_params = x; status = s }) line entries q small)
      Parsed-widen
after_response-Parsed line entries q small (responded got_urc x s ne) = absurd (ne refl)
after_response-Parsed {c} line entries q small (responded got_status x s ne) =
    returned _ (parsed got_status x s c.urc_queue q)
after_response-Parsed {c} line entries q small (responded got_rsp x s ne) =
    returned _ (parsed got_rsp x s c.urc_queue q)
after_response-Parsed {c} line entries q small (responded start_binary x s ne) =
    returned _ (parsed start_binary x s c.urc_queue q)
after_response-Parsed {c} line entries q small (responded error x s ne) =
    returned _ (parsed error x s c.urc_queue q)

-- `parseLine`, on a queue with no enqueueing under way, returns on every line shorter than 64 KiB: it
-- neither waits for a mutex nor fails an assertion. It changes the response, the status and the queue
-- and nothing else of the client; the queue keeps its entries, and an enqueueing of this line is under
-- way afterwards exactly if a URC is reported.
pub parse_line-Parsed :
    (c : Client) (line : Bytes) (entries : List Entry)
    → Queue c.urc_queue entries idle
    → length line < 2 ^ 16
    → Returns (Parsed c line entries) (parse_line c line)
unfolding parse_line
parse_line-Parsed c line entries q small = elim (Bool-cases (empty_line line)) [
  | inl e ↦ rw (e, parse_line) (returned _ (parsed nop c.rsp_params c.status c.urc_queue q))
  | inr e ↦
      rw (e, parse_line)
        (if_both (Returns (Parsed c line entries)) c.executing_cmd
          (after_response-Parsed line entries q small (parse_response-ResponseOnly c line))
          (parse_urc-Parsed c line entries q small))
]

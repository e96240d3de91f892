-- ===== src/AtClient/Command/Wait.antt =====
-- A wait for the end of a command ends when the command times out, at the latest.
pub mod Finish
use ucxclient.Prelude.{
  ℕ, ◌+◌, ◌-◌, ◌≡◌, refl, ap, sym, ◌∙◌, ◌⊎◌, inl, inr, Bool, true, false, ◌&&◌, Bool-cases, Option,
  none, some, List, [], ◌∷◌, ◌++◌, arith, ◌==◌, ltb, if◌then◌else◌, if_true, if_false,
}
use mathlib.Core.Bool.{false≢true}
use ucxclient.Prelude.Int.{ℤ, ltb_ℤ, ◌-ℤ◌, pos_part, neg_part}
use ucxclient.UrcQueue.Entries.{Entry}
use ucxclient.AtClient.State.{Client, ParserCode, Exec, ran, ◌>>=◌, error_cmd_timeout}
use ucxclient.AtClient.Uart.{Event}
use ucxclient.AtClient.Parse.Safe.{Returns, returned, Returns->>=, Returns-mono}
use ucxclient.AtClient.Rx.{handle_rx_data}
use ucxclient.AtClient.Rx.Char.{RxFits, TextMode, Grown, grown, unchanged, regrow, Ends}
use ucxclient.AtClient.Rx.Binary.{DataMode}
use ucxclient.AtClient.Rx.Receive.{HeaderMode, Mode, text, header, data_part}
use ucxclient.AtClient.Rx.Safe.{handle_rx_data-Mode}
use ucxclient.AtClient.Rx.Frame.{Frame, frame, Leaves, middle}
use ucxclient.AtClient.Rx.Frame.Path.{handle_rx_data-Leaves}
use ucxclient.AtClient.Command.{is_pending, is_late, cmd_wait}

-- One of the readings is past the timeout.
abbrev pub Late : ℤ → ℤ → List ℤ → Type 0
Late start timeout [] = ⊥
Late start timeout (now ∷ clock) = (ltb_ℤ timeout (now -ℤ start) ≡ true) ⊎ Late start timeout clock

-- A wait that has ended: with a status, and the client in a mode of the receive path.
pub data Waited (k : Frame) (entries : List Entry) : Option (Client × List Event) → Type 0 where
  waited :
      (c : Client) (rest : List Event)
      → Grown entries Mode c
      → is_pending c ≡ false
      → frame c ≡ k
      → Waited k entries (some (c, rest))

fits_of : {c : Client} {s : ℤ} → RxFits c → RxFits (record c { status = s })
fits_of f = record { within = f.within; size = f.size; small = f.small }

with_status :
    {c : Client} {entries : List Entry} (s : ℤ)
    → Mode c entries
    → Mode (record c { status = s }) entries
with_status s (text t) = text (record {
  fits = fits_of t.fits;
  no_binary = t.no_binary;
  no_header = t.no_header;
  queue = t.queue;
})
with_status s (header h) =
    header
      (record { fits = fits_of h.fits; binary = h.binary; headless = h.headless; queue = h.queue })
with_status s (data_part d) =
    data_part
      (record { fits = fits_of d.fits; binary = d.binary; headed = d.headed; carries = d.carries })

after_timeout :
    {c : Client} {entries : List Entry} (s : ℤ)
    → Grown entries Mode c
    → Grown entries Mode (record c { status = s })
after_timeout s (grown added m) = grown added (with_status s m)

-- What is known of a call that returns.
pub Returns-both {ℓ} :
    {A : Type ℓ} {P : A → Type 0} (view : A → Client) {k : Frame} {m : Exec A}
    → Returns P m
    → Leaves view k m
    → Returns (λ a. P a × (frame (view a) ≡ k)) m
Returns-both view (returned a h) l = returned a (h, l)

widen_wait :
    {k : Frame} {entries : List Entry} (added : List Entry) (r : Option (Client × List Event))
    → Waited k (entries ++ added) r
    → Waited k entries r
widen_wait added r (waited c rest g p e) = waited c rest (regrow added g) p e

same_frame :
    {k k' : Frame} {entries : List Entry} (r : Option (Client × List Event))
    → k ≡ k'
    → Waited k entries r
    → Waited k' entries r
same_frame r e (waited c rest g p f) = waited c rest g p (f ∙ e)

after_read :
    (clock : List ℤ) (now : ℤ) (k : Frame) (entries : List Entry)
    → ((c : Client) (entries' : List Entry) (events : List Event)
        → Mode c entries'
        → Late c.cmd_start_time c.cmd_timeout clock
        → Returns (Waited (frame c) entries') (cmd_wait clock c events))
    → Late k.cmd_start_time k.cmd_timeout (now ∷ clock)
    → (r : ParserCode × Client × List Event) → Ends entries Mode r
    → frame r.1 ≡ k
    → Returns (Waited k entries) (
        if is_late r.1 now
        then ran (some (record (r.1) { status = error_cmd_timeout }, r.2))
        else cmd_wait clock r.1 r.2)
after_read clock now k entries loop late (code, c, rest) (grown added m) e =
    let starts = ap (λ (f : Frame). f.cmd_start_time) e in
    let limits = ap (λ (f : Frame). f.cmd_timeout) e in
    let same_late : is_late c now ≡ ltb_ℤ k.cmd_timeout (now -ℤ k.cmd_start_time) =
      rw (starts, limits) refl in
    elim (Bool-cases (is_late c now)) [
      | inl l ↦
          if_true (Returns (Waited k entries)) _ l
            (returned _ (waited _ rest (after_timeout error_cmd_timeout (grown added m)) refl e))
      | inr l ↦ if_false (Returns (Waited k entries)) _ l (elim late [
        | inl past ↦ absurd (false≢true (sym l ∙ same_late ∙ past))
        | inr later ↦
            Returns-mono (loop c (entries ++ added) rest m (rw (starts, limits) later))
              (λ r w. same_frame r e (widen_wait added r w))
      ])
    ]

-- The loop of `cmdEnd`, from any mode of the receive path and whatever arrives, ends if one of the
-- clock's readings is past the command's timeout: it returns, with a status, in a mode of the receive
-- path again, with the queue's entries kept, and with the command's state as it was.
pub cmd_wait_ends :
    (clock : List ℤ) (c : Client) (entries : List Entry) (events : List Event)
    → Mode c entries
    → Late c.cmd_start_time c.cmd_timeout clock
    → Returns (Waited (frame c) entries) (cmd_wait clock c events)
unfolding cmd_wait
cmd_wait_ends [] c entries events m late = absurd late
cmd_wait_ends (now ∷ clock) c entries events m late = elim (Bool-cases (is_pending c)) [
  | inl p ↦ if_true (Returns (Waited (frame c) entries)) _ p (
      Returns->>=
        (Returns-both middle (handle_rx_data-Mode c entries events m)
          (handle_rx_data-Leaves c events))
        (λ r h.
          after_read clock now (frame c) entries
            (λ c' en ev m' l. cmd_wait_ends clock c' en ev m' l) late r h.0 h.1))
  | inr n ↦
      if_false (Returns (Waited (frame c) entries)) _ n
        (returned (some (c, events)) (waited c events (unchanged m) n refl))
]

-- ===== src/Xmodem/Accepted.antt =====
-- What a receiver takes of the tries to send a block.
use ucxclient.Prelude.{
  ℕ, zero, suc, ◌≡◌, refl, ap, sym, ◌∙◌, Option, none, some, List, [], ◌∷◌, ◌++◌, append_assoc,
  append-nil, Bytes, if◌then◌else◌, if_both,
}
use ucxclient.Prelude.Int.{ℤ, pos, negsuc}
use ucxclient.Xmodem.{
  Answer, acked, naked, cancelled, no_reply, Line, fails, next_write, wait_for_ack, send_tries,
}
use ucxclient.Xmodem.Packet.{receive}

-- What a receiver has taken: the blocks of the packets that it acknowledged.
abbrev pub taken : Answer → Option (ℕ × Bytes) → List (ℕ × Bytes)
taken acked (some block) = block ∷ []
taken acked none = []
taken answer block = []

abbrev pub accepted : ℕ → List (Bytes × Answer) → List (ℕ × Bytes)
accepted size [] = []
accepted size ((bytes, answer) ∷ sent) = taken answer (receive size bytes) ++ accepted size sent

accepted-append :
    (size : ℕ) (xs ys : List (Bytes × Answer))
    → accepted size (xs ++ ys) ≡ accepted size xs ++ accepted size ys
accepted-append size [] ys = refl
accepted-append size ((bytes, answer) ∷ xs) ys =
    ap (λ l. taken answer (receive size bytes) ++ l) (accepted-append size xs ys)
    ∙ sym (append_assoc (taken answer (receive size bytes)) (accepted size xs) (accepted size ys))

-- One block, sent or not.
abbrev pub outcome : ℕ → Bytes → ℤ → List (ℕ × Bytes)
outcome size bytes result = if fails result then [] else taken acked (receive size bytes)

-- What a call of send_tries makes of the accepted blocks.
abbrev pub Sends : ℕ → Bytes → Line → ℤ × Line → Type 0
Sends size bytes line (result, line') =
    accepted size line'.sent ≡ accepted size line.sent ++ outcome size bytes result

after_answer :
    (size : ℕ) (bytes : Bytes) (line : Line) (answer : Answer) (again : ℤ × Line) (after : Line)
    → after.sent ≡ line.sent ++ (bytes, answer) ∷ []
    → Sends size bytes after again
    → Sends size bytes line (elim answer [
      | acked ↦ (pos 0, after)
      | naked ↦ again
      | cancelled ↦ (negsuc 2, after)
      | no_reply ↦ again
    ])
after_answer size bytes line acked again after e r =
    ap (accepted size) e
    ∙ accepted-append size line.sent ((bytes, acked) ∷ [])
    ∙ ap (λ l. accepted size line.sent ++ l) (append-nil (taken acked (receive size bytes)))
after_answer size bytes line naked (result, line') after e r =
    r
    ∙ ap (λ l. l ++ outcome size bytes result)
        (ap (accepted size) e
          ∙ accepted-append size line.sent ((bytes, naked) ∷ [])
          ∙ append-nil (accepted size line.sent))
after_answer size bytes line cancelled again after e r =
    ap (accepted size) e ∙ accepted-append size line.sent ((bytes, cancelled) ∷ [])
after_answer size bytes line no_reply (result, line') after e r =
    r
    ∙ ap (λ l. l ++ outcome size bytes result)
        (ap (accepted size) e
          ∙ accepted-append size line.sent ((bytes, no_reply) ∷ [])
          ∙ append-nil (accepted size line.sent))

pub send_tries-Sends :
    (tries : ℕ) (size : ℕ) (bytes : Bytes) (line : Line)
    → Sends size bytes line (send_tries tries bytes line)
unfolding send_tries
send_tries-Sends zero size bytes line = sym (append-nil (accepted size line.sent))
send_tries-Sends (suc tries) size bytes line =
    let write = next_write line.writes in
    let wait = wait_for_ack line.replies in
    let after : Line = record {
      replies = wait.1;
      writes = write.1;
      sent = line.sent ++ (bytes, wait.0) ∷ [];
    } in
    if_both (Sends size bytes line) write.0
      (after_answer size bytes line wait.0 (send_tries tries bytes after) after refl
        (send_tries-Sends tries size bytes after))
      (send_tries-Sends tries size bytes (record line { writes = write.1 }))

-- ===== src/Xmodem/Acknowledged.antt =====
-- Replies that acknowledge blocks within their tries.
use ucxclient.Prelude.{ℕ, suc, ◌≡◌, refl, List, [], ◌∷◌, ◌++◌, arith, Bytes, subst}
use ucxclient.Prelude.Int.{ℤ, pos}
use ucxclient.Xmodem.{
  Reply, Answer, Line, acked, naked, no_reply, wait_for_ack, send_tries, send_block, packet,
}

-- The replies acknowledge a block within some tries, and leave the others.
pub data Acked : ℕ → List Reply → List Reply → Type 0 where
  at_once :
      {tries : ℕ} {replies rest : List Reply}
      → wait_for_ack replies ≡ (acked, rest)
      → Acked (suc tries) replies rest
  refused :
      {tries : ℕ} {replies others rest : List Reply}
      → wait_for_ack replies ≡ (naked, others)
      → Acked tries others rest
      → Acked (suc tries) replies rest
  unanswered :
      {tries : ℕ} {replies others rest : List Reply}
      → wait_for_ack replies ≡ (no_reply, others)
      → Acked tries others rest
      → Acked (suc tries) replies rest

-- They acknowledge so many blocks, each at its third try at the latest.
pub data AllAcked : ℕ → List Reply → List Reply → Type 0 where
  done : {replies : List Reply} → AllAcked 0 replies replies
  next :
      {n : ℕ} {replies others rest : List Reply}
      → Acked 3 replies others
      → AllAcked n others rest
      → AllAcked (suc n) replies rest

-- A line on which every write succeeds.
abbrev pub good_line : List Reply → List (Bytes × Answer) → Line
good_line replies sent = record { replies = replies; writes = []; sent = sent }

abbrev pub Ends : List Reply → ℤ × Line → Type 0
Ends rest r = (sent : List (Bytes × Answer)) × (r ≡ (pos 0, good_line rest sent))

send_tries-Acked :
    {tries : ℕ} {replies rest : List Reply} (bytes : Bytes) (sent : List (Bytes × Answer))
    → Acked tries replies rest
    → Ends rest (send_tries tries bytes (good_line replies sent))
unfolding send_tries
send_tries-Acked bytes sent (at_once e) = (sent ++ (bytes, acked) ∷ [], ground (arith, e))
send_tries-Acked bytes sent (refused {tries} {others = others} e a) =
    let (sent', e') = send_tries-Acked bytes (sent ++ (bytes, naked) ∷ []) a in
    (sent', ground (arith, e, e'))
send_tries-Acked bytes sent (unanswered {tries} {others = others} e a) =
    let (sent', e') = send_tries-Acked bytes (sent ++ (bytes, no_reply) ∷ []) a in
    (sent', ground (arith, e, e'))

pub send_block-Acked :
    (block_num size : ℕ) (bytes : Bytes) {replies rest : List Reply} (sent : List (Bytes × Answer))
    → Acked 3 replies rest
    → Ends rest (send_block block_num bytes size (good_line replies sent))
unfolding send_block
send_block-Acked block_num size bytes sent a = send_tries-Acked (packet block_num bytes size) sent a

pub nfirst_block :
    {n : ℕ} {replies rest : List Reply} → AllAcked n replies rest → n ≡ 0 → replies ≡ rest
nfirst_block done e = refl
nfirst_block (next a acks) e = absurd (omega (arith, e))

pub first_block :
    {n m : ℕ} {replies rest : List Reply}
    → AllAcked n replies rest
    → n ≡ suc m
    → (others : List Reply) × Acked 3 replies others × AllAcked m others rest
first_block done e = absurd (omega (arith, e))
first_block (next {others = others} {rest = rest} a acks) e =
    (others, a, subst (λ k. AllAcked k others rest) (omega (arith, e)) acks)

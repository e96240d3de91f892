-- ===== src/Xmodem/Delivered.antt =====
-- A transfer to a receiver that acknowledges succeeds.
use ucxclient.Prelude.{
  ℕ, zero, suc, ◌+◌, ◌%◌, ◌<◌, ◌≤◌, ◌≡◌, refl, ap, sym, ◌∙◌, inl, inr, Bool-cases, true, false,
  Option, some, List, [], ◌∷◌, ◌++◌, arith, Bytes, length, drop, ltb, if_false, length-drop, subst,
}
use ucxclient.Prelude.Int.{ℤ, pos}
use ucxclient.Xmodem.{
  Reply, Answer, Line, wait_for_start, wait_for_eot_ack, send_block, send_loop, send_eot,
  finish_transfer, xmodem_send, XmodemConfig,
}
use ucxclient.Xmodem.Accepted.{accepted}
use ucxclient.Xmodem.Acknowledged.{AllAcked, good_line, send_block-Acked, nfirst_block, first_block}
use ucxclient.Xmodem.Blocks.{
  blocks, blocks-next, blocks-end, ReadsFile, request_len, next_chunk, next_chunk_lem,
}
use ucxclient.Xmodem.Transfer.{transferred, block_size_of, Transferred, xmodem_send-Transferred}

nonempty : (s : Bytes) → 0 < length s → (b : ℕ) × (more : Bytes) × (s ≡ b ∷ more)
nonempty [] any = absurd (omega (arith, any))
nonempty (b ∷ more) any = (b, more, refl)

-- A result is 0.
abbrev LoopEnds : List Reply → Option (ℤ × Line × List ℕ) → Type 0
LoopEnds rest r =
    (sent : List (Bytes × Answer)) × (offsets : List ℕ) × (r
      ≡ some (pos 0, good_line rest sent, offsets))

module _ (file : Bytes) (get : ℕ → ℕ → Option Bytes) (reads : ReadsFile file get) (size : ℕ)
    (positive : 0 < size) where
  ends :
      (fuel block_num offset : ℕ) (line : Line)
      → ltb offset (length file) ≡ false
      → send_loop fuel get (length file) size block_num offset line ≡ some (pos 0, line, [])
  unfolding send_loop
  ends zero block_num offset line stops = ground (arith, stops)
  ends (suc fuel) block_num offset line stops =
      if_false (λ r. r ≡ some (pos 0, line, [])) _ stops refl

  send_loop-round :
      (fuel block_num offset b : ℕ) (more : Bytes) (line line' line'' : Line) (offsets : List ℕ)
      → ltb offset (length file) ≡ true
      → get offset (request_len file size offset) ≡ some (b ∷ more)
      → send_block block_num (b ∷ more) size line ≡ (pos 0, line')
      → send_loop fuel get
          (length file)
          size
          ((block_num + 1) % 256)
          (offset + length (b ∷ more))
          line'
        ≡ some (pos 0, line'', offsets)
      → send_loop (suc fuel) get (length file) size block_num offset line
        ≡ some (pos 0, line'', (offset + length (b ∷ more)) ∷ offsets)
  unfolding send_loop
  send_loop-round fuel block_num offset b more line line' line'' offsets left gives sends rest =
      rw (left, send_loop)
        (rw (gives, send_loop) (rw (sends, send_loop) (rw (rest, send_loop) refl)))

  -- At the end of the file.
  loop_over :
      (fuel block_num offset : ℕ) {replies rest : List Reply} (sent : List (Bytes × Answer))
      → length file ≤ offset
      → offset ≤ length file
      → AllAcked (length (blocks fuel size block_num (drop offset file))) replies rest
      → LoopEnds rest
          (send_loop fuel get (length file) size block_num offset (good_line replies sent))
  loop_over fuel block_num offset {replies} {rest} sent past inside acks =
      let none_left : length (drop offset file) ≡ 0 =
        omega (arith, length-drop offset file, past) in
      let stops : ltb offset (length file) ≡ false = ground (arith, past) in
      let same : replies ≡ rest =
        nfirst_block acks
          (ap length (blocks-end fuel size block_num (drop offset file) none_left)) in
      (
        sent,
        [],
        ends fuel block_num offset (good_line replies sent) stops
            ∙ ap (λ r. some (pos 0, good_line r sent, [])) same,
      )

  send_loop-AllAcked :
      (fuel block_num offset : ℕ) (replies rest : List Reply) (sent : List (Bytes × Answer))
      → length file ≤ offset + fuel
      → offset ≤ length file
      → AllAcked (length (blocks fuel size block_num (drop offset file))) replies rest
      → LoopEnds rest
          (send_loop fuel get (length file) size block_num offset (good_line replies sent))
  send_loop-AllAcked zero block_num offset replies rest sent enough inside acks =
      loop_over zero block_num offset sent (omega (arith, enough)) inside acks
  send_loop-AllAcked (suc fuel) block_num offset replies rest sent enough inside acks =
      elim (Bool-cases (ltb offset (length file))) [
        | inr at_end ↦
            loop_over (suc fuel) block_num offset sent (ground (arith, at_end)) inside acks
        | inl left ↦
            let more : offset < length file = ground (arith, left) in
            let s = drop offset file in
            let next_num = (block_num + 1) % 256 in
            let (is_block, behind, any, fits, within) =
              next_chunk_lem file size offset positive more in
            let (b, tail, e) = nonempty (next_chunk file size offset) any in
            let offset' = offset + length (b ∷ tail) in
            let behind' : drop offset' file ≡ drop size s =
              ap (λ c. drop (offset + length c) file) (sym e) ∙ behind in
            let n : length (blocks (suc fuel) size block_num s)
                ≡ suc (length (blocks fuel size next_num (drop offset' file))) =
              ap length
                (blocks-next fuel size block_num s (omega (arith, more, length-drop offset file)))
              ∙ ap (λ t. suc (length (blocks fuel size next_num t))) (sym behind') in
            let (others, a, acks') = first_block acks n in
            let (sent', sends) = send_block-Acked block_num size (b ∷ tail) sent a in
            let (sent'', offsets, loop) =
              send_loop-AllAcked fuel next_num offset' others rest sent' (omega (arith, enough))
                (omega (arith, ap length e, within)) acks' in
            (
              sent'',
              _,
              send_loop-round fuel block_num offset b tail _ _ _ offsets left
                  (reads offset (request_len file size offset) more ∙ ap some e) sends loop,
            )
      ]

send_eot-good_line :
    (replies rest : List Reply) (sent : List (Bytes × Answer))
    → wait_for_eot_ack replies ≡ (pos 0, rest)
    → send_eot (good_line replies sent) ≡ (pos 0, good_line rest sent)
unfolding send_eot
send_eot-good_line replies rest sent e = ap (λ (r : ℤ × List Reply). (r.0, good_line r.1 sent)) e

delivered :
    {size : ℕ} {line line' : Line} {expected : List (ℕ × Bytes)} {offsets : List ℕ}
    → Transferred size line expected (some (pos 0, line', offsets))
    → accepted size line'.sent ≡ accepted size line.sent ++ expected
delivered (transferred result line'' offsets t) = t refl

sends_all :
    (config : XmodemConfig) (file : Bytes) (get : ℕ → ℕ → Option Bytes) (replies : List Reply)
    {started acked_all rest : List Reply} (sent : List (Bytes × Answer))
    → config.opened ≡ true
    → 0 < length file
    → ReadsFile file get
    → wait_for_start replies ≡ (pos 0, started)
    → AllAcked (length (blocks (length file) (block_size_of config) 1 file)) started acked_all
    → wait_for_eot_ack acked_all ≡ (pos 0, rest)
    → LoopEnds rest (xmodem_send config (length file) get (good_line replies sent))
unfolding xmodem_send finish_transfer
sends_all config file get replies {started} {acked_all} {rest} sent opened any reads starts acks
      eot_acked =
    let (sent', offsets, loop) =
      send_loop-AllAcked file get reads (block_size_of config) (ground arith) (length file) 1 0
        started acked_all sent (omega arith) (omega arith) acks in
    let eot = send_eot-good_line acked_all rest sent' eot_acked in
    (sent', offsets, ground (arith, opened, any, starts, loop, eot))

-- A transfer on an open line on which every write succeeds, of a file that is not empty, by a callback
-- that reads it, with the other side starting the transfer, acknowledging each of the file's blocks by
-- its third try, and acknowledging the end: `uCxXmodemSend` gives 0, and such a receiver has then taken
-- the whole file. Refusals, and times without an answer, may come before each acknowledgement.
pub xmodem_send_delivers :
    (config : XmodemConfig) (file : Bytes) (get : ℕ → ℕ → Option Bytes) (replies : List Reply)
    {started acked_all rest : List Reply} (sent : List (Bytes × Answer))
    → config.opened ≡ true
    → 0 < length file
    → ReadsFile file get
    → wait_for_start replies ≡ (pos 0, started)
    → AllAcked (length (blocks (length file) (block_size_of config) 1 file)) started acked_all
    → wait_for_eot_ack acked_all ≡ (pos 0, rest)
    → (sent' : List (Bytes × Answer)) × (offsets : List ℕ) × (xmodem_send config
          (length file)
          get
          (good_line replies sent)
        ≡ some (pos 0, good_line rest sent', offsets))
      × (accepted (block_size_of config) sent'
          ≡ accepted (block_size_of config) sent
            ++ blocks (length file) (block_size_of config) 1 file)
xmodem_send_delivers config file get replies {rest = rest} sent opened any reads starts acks
      eot_acked =
    let (sent', offsets, e) =
      sends_all config file get replies sent opened any reads starts acks eot_acked in
    let size = block_size_of config in
    let expected = blocks (length file) size 1 file in
    let start = good_line replies sent in
    (
      sent',
      offsets,
      e,
      delivered (
          subst (Transferred size start expected) e
            (xmodem_send-Transferred config file get start reads)),
    )

-- ===== src/Xmodem/Transfer.antt =====
-- A transfer that succeeds has delivered the file.
use ucxclient.Prelude.{
  ℕ, zero, suc, ◌+◌, ◌-◌, ◌%◌, ◌<◌, ◌≤◌, ◌≡◌, refl, ap, sym, ◌∙◌, inl, inr, Bool-cases, true, false,
  not, ◌||◌, Option, none, some, List, [], ◌∷◌, ◌++◌, append_assoc, append-nil, arith, Bytes,
  length, length-drop, drop, subst, replicate, ltb, ◌==◌, if◌then◌else◌, if_both, if_true, if_false,
}
use mathlib.Core.Bool.{false≢true}
use ucxclient.Prelude.Int.{ℤ, pos, negsuc}
use ucxclient.Xmodem.{
  acked, Line, fails, packet, next_write, send_tries, send_block, send_loop, finish_transfer,
  send_eot, wait_for_start, xmodem_send, XmodemConfig,
}
use ucxclient.Xmodem.Blocks.{
  blocks, blocks-next, blocks-end, ReadsFile, request_len, next_chunk, next_chunk_lem,
}
use ucxclient.Xmodem.Packet.{receive-packet}
use ucxclient.Xmodem.Accepted.{taken, accepted, send_tries-Sends}

-- A call of send_loop has sent what was expected, if its result is 0.
pub data Transferred (size : ℕ) (line : Line) (expected : List (ℕ × Bytes))
    : Option (ℤ × Line × List ℕ) → Type 0 where
  transferred :
      (result : ℤ) (line' : Line) (offsets : List ℕ)
      → (fails result ≡ false → accepted size line'.sent ≡ accepted size line.sent ++ expected)
      → Transferred size line expected (some (result, line', offsets))

-- A block that was taken comes before what the rest of the loop sends.
then_rest :
    (size k : ℕ) (line line' : Line) (block : ℕ × Bytes) (expected : List (ℕ × Bytes))
    {r : Option (ℤ × Line × List ℕ)}
    → accepted size line'.sent ≡ accepted size line.sent ++ block ∷ []
    → Transferred size line' expected r
    → Transferred size line
        (block ∷ expected)
        (elim r [ none ↦ none | some (end, line'', offsets) ↦ some (end, line'', k ∷ offsets) ])
then_rest size k line line' block expected e (transferred result line'' offsets t) =
    transferred result line'' (k ∷ offsets) (λ ok.
      t ok
      ∙ ap (λ l. l ++ expected) e
      ∙ append_assoc (accepted size line.sent) (block ∷ []) expected)

-- What is expected may be written differently.
same_blocks :
    {size : ℕ} {line : Line} {expected expected' : List (ℕ × Bytes)}
    {r : Option (ℤ × Line × List ℕ)}
    → expected ≡ expected'
    → Transferred size line expected r
    → Transferred size line expected' r
same_blocks {size} {line} {r = r} e t = subst (λ x. Transferred size line x r) e t

module _ (file : Bytes) (get : ℕ → ℕ → Option Bytes) (reads : ReadsFile file get) (size : ℕ)
    (positive : 0 < size) where
  -- One round with a chunk that is there.
  send_round :
      (block_num k : ℕ) (chunk : Bytes) (line : Line) (expected : List (ℕ × Bytes))
      (rest : Option (ℤ × Line × List ℕ))
      → block_num < 256
      → length chunk ≤ size
      → Transferred size (send_block block_num chunk size line).1 expected rest
      → Transferred size line
          ((block_num, chunk ++ replicate (size - length chunk) 0x1A) ∷ expected)
          (let (result, line') = send_block block_num chunk size line in
            if fails result then some (result, line', []) else elim rest [
              | none ↦ none
              | some (end, line'', offsets) ↦ some (end, line'', k ∷ offsets)
            ])
  unfolding send_block
  send_round block_num k chunk line expected rest small fits t =
      let block : ℕ × Bytes = (block_num, chunk ++ replicate (size - length chunk) 0x1A) in
      let r = send_tries 3 (packet block_num chunk size) line in
      let sends = send_tries-Sends 3 size (packet block_num chunk size) line in
      elim (Bool-cases (fails r.0)) [
        | inl failed ↦
            if_true (Transferred size line (block ∷ expected)) _ failed
              (transferred r.0 r.1 [] (λ ok. absurd (false≢true (sym ok ∙ failed))))
        | inr fine ↦ if_false (Transferred size line (block ∷ expected)) _ fine (
            then_rest size k line r.1 block expected
              (sends
                ∙ ap (λ l. accepted size line.sent ++ l)
                    (if_false (λ l. l ≡ block ∷ []) [] fine
                      (ap (taken acked) (receive-packet block_num chunk size small fits))))
              t)
      ]

  -- A chunk that the callback gives.
  send_chunk :
      (fuel block_num offset : ℕ) (chunk : Bytes) (line : Line) (expected : List (ℕ × Bytes))
      → block_num < 256
      → length chunk ≤ size
      → 0 < length chunk
      → ((line' : Line)
          → Transferred size line' expected (
              send_loop fuel get
                (length file)
                size
                ((block_num + 1) % 256)
                (offset + length chunk)
                line'))
      → Transferred size line
          ((block_num, chunk ++ replicate (size - length chunk) 0x1A) ∷ expected)
          (elim (some chunk) [
            | none ↦ some (negsuc 3, line, [])
            | some [] ↦ some (negsuc 3, line, [])
            | some (b ∷ more) ↦
                (let (result, line') = send_block block_num (b ∷ more) size line in
                  let n = length (b ∷ more) in
                  let rest =
                    send_loop fuel get
                      (length file)
                      size
                      ((block_num + 1) % 256)
                      (offset + n)
                      line' in
                  if fails result then some (result, line', []) else elim rest [
                    | none ↦ none
                    | some (end, line'', offsets) ↦ some (end, line'', (offset + n) ∷ offsets)
                  ])
          ])
  send_chunk fuel block_num offset [] line expected small fits any loop =
      absurd (omega (arith, any))
  send_chunk fuel block_num offset (b ∷ more) line expected small fits any loop =
      send_round block_num (offset + length (b ∷ more)) (b ∷ more) line expected _ small fits
        (loop _)

  all_sent :
      (fuel block_num : ℕ) (s : Bytes) (line : Line)
      → length s ≡ 0
      → Transferred size line (blocks fuel size block_num s) (some (pos 0, line, []))
  all_sent fuel block_num s line none_left =
      rw (blocks-end fuel size block_num s none_left)
        (transferred (pos 0) line [] (λ ok. sym (append-nil (accepted size line.sent))))

  pub send_loop-Transferred :
      (fuel block_num offset : ℕ) (line : Line)
      → block_num < 256
      → length file ≤ offset + fuel
      → offset ≤ length file
      → Transferred size line
          (blocks fuel size block_num (drop offset file))
          (send_loop fuel get (length file) size block_num offset line)
  unfolding send_loop
  send_loop-Transferred zero block_num offset line small enough inside =
      let at_end : ltb offset (length file) ≡ false = ground (arith, enough) in
      if_false (Transferred size line (blocks 0 size block_num (drop offset file))) none at_end (
        all_sent 0 block_num (drop offset file) line
          (omega (arith, enough, length-drop offset file)))
  send_loop-Transferred (suc fuel) block_num offset line small enough inside =
      elim (Bool-cases (ltb offset (length file))) [
        | inr at_end ↦
            if_false (Transferred size line (blocks (suc fuel) size block_num (drop offset file))) _
              at_end
              (all_sent (suc fuel) block_num (drop offset file) line
                (ground (arith, at_end, length-drop offset file)))
        | inl left ↦
            if_true (Transferred size line (blocks (suc fuel) size block_num (drop offset file)))
              (some (pos 0, line, [])) left
              (let s = drop offset file in
                let chunk = next_chunk file size offset in
                let more : offset < length file = ground (arith, left) in
                let (is_block, behind, any, fits, within) =
                  next_chunk_lem file size offset positive more in
                let size_left : length s ≡ length file - offset = length-drop offset file in
                let next_num = (block_num + 1) % 256 in
                let expected : (block_num, chunk ++ replicate (size - length chunk) 0x1A)
                      ∷ blocks fuel size next_num (drop size s)
                    ≡ blocks (suc fuel) size block_num s =
                  ap
                    (λ c.
                      (block_num, c ++ replicate (size - length c) 0x1A)
                      ∷ blocks fuel size next_num (drop size s))
                    is_block
                  ∙ sym (blocks-next fuel size block_num s (omega (arith, more, size_left))) in
                same_blocks expected (
                  rw (reads offset (request_len file size offset) more) (
                    send_chunk fuel block_num offset chunk line
                      (blocks fuel size next_num (drop size s)) small fits any
                      (λ line'. same_blocks (ap (blocks fuel size next_num) behind) (
                        send_loop-Transferred fuel next_num (offset + length chunk) line'
                          (omega arith) (omega (arith, any, enough)) within)))))
      ]

-- The end of a transfer sends no block.
send_eot-sent : (line : Line) → (send_eot line).1.sent ≡ line.sent
unfolding send_eot
send_eot-sent line =
    if_both (λ (r : ℤ × Line). r.1.sent ≡ line.sent) (next_write line.writes).0 refl refl

finish_transfer-accepted :
    (size : ℕ) (result : ℤ) (line : Line) (offsets : List ℕ)
    → accepted size (finish_transfer result line offsets).1.sent ≡ accepted size line.sent
unfolding finish_transfer
finish_transfer-accepted size result line offsets =
    if_both (λ (r : ℤ × Line × List ℕ). accepted size r.1.sent ≡ accepted size line.sent)
      (fails result) refl (ap (accepted size) (send_eot-sent line))

finish_transfer-fails :
    (result : ℤ) (line : Line) (offsets : List ℕ)
    → fails (finish_transfer result line offsets).0 ≡ false
    → fails result ≡ false
unfolding finish_transfer
finish_transfer-fails result line offsets ok = elim (Bool-cases (fails result)) [
  | inl bad ↦
      absurd (false≢true (sym ok ∙ if_true (λ (r : ℤ × Line × List ℕ). fails r.0 ≡ true) _ bad bad))
  | inr fine ↦ fine
]

after_loop :
    (size : ℕ) (line line' : Line) {expected : List (ℕ × Bytes)} {r : Option (ℤ × Line × List ℕ)}
    → line'.sent ≡ line.sent
    → Transferred size line' expected r
    → Transferred size line expected (elim r [
      | none ↦ none
      | some (result, line'', offsets) ↦ some (finish_transfer result line'' offsets)
    ])
after_loop size line line' {expected} e (transferred result line'' offsets t) =
    transferred _ _ _ (λ ok.
      finish_transfer-accepted size result line'' offsets
      ∙ t (finish_transfer-fails result line'' offsets ok)
      ∙ ap (λ sent. accepted size sent ++ expected) e)

abbrev pub block_size_of : XmodemConfig → ℕ
block_size_of config = if config.use_1k then 1024 else 128

-- `uCxXmodemSend` of a file, by a callback that reads it wherever it has bytes, always comes to a
-- result, whatever the other side answers and whichever writes fail. If the result is 0, then a
-- receiver that acknowledges a packet exactly when it takes it has taken the whole file: its blocks,
-- each once and in their order, numbered from 1 on modulo 256, the last one filled up with 0x1A.
pub xmodem_send-Transferred :
    (config : XmodemConfig) (file : Bytes) (get : ℕ → ℕ → Option Bytes) (line : Line)
    → ReadsFile file get
    → Transferred
        (block_size_of config)
        line
        (blocks (length file) (block_size_of config) 1 file)
        (xmodem_send config (length file) get line)
unfolding xmodem_send
xmodem_send-Transferred config file get line reads =
    let size = block_size_of config in
    let T : Option (ℤ × Line × List ℕ) → Type 0 =
      Transferred size line (blocks (length file) size 1 file) in
    let start = wait_for_start line.replies in
    let line' : Line = record line { replies = start.1 } in
    if_both T (not config.opened || length file == 0)
      (transferred (negsuc 0) line [] (λ ok. absurd (false≢true (sym ok))))
      (elim (Bool-cases (fails start.0)) [
        | inl bad ↦
            if_true T _ bad
              (transferred start.0 line' [] (λ ok. absurd (false≢true (sym ok ∙ bad))))
        | inr fine ↦ if_false T (some (start.0, line', [])) fine (
            after_loop size line line' refl (
              send_loop-Transferred file get reads size
                (if_both (λ n. 0 < n) config.use_1k (omega arith) (omega arith)) (length file) 1 0
                line' (omega arith) (omega arith) (omega arith)))
      ])

-- ===== src/Xmodem.antt =====
-- src/u_cx_xmodem.c: sending by XMODEM. What a wait for a reply meets is a list of events: a byte, a
-- read that gives none, or the end of the time, which comes in any case when the list runs out. Whether
-- the UART takes each write is a list too (it does when that runs out). The busy wait behind a block
-- and the numbers that are logged are left out.
pub mod Packet
pub mod Accepted
pub mod Blocks
pub mod Transfer
pub mod File
pub mod Acknowledged
pub mod Delivered
mod Tests
use ucxclient.Prelude.{
  ℕ, zero, suc, ◌+◌, ◌-◌, ◌*◌, ◌/◌, ◌%◌, ◌^◌, Bool, true, false, not, ◌||◌, Option, none, some,
  List, [], ◌∷◌, ◌++◌, Bytes, length, replicate, bit_xor, ltb, leb, ◌==◌, if◌then◌else◌, write_at,
}
use ucxclient.Prelude.Int.{ℤ, pos, negsuc}

-- `uCxXmodemConfig_t`
pub record XmodemConfig : Type 0 where
  pub has_device : Bool
  pub use_1k : Bool
  pub timeout_ms : ℕ
  pub opened : Bool

-- `uCxXmodemInit`
unfoldable pub xmodem_init : Bool → XmodemConfig
xmodem_init has_device = record {
  has_device = has_device;
  use_1k = true;
  timeout_ms = 15000;
  opened = false;
}

-- `uCxXmodemOpen`, with whether the port opens the device.
unfoldable pub xmodem_open : XmodemConfig → Bool → ℤ × XmodemConfig
xmodem_open config port_opens =
    if not config.has_device
    then (negsuc 0x10002, config)
    else if config.opened
    then (negsuc 0x10001, config)
    else if not port_opens
    then (negsuc 0x10000, config)
    else (pos 0, record config { opened = true })

-- `uCxXmodemClose`
unfoldable pub xmodem_close : XmodemConfig → XmodemConfig
xmodem_close config = if config.opened then record config { opened = false } else config

-- One round of the inner loop of `xmodemCrc16`.
unfoldable pub crc_bit : ℕ → ℕ
crc_bit crc = if leb 0x8000 crc then bit_xor (crc * 2 % 2 ^ 16) 0x1021 else crc * 2 % 2 ^ 16

-- The inner loop.
unfoldable pub crc_bits : ℕ → ℕ → ℕ
crc_bits zero crc = crc
crc_bits (suc rounds) crc = crc_bits rounds (crc_bit crc)

-- `xmodemCrc16` from `crc` on.
unfoldable pub crc_loop : ℕ → Bytes → ℕ
crc_loop crc [] = crc
crc_loop crc (b ∷ bytes) = crc_loop (crc_bits 8 (bit_xor crc (b * 256))) bytes

unfoldable pub xmodem_crc16 : Bytes → ℕ
xmodem_crc16 bytes = crc_loop 0 bytes

-- What the data of a block are put into.
abbrev pub fill : Bytes → ℕ → Bytes
fill bytes block_size = write_at (replicate block_size 0x1A) 0 bytes

-- The packet of `xmodemSendBlock`: the type, the number and its complement, the data and their CRC.
unfoldable pub packet : ℕ → Bytes → ℕ → Bytes
packet block_num bytes block_size =
    let crc = xmodem_crc16 (fill bytes block_size) in
    let kind = if block_size == 1024 then 0x02 else 0x01 in
    kind
    ∷ block_num
    ∷ (255 - block_num)
    ∷ (fill bytes block_size ++ ((crc / 256 % 256) ∷ ((crc % 256) ∷ [])))

pub data Reply : Type 0 where
  answered : ℕ → Reply
  silent time_up : Reply

-- How a wait for the reply to a block ends.
pub data Answer : Type 0 where
  acked naked cancelled no_reply : Answer

-- The line: what comes in, which writes succeed, and what was sent, with the answers.
pub record Line : Type 0 where
  pub replies : List Reply
  pub writes : List Bool
  pub sent : List (Bytes × Answer)

-- `result != 0`
abbrev pub fails : ℤ → Bool
fails (pos zero) = false
fails result = true

-- The loop of `xmodemWaitForStart`: its result, and the replies that are left.
unfoldable pub wait_for_start : List Reply → ℤ × List Reply
wait_for_start [] = (negsuc 0, [])
wait_for_start (time_up ∷ replies) = (negsuc 0, replies)
wait_for_start (silent ∷ replies) = wait_for_start replies
wait_for_start (answered b ∷ replies) =
    let others = wait_for_start replies in
    if b == 0x43
    then (pos 0, replies)
    else if b == 0x15
    then (negsuc 1, replies)
    else if b == 0x18
    then (negsuc 2, replies)
    else others

-- The inner loop of `xmodemSendBlock`.
unfoldable pub wait_for_ack : List Reply → Answer × List Reply
wait_for_ack [] = (no_reply, [])
wait_for_ack (time_up ∷ replies) = (no_reply, replies)
wait_for_ack (silent ∷ replies) = wait_for_ack replies
wait_for_ack (answered b ∷ replies) =
    let others = wait_for_ack replies in
    if b == 0x06
    then (acked, replies)
    else if b == 0x15
    then (naked, replies)
    else if b == 0x18
    then (cancelled, replies)
    else others

abbrev pub next_write : List Bool → Bool × List Bool
next_write [] = (true, [])
next_write (ok ∷ writes) = (ok, writes)

-- The loop of `xmodemSendBlock` over the tries that are left.
unfoldable pub send_tries : ℕ → Bytes → Line → ℤ × Line
send_tries zero bytes line = (negsuc 0, line)
send_tries (suc tries) bytes line =
    let (ok, writes) = next_write line.writes in
    let (answer, replies) = wait_for_ack line.replies in
    let after : Line = record {
      replies = replies;
      writes = writes;
      sent = line.sent ++ (bytes, answer) ∷ [];
    } in
    let skipped = send_tries tries bytes (record line { writes = writes }) in
    let again = send_tries tries bytes after in
    if ok
    then elim answer [
      | acked ↦ (pos 0, after)
      | naked ↦ again
      | cancelled ↦ (negsuc 2, after)
      | no_reply ↦ again
    ]
    else skipped

-- `xmodemSendBlock`
unfoldable pub send_block : ℕ → Bytes → ℕ → Line → ℤ × Line
send_block block_num bytes block_size line = send_tries 3 (packet block_num bytes block_size) line

-- The loop of `xmodemSendEot`.
unfoldable pub wait_for_eot_ack : List Reply → ℤ × List Reply
wait_for_eot_ack [] = (negsuc 0, [])
wait_for_eot_ack (time_up ∷ replies) = (negsuc 0, replies)
wait_for_eot_ack (silent ∷ replies) = wait_for_eot_ack replies
wait_for_eot_ack (answered b ∷ replies) =
    let others = wait_for_eot_ack replies in if b == 0x06 then (pos 0, replies) else others

-- `xmodemSendEot`
unfoldable pub send_eot : Line → ℤ × Line
send_eot line =
    let (ok, writes) = next_write line.writes in
    let (result, replies) = wait_for_eot_ack line.replies in
    if ok
    then (result, record line { writes = writes; replies = replies })
    else (negsuc 0, record line { writes = writes })

-- The loop of `uCxXmodemSend`, on fuel; `get` is the data callback, whose negative result is `none`.
-- It gives the result, the line and the offsets that the progress callback was told.
unfoldable pub send_loop :
    ℕ → (ℕ → ℕ → Option Bytes) → ℕ → ℕ → ℕ → ℕ → Line → Option (ℤ × Line × List ℕ)
send_loop zero get data_len block_size block_num offset line =
    if ltb offset data_len then none else some (pos 0, line, [])
send_loop (suc fuel) get data_len block_size block_num offset line =
    if ltb offset data_len
    then elim (get offset
        (if ltb (data_len - offset) block_size then data_len - offset else block_size)) [
          | none ↦ some (negsuc 3, line, [])
          | some [] ↦ some (negsuc 3, line, [])
          | some (b ∷ more) ↦
              (let (result, line') = send_block block_num (b ∷ more) block_size line in
                let n = length (b ∷ more) in
                let rest =
                  send_loop fuel get data_len block_size ((block_num + 1) % 256) (offset + n)
                    line' in
                if fails result then some (result, line', []) else elim rest [
                  | none ↦ none
                  | some (end, line'', offsets) ↦ some (end, line'', (offset + n) ∷ offsets)
                ])
        ]
    else some (pos 0, line, [])

-- The part of `uCxXmodemSend` behind the loop.
unfoldable pub finish_transfer : ℤ → Line → List ℕ → ℤ × Line × List ℕ
finish_transfer result line offsets =
    if fails result
    then (result, line, offsets)
    else (let (eot, line') = send_eot line in (eot, line', offsets))

-- `uCxXmodemSend`. A block takes a byte at least, so the bytes to send are enough fuel.
unfoldable pub xmodem_send :
    XmodemConfig → ℕ → (ℕ → ℕ → Option Bytes) → Line → Option (ℤ × Line × List ℕ)
xmodem_send config data_len get line =
    if not config.opened || data_len == 0
    then some (negsuc 0, line, [])
    else (let (started, replies) = wait_for_start line.replies in
        let block_size = if config.use_1k then 1024 else 128 in
        let line' = record line { replies = replies } in
        if fails started
        then some (started, line', [])
        else elim (send_loop data_len get data_len block_size 1 0 line') [
          | none ↦ none
          | some (result, line'', offsets) ↦ some (finish_transfer result line'' offsets)
        ])

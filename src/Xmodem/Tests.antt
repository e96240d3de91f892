-- ===== src/Xmodem/Tests.antt =====
-- XMODEM at concrete inputs.
use ucxclient.Prelude.{◌≡◌, refl, true, false, some, [], ◌∷◌, arith, Bytes, length}
use ucxclient.Prelude.{ℕ, List}
use ucxclient.Prelude.Int.{pos}
use ucxclient.Xmodem.{
  XmodemConfig, Line, Answer, answered, silent, xmodem_send, xmodem_crc16, crc_loop, crc_bits,
  crc_bit, wait_for_start, wait_for_ack, wait_for_eot_ack,
}
use ucxclient.Xmodem.Accepted.{accepted}
use ucxclient.Xmodem.Acknowledged.{good_line, at_once, refused, next, done}
use ucxclient.Xmodem.Blocks.{blocks, file_source}
use ucxclient.Xmodem.Delivered.{xmodem_send_delivers}
use ucxclient.Xmodem.File.{xmodem_send_file, xmodem_send_file-Transferred}
use ucxclient.Xmodem.Transfer.{Transferred, block_size_of, xmodem_send-Transferred}

abbrev file : Bytes
file = 0x31 ∷ 0x32 ∷ 0x33 ∷ []

abbrev config : XmodemConfig
config = record { has_device = true; use_1k = false; timeout_ms = 100; opened = true }

-- The receiver starts, refuses the block once, takes it and acknowledges the end.
abbrev line : Line
line = record {
  replies = answered 0x43 ∷ answered 0x15 ∷ silent ∷ answered 0x06 ∷ answered 0x06 ∷ [];
  writes = [];
  sent = [];
}

xmodem_send-Transferred_example :
    Transferred
      (block_size_of config)
      line
      (blocks (length file) (block_size_of config) 1 file)
      (xmodem_send config (length file) (file_source file) line)
xmodem_send-Transferred_example =
    xmodem_send-Transferred config file (file_source file) line (λ offset len inside. refl)

xmodem_send_file-Transferred_example :
    Transferred
      (block_size_of config)
      line
      (blocks (length file) (block_size_of config) 1 file)
      (xmodem_send_file (some config) (some (0x66 ∷ [])) (λ path. some file) line)
xmodem_send_file-Transferred_example =
    xmodem_send_file-Transferred config (0x66 ∷ []) (λ path. some file) file line refl

xmodem_send_delivers_example :
    (sent' : List (Bytes × Answer)) × (offsets : List ℕ) × (xmodem_send config 3
        (file_source file)
        line
      ≡ some (pos 0, good_line [] sent', offsets))
    × (accepted 128 sent' ≡ blocks 3 128 1 file)
unfolding wait_for_start wait_for_ack wait_for_eot_ack blocks
xmodem_send_delivers_example =
    xmodem_send_delivers config file (file_source file) line.replies [] refl (omega arith)
      (λ offset len inside. refl) refl (next (refused refl (at_once refl)) done) refl

-- The check value of this CRC (zero at the start) for the digits 1 to 9.
crc_check :
    xmodem_crc16 (0x31 ∷ 0x32 ∷ 0x33 ∷ 0x34 ∷ 0x35 ∷ 0x36 ∷ 0x37 ∷ 0x38 ∷ 0x39 ∷ []) ≡ 0x31C3
unfolding xmodem_crc16 crc_loop crc_bits crc_bit
crc_check = refl

-- ===== src/Xmodem/File.antt =====
-- uCxXmodemSendFile of src/u_cx_xmodem.c. What `fopen` gives for a path, if anything, is the content of
-- a regular file, which stays as it is while it is sent.
use ucxclient.Prelude.{
  ℕ, ◌^◌, ◌<◌, ◌≡◌, sym, Option, none, some, List, [], arith, Bytes, length, take, drop, leb, not,
  if◌then◌else◌, if_split,
}
use mathlib.Core.Bool.{false≢true}
use ucxclient.Prelude.Int.{ℤ, pos, negsuc, ltb_ℤ}
use ucxclient.Xmodem.{XmodemConfig, Line, xmodem_send}
use ucxclient.Xmodem.Blocks.{blocks, ReadsFile}
use ucxclient.Xmodem.Transfer.{block_size_of, Transferred, transferred, xmodem_send-Transferred}

-- `fileDataCallback`: `fseek` refuses an offset that a `long` holds as a negative number.
unfoldable pub file_data_callback : Bytes → ℕ → ℕ → Option Bytes
file_data_callback file offset max_len =
    if leb (2 ^ 31) offset then none else some (take max_len (drop offset file))

-- `ftell` at the end of a file: its size, and -1 for one that no `long` holds.
abbrev pub ftell_end : Bytes → ℤ
ftell_end file = if leb (2 ^ 31) (length file) then negsuc 0 else pos (length file)

-- `uCxXmodemSendFile`, with NULL as `none`.
unfoldable pub xmodem_send_file :
    Option XmodemConfig → Option Bytes → (Bytes → Option Bytes) → Line → Option (ℤ × Line × List ℕ)
xmodem_send_file none path fopen line = some (negsuc 0, line, [])
xmodem_send_file (some config) none fopen line = some (negsuc 0, line, [])
xmodem_send_file (some config) (some path) fopen line = elim (fopen path) [
  | none ↦ some (negsuc 0, line, [])
  | some file ↦
      if not (ltb_ℤ (pos 0) (ftell_end file))
      then some (negsuc 0, line, [])
      else xmodem_send config (length file) (file_data_callback file) line
]

callback-ReadsFile :
    (file : Bytes) → length file < 2 ^ 31 → ReadsFile file (file_data_callback file)
unfolding file_data_callback
callback-ReadsFile file small offset len inside = ground (arith, small, inside)

-- `uCxXmodemSendFile` of a path at which there is a file always comes to a result. If the result is 0,
-- then a receiver that acknowledges a packet exactly when it takes it has taken the whole file, as
-- blocks that are numbered from 1 on modulo 256, the last one filled up with 0x1A.
pub xmodem_send_file-Transferred :
    (config : XmodemConfig) (path : Bytes) (fopen : Bytes → Option Bytes) (file : Bytes)
    (line : Line)
    → fopen path ≡ some file
    → Transferred
        (block_size_of config)
        line
        (blocks (length file) (block_size_of config) 1 file)
        (xmodem_send_file (some config) (some path) fopen line)
unfolding xmodem_send_file
xmodem_send_file-Transferred config path fopen file line opens =
    let T : Option (ℤ × Line × List ℕ) → Type 0 =
      Transferred (block_size_of config) line
        (blocks (length file) (block_size_of config) 1 file) in
    rw (opens, xmodem_send_file)
      (if_split T (not (ltb_ℤ (pos 0) (ftell_end file)))
        (λ e. transferred (negsuc 0) line [] (λ ok. absurd (false≢true (sym ok))))
        (λ e.
          xmodem_send-Transferred config file (file_data_callback file) line
            (callback-ReadsFile file (ground (arith, e)))))

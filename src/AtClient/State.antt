-- ===== src/AtClient/State.antt =====
-- The state of the AT client (inc/u_cx_at_client.h), and how its functions end.
use ucxclient.Prelude.{ℕ, ◌-◌, ◌^◌, Bool, Option, Bytes}
use ucxclient.Prelude.Int.{ℤ, pos, negsuc}
use ucxclient.UrcQueue.{UrcQueue, Outcome}

-- `enum uCxAtParserCode`
pub data ParserCode : Type 0 where
  nop got_status got_rsp got_urc start_binary error : ParserCode

-- `uCxAtBinaryState_t`
pub data BinaryState : Type 0 where
  flush rsp urc : BinaryState

-- Where `uCxAtBinaryRx_t.pBuffer` points: nowhere (NULL), at the caller's response buffer, or at a
-- place in the URC queue's buffer.
pub data Target : Type 0 where
  nowhere response : Target
  in_queue : ℕ → Target

-- `uCxAtBinaryRx_t`
pub record BinaryRx : Type 0 where
  pub state : BinaryState
  pub header_count : ℕ
  pub remaining : ℕ
  pub target : Target
  pub buffer_size : ℕ
  pub buffer_pos : ℕ

-- `uCxAtClient_t` with the RX buffer of its configuration. `rsp_buffer` and `rsp_length` are the
-- memory behind `rspBinaryBuf` (no length where the pointer is NULL), `length_buf` is the static
-- variable of handleBinaryRx, and `rsp_params` the string that `pRspParams` points at.
pub record Client : Type 0 where
  pub rx_buffer : Bytes
  pub rx_buffer_len : ℕ
  pub rx_buffer_pos : ℕ
  pub executing_cmd : Bool
  pub opened : Bool
  pub cmd_start_time : ℤ
  pub cmd_timeout : ℤ
  pub cmd_timeout_last_perm : ℤ
  pub expected_rsp : Option Bytes
  pub rsp_params : Option Bytes
  pub status : ℤ
  pub last_io_error : ℤ
  pub has_urc_callback : Bool
  pub urc_queue : UrcQueue
  pub is_binary_rx : Bool
  pub binary_rx : BinaryRx
  pub length_buf : Bytes
  pub rsp_buffer : Bytes
  pub rsp_length : Option ℕ
  pub cmd_mutex : Bool

-- `NO_STATUS`, and the error codes of inc/u_cx_at_config.h
abbrev pub no_status : ℤ
no_status = pos (2 ^ 31 - 1)

abbrev pub error_status : ℤ
error_status = negsuc 0

abbrev pub error_cmd_timeout : ℤ
error_cmd_timeout = negsuc 0xFFFF

abbrev pub error_io : ℤ
error_io = negsuc 0x10000

-- How a call ends: it returns, it waits for a mutex that is held, or an assertion fails.
pub data Exec {ℓ} (A : Type ℓ) : Type ℓ where
  ran : A → Exec A
  stuck : Exec A
  failed_assert : Exec A

infixl 5 ◌>>=◌
abbrev pub ◌>>=◌ {ℓ κ} : {A : Type ℓ} {B : Type κ} → Exec A → (A → Exec B) → Exec B
ran a >>= f = f a
stuck >>= f = stuck
failed_assert >>= f = failed_assert

-- A call on the client's URC queue.
abbrev pub on_queue {ℓ} : {A : Type ℓ} → Client → Outcome A → Exec (A × Client)
on_queue c (Outcome.returns a q) = ran (a, record c { urc_queue = q })
on_queue c (Outcome.waits q) = stuck
on_queue c Outcome.asserts = failed_assert

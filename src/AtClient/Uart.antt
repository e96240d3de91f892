-- ===== src/AtClient/Uart.antt =====
-- What the client reads from the UART port (ports/u_port_uart.h): up to a number of bytes, none after
-- the timeout, or a negative error.
use ucxclient.Prelude.{ℕ, suc, Bytes, List, [], ◌∷◌}
use ucxclient.Prelude.Int.{ℤ}

-- What arrives: a byte, a silence that makes a read return with what it has, or an error.
pub data Event : Type 0 where
  byte : ℕ → Event
  pause : Event
  fault : ℤ → Event

pub data ReadResult : Type 0 where
  got : Bytes → ReadResult
  failed : ℤ → ReadResult

-- The bytes at hand, at most as many as asked for.
unfoldable pub gather : ℕ → List Event → Bytes × List Event
gather (suc n) (byte b ∷ events) = let (bytes, rest) = gather n events in (b ∷ bytes, rest)
gather n events = ([], events)

-- `uPortUartRead` for at least one byte
unfoldable pub uart_read : ℕ → List Event → ReadResult × List Event
uart_read n (pause ∷ events) = (got [], events)
uart_read n (fault e ∷ events) = (failed e, events)
uart_read n (byte b ∷ events) = let (bytes, rest) = gather n (byte b ∷ events) in (got bytes, rest)
uart_read n [] = (got [], [])

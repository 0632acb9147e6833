-- ===== src/Scamper/Sockets.antt =====
-- `net::read` and `net::write` of spoki/libspoki/src/net/tcp.cpp over what the system calls return.
use spoki.Prelude.{ℕ, ◌++◌, length, take, replicate}
use spoki.Prelude.Int.{ℤ, pos, negsuc}
use spoki.Scamper.{Bytes}

-- `::send`: so many bytes were taken, the socket is full, or it failed with an `errno`.
pub data SendResult : Type 0 where
  sent : ℕ → SendResult
  full : SendResult
  failed : ℕ → SendResult

-- `::recv`: these bytes, none yet, an orderly shutdown, or a failure with an `errno`. `recv` returns no
-- more bytes than the buffer has room for. A failure leaves the buffer as it is, and comes with what
-- the buffer still holds of earlier reads behind the bytes in use.
pub data RecvResult : Type 0 where
  received : Bytes → RecvResult
  nothing : RecvResult
  closed : RecvResult
  failed : ℕ → Bytes → RecvResult

-- The error is returned as the positive `errno`.
abbrev pub write : SendResult → ℤ
write (sent n) = pos n
write full = pos 0
write (SendResult.failed errno) = pos errno

abbrev pub read : RecvResult → ℤ
read (received bytes) = pos (length bytes)
read nothing = pos 0
read closed = negsuc 0
read (RecvResult.failed errno old) = pos errno

-- `n` bytes of the buffer behind those in use: what it still holds, and the zeros of `resize`
abbrev pub held : ℕ → Bytes → Bytes
held n old = take n (old ++ replicate n 0)

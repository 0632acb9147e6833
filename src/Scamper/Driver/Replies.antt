-- ===== src/Scamper/Driver/Replies.antt =====
-- What scamper sends (spoki/libspoki/src/scamper/driver.cpp): the lines of the control socket, and
-- the uuencoded data between them. `uudecode` stands for `uudecode_line` of scamper's library.
use spoki.Prelude.{
  ℕ, ◌+◌, true, not, ◌&&◌, Option, none, some, [], ◌∷◌, ◌++◌, ltb, ◌==◌, if◌then◌else◌, length,
  is_empty, drop,
}
use spoki.Prelude.Words.{u64, sub64}
use spoki.Scamper.{Bytes}
use spoki.Scamper.Text.{strtoul}
use spoki.Scamper.Sockets.{RecvResult, received, nothing, closed, held}
use spoki.Multiplexing.{Operation}
use spoki.Scamper.Driver.{Driver, Fd, enable}

-- `++scamper_more_`, and what follows it
unfoldable pub handle_more : Driver → Driver
unfolding enable
handle_more d =
    let d' = record d { more = u64 (d.more + 1) } in
    if not (is_empty d.requests) && not d.writing
    then record (enable Fd.scamper Operation.write d') { writing = true }
    else d'

-- the first character, where an empty line has its NUL
abbrev pub head_of : Bytes → ℕ
head_of [] = 0
head_of (c ∷ cs) = c

-- `scamper_handle_cmd` on a line; the buffer goes on with a NUL and the bytes that follow
unfoldable pub handle_cmd : Driver → Bytes → Bytes → Driver
unfolding handle_more
handle_cmd d line following =
    let n = strtoul (drop 5 (line ++ 0 ∷ following)) in
    if head_of line == b'M'
    then handle_more d
    else if head_of line == b'D'
    then (if n == 0 then d else record d { expected_data = u64 (d.expected_data + n) })
    else d

-- decoded bytes go to the buffer of the decoder, which is switched on
unfoldable pub pass_on : Driver → Bytes → Driver
unfolding enable
pass_on d bytes =
    let d' = record d { decode_wb = d.decode_wb ++ bytes } in
    if is_empty bytes
    then d
    else if d.decoding
    then d'
    else record (enable Fd.decode_write Operation.write d') { decoding = true }

-- `scamper_handle_data`
unfoldable pub handle_data : (Bytes → Option Bytes) → Driver → Bytes → Driver
unfolding pass_on
handle_data uudecode d line = elim (uudecode line) [
  | none ↦ d
  | some bytes ↦ record (pass_on d bytes) {
    expected_data = sub64 d.expected_data (length line + 1);
  }
]

unfoldable pub handle_line : (Bytes → Option Bytes) → Driver → Bytes → Bytes → Driver
unfolding handle_data handle_cmd
handle_line uudecode d line following =
    if ltb 0 d.expected_data then handle_data uudecode d line else handle_cmd d line following

-- The loop of `handle_scamper_read` over what the buffer holds: `line` is what stands between
-- `from` and here. What is left behind the last newline stays in the buffer.
unfoldable pub scan : (Bytes → Option Bytes) → Driver → Bytes → Bytes → Driver
unfolding handle_line
scan uudecode d line [] = record d { read_buf = line }
scan uudecode d line (c ∷ cs) =
    let newline = c == 10 in
    scan uudecode (if newline then handle_line uudecode d line cs else d)
      (if newline then [] else line ++ c ∷ []) cs

-- `handle_scamper_read`; an `errno` is taken for a number of bytes, which are what the buffer holds
unfoldable pub handle_scamper_read : (Bytes → Option Bytes) → Driver → RecvResult → Driver
unfolding scan
handle_scamper_read uudecode d (received []) = d
handle_scamper_read uudecode d (received (c ∷ cs)) = scan uudecode d [] (d.read_buf ++ c ∷ cs)
handle_scamper_read uudecode d nothing = d
handle_scamper_read uudecode d closed = d
handle_scamper_read uudecode d (RecvResult.failed errno old) =
    if errno == 0 then d else scan uudecode d [] (d.read_buf ++ held errno old)

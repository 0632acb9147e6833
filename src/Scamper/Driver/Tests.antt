-- ===== src/Scamper/Driver/Tests.antt =====
-- A session with scamper, and the driver's theorems at it.
use spoki.Prelude.{◌+◌, length, ◌≡◌, refl, arith, Option, none, some, List, [], ◌∷◌, ◌++◌, true}
use spoki.Scamper.{Bytes}
use spoki.Scamper.Sockets.{sent, received}
use spoki.Scamper.Driver.{
  Driver, attach_cmd, start, handle_notify_read, WriteResult, write_front, handle_scamper_write,
}
use spoki.Scamper.Driver.Replies.{scan, handle_scamper_read}
use spoki.Scamper.Driver.Writing.{Reach, here, commands, readable, writable}
use spoki.Scamper.Driver.Delivery.{Delivered, sends, wires, Reach-Delivered}
use spoki.Scamper.Driver.Credits.{credits, Reach-credits}
use spoki.Scamper.Driver.Framing.{all_framed, handle_scamper_read-pieces}
use spoki.Scamper.Driver.Blocks.{Line, Passed, text, scan-Passed}

-- a stand-in for the decoder: a line stands for its bytes, an empty one cannot be decoded
abbrev plain : Bytes → Option Bytes
plain [] = none
plain (c ∷ cs) = some (c ∷ cs)

abbrev ping_cmd : Bytes
ping_cmd = b'p' ∷ b'i' ∷ b'n' ∷ b'g' ∷ 10 ∷ []

abbrev ok_more : Bytes
ok_more = b'O' ∷ b'K' ∷ 10 ∷ b'M' ∷ b'O' ∷ b'R' ∷ b'E' ∷ 10 ∷ []

abbrev attached : WriteResult
attached = write_front start (sent 7) attach_cmd []

abbrev asked : Driver
asked = handle_notify_read attached.driver (ping_cmd ∷ [])

abbrev told : Driver
told = handle_scamper_read plain asked (received ok_more)

-- attach is written, a command is queued, and scamper answers OK and MORE
session : Reach plain told (attach_cmd ∷ ping_cmd ∷ []) (attach_cmd ∷ [])
unfolding handle_scamper_write write_front start handle_notify_read handle_scamper_read
session =
    readable (received ok_more) (omega arith)
      (commands (ping_cmd ∷ []) (writable (sent 7) attached refl refl here))

Reach-Delivered_example :
    (attach_cmd ∷ ping_cmd ∷ [] ≡ attach_cmd ∷ told.requests)
    × Delivered
        (attach_cmd ∷ ping_cmd ∷ [])
        (sends plain session)
        (attach_cmd ∷ [])
        (wires plain session)
Reach-Delivered_example = Reach-Delivered plain session

Reach-credits_example : told.more + length (attach_cmd ∷ []) ≡ credits plain session
Reach-credits_example = Reach-credits plain session

start_writes : start.masks.scamper.epollout ≡ true
unfolding start
start_writes = refl

framed : all_framed [] (start.read_buf ++ b'M' ∷ b'O' ∷ []) ≡ true
unfolding all_framed start
framed = refl

-- the read that ends inside MORE and the one with its rest
handle_scamper_read-pieces_example :
    handle_scamper_read plain
      (handle_scamper_read plain start (received (b'M' ∷ b'O' ∷ [])))
      (received (b'R' ∷ b'E' ∷ 10 ∷ []))
    ≡ handle_scamper_read plain start (received (b'M' ∷ b'O' ∷ b'R' ∷ b'E' ∷ 10 ∷ []))
handle_scamper_read-pieces_example =
    handle_scamper_read-pieces plain start b'M' b'R' (b'O' ∷ []) (b'E' ∷ 10 ∷ []) framed

abbrev expecting : Driver
expecting = record start { expected_data = 5 }

abbrev lines : List Line
lines = (7 ∷ 8 ∷ [], 7 ∷ 8 ∷ []) ∷ (9 ∷ [], 9 ∷ []) ∷ []

scan-Passed_example : Passed expecting (scan plain expecting [] (text lines)) (7 ∷ 8 ∷ 9 ∷ []) 0
unfolding start
scan-Passed_example =
    scan-Passed plain expecting lines (refl, (refl, tt)) (refl, (refl, tt)) refl (omega arith)

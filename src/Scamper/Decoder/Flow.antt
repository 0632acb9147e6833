-- ===== src/Scamper/Decoder/Flow.antt =====
-- How bytes flow through the decoder (spoki/libspoki/src/scamper/async_decoder.cpp). Other threads
-- send a message to the mailbox of the loop's thread, and then a byte to the notification socket,
-- into which `room` bytes fit; the loop's thread takes these bytes, and then the messages.
use spoki.Prelude.{
  ℕ, zero, suc, ◌+◌, ◌-◌, ◌<◌, ◌≡◌, refl, ap, ◌∙◌, sym, Bool, true, false, ◌||◌, List, [], ◌∷◌,
  ◌++◌, arith, ltb, if◌then◌else◌, is_empty, take, drop, concat, concat-append, take-append-drop,
  append_assoc, append-nil,
}
use spoki.Multiplexing.{Events}
use spoki.Scamper.{Bytes}
use spoki.Scamper.Decoder.{
  AsyncDecoder, async_decoder, receive, handle_notify_read, handle_decode_write, enable, disable,
}

pub record System : Type 0 where
  pub decoder : AsyncDecoder
  pub mailbox : List Bytes
  pub pokes : ℕ  -- the calls of `write` between their message and their byte
  pub pipe : ℕ  -- the bytes in the notification socket
  pub notifying : Bool  -- the loop's thread is between `recv` and what follows it

abbrev pub begin : System
begin = record { decoder = async_decoder; mailbox = []; pokes = 0; pipe = 0; notifying = false }

abbrev pub waits_to_write : AsyncDecoder → Bool
waits_to_write d = elim d.out_events [ Events.pollout ↦ true | _ ↦ false ]

-- The states that the threads get into, with what was given to `write`, and what the decoder's
-- socket took.
pub data Reach (room : ℕ) : System → List Bytes → Bytes → Type 0 where
  here : Reach room begin [] []
  posted :
      {s : System} {given : List Bytes} {out : Bytes} (buf : Bytes)
      → Reach room s given out
      → Reach room
          (record s { mailbox = s.mailbox ++ buf ∷ []; pokes = s.pokes + 1 })
          (given ++ buf ∷ [])
          out
  poked :
      {s : System} {given : List Bytes} {out : Bytes}
      → 0 < s.pokes
      → Reach room s given out
      → Reach room
          (record s { pokes = s.pokes - 1; pipe = if ltb s.pipe room then s.pipe + 1 else s.pipe })
          given
          out
  taken :
      {s : System} {given : List Bytes} {out : Bytes}
      → s.notifying ≡ false
      → Reach room s given out
      → Reach room (record s { pipe = s.pipe - 16; notifying = true }) given out
  notified :
      {s : System} {given : List Bytes} {out : Bytes}
      → s.notifying ≡ true
      → Reach room s given out
      → Reach room
          (record s {
            decoder = handle_notify_read s.decoder s.mailbox;
            mailbox = [];
            notifying = false;
          })
          given
          out
  written :
      {s : System} {given : List Bytes} {out : Bytes} (n : ℕ)
      → s.notifying ≡ false
      → waits_to_write s.decoder ≡ true
      → Reach room s given out
      → Reach room
          (record s { decoder = handle_decode_write s.decoder n })
          given
          (out ++ take n s.decoder.decode_wb)

-- what the decoder knows of itself
pub record IsReady (d : AsyncDecoder) : Type 0 where
  pub listens : d.notify_events ≡ Events.pollin
  pub reads : d.in_events ≡ Events.pollin
  pub waits : d.decoding ≡ waits_to_write d
  pub decodes : (is_empty d.decode_wb || d.decoding) ≡ true

pub record IsAlert (s : System) : Type 0 where
  pub decoder : IsReady s.decoder
  pub wakes : (is_empty s.mailbox || ltb 0 s.pokes || ltb 0 s.pipe || s.notifying) ≡ true

is_empty-drop : (n : ℕ) (bytes : Bytes) → is_empty bytes ≡ true → is_empty (drop n bytes) ≡ true
is_empty-drop zero bytes h = h
is_empty-drop (suc n) [] h = refl
is_empty-drop (suc n) (b ∷ bytes) h = cc

receive-IsReady : (d : AsyncDecoder) (buf : Bytes) → IsReady d → IsReady (receive d buf)
unfolding receive enable
receive-IsReady d buf v = ground arith

handle_notify_read-IsReady :
    (bufs : List Bytes) (d : AsyncDecoder) → IsReady d → IsReady (handle_notify_read d bufs)
unfolding handle_notify_read
handle_notify_read-IsReady [] d v = v
handle_notify_read-IsReady (buf ∷ bufs) d v =
    handle_notify_read-IsReady bufs (receive d buf) (receive-IsReady d buf v)

handle_decode_write-IsReady :
    (d : AsyncDecoder) (n : ℕ) → IsReady d → IsReady (handle_decode_write d n)
unfolding handle_decode_write disable
handle_decode_write-IsReady d n v = ground (arith, is_empty-drop n d.decode_wb)

handle_notify_read-decode_wb :
    (bufs : List Bytes) (d : AsyncDecoder)
    → (handle_notify_read d bufs).decode_wb ≡ d.decode_wb ++ concat bufs
unfolding handle_notify_read receive enable
handle_notify_read-decode_wb [] d = sym (append-nil d.decode_wb)
handle_notify_read-decode_wb (buf ∷ bufs) d =
    let first : (receive d buf).decode_wb ≡ d.decode_wb ++ buf = ground arith in
    handle_notify_read-decode_wb bufs (receive d buf)
    ∙ ap (λ z. z ++ concat bufs) first
    ∙ append_assoc d.decode_wb buf (concat bufs)

handle_decode_write-decode_wb :
    (d : AsyncDecoder) (n : ℕ) → (handle_decode_write d n).decode_wb ≡ drop n d.decode_wb
unfolding handle_decode_write disable
handle_decode_write-decode_wb d n = ground arith

-- Whatever threads write, no wakeup is lost: while a message waits, the loop is told of it or is about
-- to be; the loop waits to write exactly while it is decoding, which it is while bytes are left, and
-- it always waits for notifications and for results. The notification socket has room for a byte.
pub Reach-IsAlert :
    (room : ℕ) {s : System} {given : List Bytes} {out : Bytes}
    → 0 < room
    → Reach room s given out
    → IsAlert s
unfolding async_decoder
Reach-IsAlert room h here = ground arith
Reach-IsAlert room h (posted {s = s} buf r) = let v = Reach-IsAlert room h r in ground arith
Reach-IsAlert room h (poked {s = s} p r) = let v = Reach-IsAlert room h r in ground arith
Reach-IsAlert room h (taken {s = s} n r) = let v = Reach-IsAlert room h r in ground arith
Reach-IsAlert room h (notified {s = s} n r) =
    let v = Reach-IsAlert room h r in
    record { decoder = handle_notify_read-IsReady s.mailbox s.decoder v.decoder; wakes = refl }
Reach-IsAlert room h (written {s = s} n m w r) =
    let v = Reach-IsAlert room h r in
    record { decoder = handle_decode_write-IsReady s.decoder n v.decoder; wakes = v.wakes }

-- No byte is lost, doubled or moved: what the decoder's socket took, what is left in the buffer, and
-- the messages that wait are together what was given to `write`, in this order.
pub Reach-flow :
    (room : ℕ) {s : System} {given : List Bytes} {out : Bytes}
    → Reach room s given out
    → out ++ s.decoder.decode_wb ++ concat s.mailbox ≡ concat given
unfolding async_decoder
Reach-flow room here = refl
Reach-flow room (posted {s = s} {given = given} {out = out} buf r) =
    ap (λ z. (out ++ s.decoder.decode_wb) ++ z) (concat-append s.mailbox (buf ∷ []))
    ∙ sym (append_assoc (out ++ s.decoder.decode_wb) (concat s.mailbox) (buf ++ []))
    ∙ ap (λ z. z ++ (buf ++ [])) (Reach-flow room r)
    ∙ sym (concat-append given (buf ∷ []))
Reach-flow room (poked p r) = Reach-flow room r
Reach-flow room (taken n r) = Reach-flow room r
Reach-flow room (notified {s = s} {out = out} n r) =
    append-nil _
    ∙ ap (λ z. out ++ z) (handle_notify_read-decode_wb s.mailbox s.decoder)
    ∙ sym (append_assoc out s.decoder.decode_wb (concat s.mailbox))
    ∙ Reach-flow room r
Reach-flow room (written {s = s} {out = out} n m w r) =
    let wb = s.decoder.decode_wb in
    ap (λ z. z ++ concat s.mailbox)
      (ap (λ z. (out ++ take n wb) ++ z) (handle_decode_write-decode_wb s.decoder n)
        ∙ append_assoc out (take n wb) (drop n wb)
        ∙ ap (λ z. out ++ z) (take-append-drop n wb))
    ∙ Reach-flow room r

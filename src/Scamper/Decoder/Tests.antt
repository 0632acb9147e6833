-- ===== src/Scamper/Decoder/Tests.antt =====
-- A decoder that is given two messages, and the decoder's theorems at it.
use spoki.Prelude.{◌≡◌, ◌++◌, refl, arith, [], ◌∷◌, concat, true, false}
use spoki.Scamper.Decoder.{
  AsyncDecoder, async_decoder, handle_notify_read, handle_decode_write, run, ready,
}
use spoki.Scamper.Decoder.Flow.{
  System, Reach, here, posted, poked, taken, notified, written, IsAlert, Reach-IsAlert, Reach-flow,
}
use spoki.Scamper.Decoder.Opening
use spoki.Scamper.Decoder.Opening.{Calls, make, destroy, make-leaks}

abbrev filled : AsyncDecoder
filled = handle_notify_read async_decoder ((1 ∷ 2 ∷ []) ∷ [])

-- the first message has come, and its first byte is written; the second waits, with its byte
abbrev last : System
last = record {
  decoder = handle_decode_write filled 1;
  mailbox = (3 ∷ []) ∷ [];
  pokes = 0;
  pipe = 1;
  notifying = false;
}

session : Reach 8 last ((1 ∷ 2 ∷ []) ∷ (3 ∷ []) ∷ []) (1 ∷ [])
unfolding async_decoder handle_notify_read handle_decode_write
session = poked (omega arith) (
    posted (3 ∷ []) (
      written 1 refl refl
        (notified refl (taken refl (poked (omega arith) (posted (1 ∷ 2 ∷ []) here))))))

Reach-IsAlert_example : IsAlert last
Reach-IsAlert_example = Reach-IsAlert 8 (omega arith) session

Reach-flow_example :
    (1 ∷ []) ++ last.decoder.decode_wb ++ concat ((3 ∷ []) ∷ [])
    ≡ concat ((1 ∷ 2 ∷ []) ∷ (3 ∷ []) ∷ [])
Reach-flow_example = Reach-flow 8 session

-- all bytes pass in two rounds, and the loop does not wait to write any more
two_rounds :
    run
      (ready true false false ((1 ∷ 2 ∷ []) ∷ []) 0 ∷ ready false true false [] 2 ∷ [])
      async_decoder
    ≡ async_decoder
unfolding run async_decoder
two_rounds = refl

-- the pair of sockets for notifications cannot be opened
abbrev no_pair : Calls
no_pair = record {
  decode_pair = true;
  file_openfd = true;
  decode_nonblock = true;
  filter_alloc = true;
  writebuf_alloc = true;
  notify_pair = false;
  notify_nonblock = true;
}

make-leaks_example :
    let h = (make no_pair).1 in
    ((make no_pair).0 ≡ false)
    × (destroy h ≡ Opening.nothing)
    × (h.decode_in_fd ≡ true)
    × (h.decode_out_fd ≡ true)
    × (h.ffilter ≡ true)
    × (h.decode_wb ≡ true)
make-leaks_example = make-leaks no_pair

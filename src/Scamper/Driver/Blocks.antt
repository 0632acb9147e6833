-- ===== src/Scamper/Driver/Blocks.antt =====
-- The blocks of data that a DATA line announces (spoki/libspoki/src/scamper/driver.cpp).
use spoki.Prelude.{
  ℕ, ◌+◌, ◌<◌, ◌≡◌, refl, ap, ◌∙◌, sym, true, Option, some, List, [], ◌∷◌, ◌++◌, arith, ltb, length,
  append_assoc, append-nil,
}
use spoki.Scamper.{Bytes}
use spoki.Scamper.Driver.{Driver, enable}
use spoki.Scamper.Driver.Replies.{pass_on, handle_data, handle_line, scan}
use spoki.Scamper.Driver.Framing.{no_newline, scan-resume}

-- a block's lines, and the bytes of each
abbrev pub Line : Type 0
Line = Bytes × Bytes

-- the bytes of the lines on the socket, each with its newline
abbrev pub block_size : List Line → ℕ
block_size [] = 0
block_size (l ∷ ls) = length l.0 + 1 + block_size ls

abbrev pub decoded_bytes : List Line → Bytes
decoded_bytes [] = []
decoded_bytes (l ∷ ls) = l.1 ++ decoded_bytes ls

abbrev pub Decodes : (Bytes → Option Bytes) → List Line → Type 0
Decodes uudecode [] = Unit
Decodes uudecode (l ∷ ls) = (uudecode l.0 ≡ some l.1) × Decodes uudecode ls

-- the lines as they stand in the stream
abbrev pub text : List Line → Bytes
text [] = []
text (l ∷ ls) = l.0 ++ 10 ∷ text ls

abbrev pub OneLined : List Line → Type 0
OneLined [] = Unit
OneLined (l ∷ ls) = (no_newline l.0 ≡ true) × OneLined ls

-- the driver after a part of a block: so many bytes are expected, and these were passed on
pub record Passed (d d' : Driver) (bytes : Bytes) (left : ℕ) : Type 0 where
  pub expects : d'.expected_data ≡ left
  pub passed_on : d'.decode_wb ≡ d.decode_wb ++ bytes
  pub same_requests : d'.requests ≡ d.requests
  pub same_more : d'.more ≡ d.more

pass_on-decode_wb :
    (d : Driver) (bytes : Bytes) → (pass_on d bytes).decode_wb ≡ d.decode_wb ++ bytes
unfolding pass_on enable
pass_on-decode_wb d [] = sym (append-nil d.decode_wb)
pass_on-decode_wb d (b ∷ bs) = ground arith

handle_line-Passed :
    (uudecode : Bytes → Option Bytes) (d : Driver) (line bytes following : Bytes) (left : ℕ)
    → uudecode line ≡ some bytes
    → d.expected_data ≡ length line + 1 + left
    → d.expected_data < 18446744073709551616
    → Passed d (handle_line uudecode d line following) bytes left
unfolding handle_line handle_data pass_on enable
handle_line-Passed uudecode d line bytes following left e h w =
    let some_left : ltb 0 d.expected_data ≡ true = ground arith in
    rw (some_left, handle_data, e)
      (record {
        expects = omega arith;
        passed_on = pass_on-decode_wb d bytes;
        same_requests = ground arith;
        same_more = ground arith;
      })

-- A block of data, all of whose lines can be decoded, brings the driver back to reading commands
-- when the sizes of its lines sum to what DATA announced: the decoder gets the decoded bytes in
-- order, and neither requests nor MOREs change.
pub scan-Passed :
    (uudecode : Bytes → Option Bytes) (d : Driver) (ls : List Line)
    → OneLined ls
    → Decodes uudecode ls
    → d.expected_data ≡ block_size ls
    → d.expected_data < 18446744073709551616
    → Passed d (scan uudecode d [] (text ls)) (decoded_bytes ls) 0
unfolding scan
scan-Passed uudecode d [] o c h w = record {
  expects = h;
  passed_on = sym (append-nil d.decode_wb);
  same_requests = refl;
  same_more = refl;
}
scan-Passed uudecode d (l ∷ ls) o c h w =
    let d' = handle_line uudecode d l.0 (text ls) in
    let one = handle_line-Passed uudecode d l.0 l.1 (text ls) (block_size ls) c.0 h w in
    let rest = scan-Passed uudecode d' ls o.1 c.1 one.expects (omega (arith, one.expects, h, w)) in
    rw (scan-resume uudecode d [] l.0 (10 ∷ text ls) o.0) (record {
      expects = rest.expects;
      passed_on =
          rest.passed_on
          ∙ ap (λ x. x ++ decoded_bytes ls) one.passed_on
          ∙ append_assoc d.decode_wb l.1 (decoded_bytes ls);
      same_requests = rest.same_requests ∙ one.same_requests;
      same_more = rest.same_more ∙ one.same_more;
    })

-- ===== src/Scamper/Driver/Framing.antt =====
-- How the stream of scamper's bytes is cut into lines (spoki/libspoki/src/scamper/driver.cpp),
-- whatever pieces it arrives in.
use spoki.Prelude.{
  ℕ, ◌≡◌, refl, ap, ◌∙◌, sym, Bool, true, false, not, ◌&&◌, Option, [], ◌∷◌, ◌++◌, arith, leb, ◌==◌,
  if◌then◌else◌, length, drop, append_assoc, append-nil,
}
use spoki.Scamper.{Bytes}
use spoki.Scamper.Text.{strtoul, strtoul-nul}
use spoki.Scamper.Driver.{Driver, enable}
use spoki.Scamper.Driver.Replies.{
  handle_more, handle_cmd, pass_on, handle_data, handle_line, scan, handle_scamper_read,
}
use spoki.Scamper.Sockets.{received}

-- A line that does not begin with D, or has the five characters of "DATA " at least.
abbrev pub is_framed : Bytes → Bool
is_framed [] = true
is_framed (c ∷ cs) = if c == b'D' then leb 4 (length cs) else true

-- every complete line of a text, behind what is read already, is framed
unfoldable pub all_framed : Bytes → Bytes → Bool
all_framed line [] = true
all_framed line (c ∷ cs) =
    let rest = all_framed (if c == 10 then [] else line ++ c ∷ []) cs in
    if c == 10 then (if is_framed line then rest else false) else rest

drop-append-nul :
    (cs f : Bytes) → leb 4 (length cs) ≡ true → drop 4 (cs ++ 0 ∷ f) ≡ drop 4 cs ++ 0 ∷ f
drop-append-nul (a ∷ b ∷ c ∷ d ∷ cs) f h = refl
drop-append-nul [] f h = ground arith
drop-append-nul (a ∷ []) f h = ground arith
drop-append-nul (a ∷ b ∷ []) f h = ground arith
drop-append-nul (a ∷ b ∷ c ∷ []) f h = ground arith

pub strtoul-framed :
    (cs f g : Bytes)
    → leb 4 (length cs) ≡ true
    → strtoul (drop 4 (cs ++ 0 ∷ f)) ≡ strtoul (drop 4 (cs ++ 0 ∷ g))
strtoul-framed cs f g h =
    rw (drop-append-nul cs f h, drop-append-nul cs g h)
      (strtoul-nul (drop 4 cs) f ∙ sym (strtoul-nul (drop 4 cs) g))

-- what stands behind a line does not matter
handle_line-framed :
    (uudecode : Bytes → Option Bytes) (d : Driver) (line f g : Bytes)
    → is_framed line ≡ true
    → handle_line uudecode d line f ≡ handle_line uudecode d line g
unfolding handle_line handle_cmd
handle_line-framed uudecode d [] f g h = refl
handle_line-framed uudecode d (c ∷ cs) f g h = ground (arith, strtoul-framed cs f g)

-- the buffer is not looked at while a line is handled
handle_line-read_buf :
    (uudecode : Bytes → Option Bytes) (d : Driver) (r line f : Bytes)
    → handle_line uudecode (record d { read_buf = r }) line f
      ≡ record (handle_line uudecode d line f) { read_buf = r }
unfolding handle_line handle_cmd handle_data pass_on handle_more enable
handle_line-read_buf uudecode d r line f = ground arith

scan-read_buf :
    (uudecode : Bytes → Option Bytes) (d : Driver) (r line cs : Bytes)
    → scan uudecode (record d { read_buf = r }) line cs ≡ scan uudecode d line cs
unfolding scan
scan-read_buf uudecode d r line [] = refl
scan-read_buf uudecode d r line (c ∷ cs) =
    let line' = if c == 10 then [] else line ++ c ∷ [] in
    ap (λ z. scan uudecode z line' cs) (ground (arith, handle_line-read_buf uudecode d r line cs))
    ∙ scan-read_buf uudecode (if c == 10 then handle_line uudecode d line cs else d) r line' cs

abbrev pub no_newline : Bytes → Bool
no_newline [] = true
no_newline (c ∷ cs) = not (c == 10) && no_newline cs

no_newline-snoc :
    (cs : Bytes) (c : ℕ)
    → no_newline cs ≡ true
    → (c == 10) ≡ false
    → no_newline (cs ++ c ∷ []) ≡ true
no_newline-snoc [] c h e = ground arith
no_newline-snoc (x ∷ xs) c h e = ground (arith, no_newline-snoc xs c)

pub kept-no_newline :
    (line : Bytes) (c : ℕ)
    → no_newline line ≡ true
    → no_newline (if c == 10 then [] else line ++ c ∷ []) ≡ true
kept-no_newline line c h = by_char (c == 10) refl
  where
    by_char : (b : Bool) → (c == 10) ≡ b → no_newline (if b then [] else line ++ c ∷ []) ≡ true
    by_char true e = refl
    by_char false e = no_newline-snoc line c h e

scan-no_newline :
    (uudecode : Bytes → Option Bytes) (d : Driver) (line cs : Bytes)
    → no_newline line ≡ true
    → no_newline (scan uudecode d line cs).read_buf ≡ true
unfolding scan
scan-no_newline uudecode d line [] h = h
scan-no_newline uudecode d line (c ∷ cs) h =
    scan-no_newline uudecode (if c == 10 then handle_line uudecode d line cs else d)
      (if c == 10 then [] else line ++ c ∷ []) cs (kept-no_newline line c h)

pub scan-resume :
    (uudecode : Bytes → Option Bytes) (d : Driver) (line left cs : Bytes)
    → no_newline left ≡ true
    → scan uudecode d line (left ++ cs) ≡ scan uudecode d (line ++ left) cs
unfolding scan
scan-resume uudecode d line [] cs h = rw (append-nil line) refl
scan-resume uudecode d line (c ∷ left) cs h =
    let e : (c == 10) ≡ false = ground arith in
    let t : no_newline left ≡ true = ground arith in
    rw (scan, e)
      (scan-resume uudecode d (line ++ c ∷ []) left cs t
        ∙ ap (λ l. scan uudecode d l cs) (append_assoc line (c ∷ []) left))

scan-append :
    (uudecode : Bytes → Option Bytes) (d : Driver) (line cs ds : Bytes)
    → all_framed line cs ≡ true
    → scan uudecode d line (cs ++ ds)
      ≡ scan uudecode (scan uudecode d line cs) (scan uudecode d line cs).read_buf ds
unfolding scan all_framed
scan-append uudecode d line [] ds h = sym (scan-read_buf uudecode d line line ds)
scan-append uudecode d line (c ∷ cs) ds h =
    let line' = if c == 10 then [] else line ++ c ∷ [] in
    ap (λ z. scan uudecode z line' (cs ++ ds))
      (ground (arith, handle_line-framed uudecode d line (cs ++ ds) cs))
    ∙ scan-append uudecode (if c == 10 then handle_line uudecode d line cs else d) line' cs ds
        (ground arith)

-- It does not matter how the stream is cut: two read events leave the driver as one event with
-- the bytes of both does, provided each complete line of the first part that begins with D has the
-- five characters before the number of a DATA line.
pub handle_scamper_read-pieces :
    (uudecode : Bytes → Option Bytes) (d : Driver) (b c : ℕ) (bs cs : Bytes)
    → all_framed [] (d.read_buf ++ b ∷ bs) ≡ true
    → handle_scamper_read uudecode
        (handle_scamper_read uudecode d (received (b ∷ bs)))
        (received (c ∷ cs))
      ≡ handle_scamper_read uudecode d (received ((b ∷ bs) ++ c ∷ cs))
unfolding handle_scamper_read
handle_scamper_read-pieces uudecode d b c bs cs h =
    let first = scan uudecode d [] (d.read_buf ++ b ∷ bs) in
    scan-resume uudecode first [] first.read_buf (c ∷ cs)
      (scan-no_newline uudecode d [] (d.read_buf ++ b ∷ bs) refl)
    ∙ sym (scan-append uudecode d [] (d.read_buf ++ b ∷ bs) (c ∷ cs) h)
    ∙ ap (scan uudecode d []) (append_assoc d.read_buf (b ∷ bs) (c ∷ cs))

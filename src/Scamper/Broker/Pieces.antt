-- ===== src/Scamper/Broker/Pieces.antt =====
-- How the stream of a daemon is cut into messages does not matter to the broker
-- (spoki/libspoki/src/scamper/broker.cpp).
use spoki.Prelude.{
  ℕ, zero, suc, ◌≡◌, refl, ap, ◌∙◌, sym, true, false, Option, none, some, List, [], ◌∷◌, ◌++◌,
  arith, ◌==◌, if◌then◌else◌, append-nil, append_assoc,
}
use spoki.Prelude.Eq.{nat_has_eq}
use spoki.Prelude.Assoc.{find, put, find-put}
use spoki.Net.{Address}
use spoki.Scamper.{Bytes}
use spoki.Scamper.Driver.Framing.{
  is_framed, all_framed, no_newline, strtoul-framed, kept-no_newline,
}
use spoki.Scamper.Broker.{
  Instance, BrokerState, Effect, Turn, next_request, send_request, send_loop, send_requests,
}
use spoki.Scamper.Broker.Lines.{
  handle_more, handle_reply, handle_data, handle_line, scan, new_data, instance_of,
}

module _ (print : Address → Bytes) (uudecode : Bytes → Option Bytes) (hdl : ℕ) where
  -- what stands behind a line does not matter
  handle_line-framed :
      (t : Turn) (line f g : Bytes)
      → is_framed line ≡ true
      → handle_line print uudecode hdl t line f ≡ handle_line print uudecode hdl t line g
  unfolding handle_line handle_reply
  handle_line-framed t [] f g h = refl
  handle_line-framed t (c ∷ cs) f g h = ground (arith, strtoul-framed cs f g)

  abbrev buffered : Bytes → Turn → Turn
  buffered r t = record t { si = record t.si { buf = r } }

  -- the buffer is not looked at while a line is handled
  handle_line-buffered :
      (t : Turn) (r line f : Bytes)
      → handle_line print uudecode hdl (buffered r t) line f
        ≡ buffered r (handle_line print uudecode hdl t line f)
  unfolding handle_line handle_reply handle_data handle_more send_requests
  handle_line-buffered t r line f = ground arith

  scan-buffered :
      (t : Turn) (r line cs : Bytes)
      → scan print uudecode hdl (buffered r t) line cs ≡ scan print uudecode hdl t line cs
  unfolding scan
  scan-buffered t r line [] = refl
  scan-buffered t r line (c ∷ cs) =
      let line' = if c == 10 then [] else line ++ c ∷ [] in
      ap (λ z. scan print uudecode hdl z line' cs)
        (ground (arith, handle_line-buffered t r line cs))
      ∙ scan-buffered (if c == 10 then handle_line print uudecode hdl t line cs else t) r line' cs

  scan-no_newline :
      (t : Turn) (line cs : Bytes)
      → no_newline line ≡ true
      → no_newline (scan print uudecode hdl t line cs).si.buf ≡ true
  unfolding scan
  scan-no_newline t line [] h = h
  scan-no_newline t line (c ∷ cs) h =
      scan-no_newline (if c == 10 then handle_line print uudecode hdl t line cs else t)
        (if c == 10 then [] else line ++ c ∷ []) cs (kept-no_newline line c h)

  scan-resume :
      (t : Turn) (line left cs : Bytes)
      → no_newline left ≡ true
      → scan print uudecode hdl t line (left ++ cs) ≡ scan print uudecode hdl t (line ++ left) cs
  unfolding scan
  scan-resume t line [] cs h = rw (append-nil line) refl
  scan-resume t line (c ∷ left) cs h =
      let e : (c == 10) ≡ false = ground arith in
      let h' : no_newline left ≡ true = ground arith in
      rw (scan, e)
        (scan-resume t (line ++ c ∷ []) left cs h'
          ∙ ap (λ l. scan print uudecode hdl t l cs) (append_assoc line (c ∷ []) left))

  scan-append :
      (t : Turn) (line cs ds : Bytes)
      → all_framed line cs ≡ true
      → scan print uudecode hdl t line (cs ++ ds)
        ≡ scan print uudecode hdl
            (scan print uudecode hdl t line cs)
            (scan print uudecode hdl t line cs).si.buf
            ds
  unfolding scan all_framed
  scan-append t line [] ds h = sym (scan-buffered t line line ds)
  scan-append t line (c ∷ cs) ds h =
      let line' = if c == 10 then [] else line ++ c ∷ [] in
      ap (λ z. scan print uudecode hdl z line' (cs ++ ds))
        (ground (arith, handle_line-framed t line (cs ++ ds) cs))
      ∙ scan-append (if c == 10 then handle_line print uudecode hdl t line cs else t) line' cs ds
          (ground arith)

  -- the same turn with other daemons beside it, behind other effects
  abbrev moved : List (ℕ × Instance) → List Effect → Turn → Turn
  moved d o t = record { si = t.si; s = record t.s { daemons = d }; out = o ++ t.out }

  send_loop-moved :
      (d : List (ℕ × Instance)) (n : ℕ) (s : BrokerState)
      → let q = send_loop print hdl n s in
        send_loop print hdl n (record s { daemons = d }) ≡ (record q.0 { daemons = d }, q.1)
  unfolding send_loop send_request next_request
  send_loop-moved d zero s = refl
  send_loop-moved d (suc n) s =
      let once = send_request print hdl s in rw (send_loop-moved d n once.0) refl

  send_requests-moved :
      (d : List (ℕ × Instance)) (o : List Effect) (t : Turn)
      → send_requests print hdl (moved d o t) ≡ moved d o (send_requests print hdl t)
  unfolding send_requests
  send_requests-moved d o t =
      let sent = send_loop print hdl t.si.more t.s in
      rw (send_loop-moved d t.si.more t.s, append_assoc o t.out sent.1) refl

  handle_more-moved :
      (d : List (ℕ × Instance)) (o : List Effect) (t : Turn)
      → handle_more print hdl (moved d o t) ≡ moved d o (handle_more print hdl t)
  unfolding handle_more
  handle_more-moved d o t = send_requests-moved d o _

  handle_data-moved :
      (d : List (ℕ × Instance)) (o : List Effect) (t : Turn) (line : Bytes)
      → handle_data uudecode hdl (moved d o t) line ≡ moved d o (handle_data uudecode hdl t line)
  unfolding handle_data
  handle_data-moved d o t line = decoded (uudecode line) refl
    where
      decoded :
          (x : Option Bytes)
          → uudecode line ≡ x
          → handle_data uudecode hdl (moved d o t) line
            ≡ moved d o (handle_data uudecode hdl t line)
      decoded none e = rw (e, handle_data) refl
      decoded (some []) e = rw (e, handle_data, append_assoc o t.out []) refl
      decoded (some (b ∷ bs)) e =
          rw (e, handle_data, append_assoc o t.out (Effect.decode hdl (b ∷ bs) ∷ [])) refl

  handle_line-moved :
      (d : List (ℕ × Instance)) (o : List Effect) (t : Turn) (line f : Bytes)
      → handle_line print uudecode hdl (moved d o t) line f
        ≡ moved d o (handle_line print uudecode hdl t line f)
  unfolding handle_line handle_reply
  handle_line-moved d o t line f =
      ground (arith, handle_more-moved d o t, handle_data-moved d o t line)

  scan-moved :
      (d : List (ℕ × Instance)) (o : List Effect) (t : Turn) (line cs : Bytes)
      → scan print uudecode hdl (moved d o t) line cs
        ≡ moved d o (scan print uudecode hdl t line cs)
  unfolding scan
  scan-moved d o t line [] = refl
  scan-moved d o t line (c ∷ cs) =
      let line' = if c == 10 then [] else line ++ c ∷ [] in
      ap (λ z. scan print uudecode hdl z line' cs) (ground (arith, handle_line-moved d o t line cs))
      ∙ scan-moved d o (if c == 10 then handle_line print uudecode hdl t line cs else t) line' cs

  put-put : (x y : Instance) (m : List (ℕ × Instance)) → put hdl y (put hdl x m) ≡ put hdl y m
  unfolding put
  put-put x y [] = ground arith
  put-put x y ((k, d) ∷ m) = ground (arith, put-put x y m)

  found-put :
      (s : BrokerState) (si : Instance) (m : List (ℕ × Instance))
      → instance_of hdl (record s { daemons = put hdl si m }) ≡ si
  found-put s si m =
      let found : find hdl (put hdl si m) ≡ some si = ground (arith, find-put hdl hdl si m) in
      rw (instance_of, found) refl

  abbrev with_daemons : BrokerState → List Effect → BrokerState × List Effect
  with_daemons s out = (s, out)

  abbrev turn : Instance → BrokerState → Turn
  turn si s = record { si = si; s = s; out = [] }

  -- The second piece, read by the state that the first one left, is the rest of one reading.
  scan-pieces :
      (s : BrokerState) (bs cs : Bytes)
      → all_framed [] ((instance_of hdl s).buf ++ bs) ≡ true
      → let si = instance_of hdl s in
        let t1 = scan print uudecode hdl (turn si s) [] (si.buf ++ bs) in
        let s1 = record t1.s { daemons = put hdl t1.si s.daemons } in
        scan print uudecode hdl (turn si s) [] (si.buf ++ (bs ++ cs))
        ≡ moved t1.s.daemons t1.out (scan print uudecode hdl (turn t1.si s1) [] (t1.si.buf ++ cs))
  scan-pieces s bs cs h =
      let si = instance_of hdl s in
      let t0 = turn si s in
      let t1 = scan print uudecode hdl t0 [] (si.buf ++ bs) in
      let s1 = record t1.s { daemons = put hdl t1.si s.daemons } in
      let whole : t1 ≡ moved t1.s.daemons t1.out (turn t1.si s1) =
        ap (λ (o : List Effect). record t1 { out = o }) (sym (append-nil t1.out)) in
      ap (scan print uudecode hdl t0 []) (sym (append_assoc si.buf bs cs))
      ∙ scan-append t0 [] (si.buf ++ bs) cs h
      ∙ sym (scan-resume t1 [] t1.si.buf cs (scan-no_newline t0 [] (si.buf ++ bs) refl))
      ∙ ap (λ z. scan print uudecode hdl z [] (t1.si.buf ++ cs)) whole
      ∙ scan-moved t1.s.daemons t1.out (turn t1.si s1) [] (t1.si.buf ++ cs)

  -- It does not matter how the stream is cut: two messages with data leave the broker as one message
  -- with the bytes of both does, and do the same in the same order, provided each complete line up to
  -- the cut that begins with D has the five characters before the number of a DATA line.
  pub new_data-pieces :
      (s : BrokerState) (bs cs : Bytes)
      → all_framed [] ((instance_of hdl s).buf ++ bs) ≡ true
      → let first = new_data print uudecode hdl bs s in
        let second = new_data print uudecode hdl cs first.0 in
        let whole = new_data print uudecode hdl (bs ++ cs) s in
        (second.0 ≡ whole.0) × (first.1 ++ second.1 ≡ whole.1)
  unfolding new_data
  new_data-pieces s bs cs h =
      let si = instance_of hdl s in
      let t1 = scan print uudecode hdl (turn si s) [] (si.buf ++ bs) in
      let s1 = record t1.s { daemons = put hdl t1.si s.daemons } in
      let t2 = scan print uudecode hdl (turn t1.si s1) [] (t1.si.buf ++ cs) in
      let e = scan-pieces s bs cs h in
      let same = ap (λ (z : Turn). record z.s { daemons = put hdl z.si s.daemons }) e in
      let resumed =
        ap
          (λ (i : Instance).
            let t = scan print uudecode hdl (turn i s1) [] (i.buf ++ cs) in
            with_daemons (record t.s { daemons = put hdl t.si s1.daemons }) t.out)
          (found-put t1.s t1.si s.daemons) in
      (
        ap (λ (q : BrokerState × List Effect). q.0) resumed
            ∙ ap (λ (m : List (ℕ × Instance)). record t2.s { daemons = m })
                (put-put t1.si t2.si s.daemons)
            ∙ sym same,
        ap (λ (q : BrokerState × List Effect). t1.out ++ q.1) resumed
            ∙ sym (ap (λ (z : Turn). z.out) e),
      )

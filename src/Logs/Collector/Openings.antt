-- ===== src/Logs/Collector/Openings.antt =====
-- The states after a file is opened (spoki/libspoki/src/collector.cpp).
use spoki.Prelude.{ℕ, ◌+◌, ◌-◌, ◌%◌, ◌≤◌, ◌<◌, ◌≡◌, refl, ap, ◌∙◌, sym, true, ◌⊎◌, inl, inr, arith}
use mathlib.Core.Path.{subst}
use spoki.Prelude.Eq.{nat_has_eq}
use spoki.Prelude.Assoc.{has}
use spoki.Logs.{Bytes, secs_per_hour, align_to_hour}
use spoki.Logs.Collector.{
  Stream, closed, opened, OutFile, Behavior, Disk, CollectorState, stream_write, stream_open,
  open_log_file, log_current, open_last, write_idle, Opening, plain, with_header, rotate, to_last,
  hour_before,
}
use spoki.Logs.Collector.Files.{
  find-stream_write, find-log_current, find-open_last, open_log_file-stream,
}
use spoki.Logs.Collector.Filing.{IsFiled, on_one, on_two, running, hour_file}

-- the current hour after a file is opened for it
log_current-eq :
    (text : Bytes) (unix_ts h : ℕ) (s : CollectorState)
    → s.current_hour.out ≡ closed
    → align_to_hour unix_ts ≡ h
    → log_current text unix_ts s
      ≡ record s { current_hour = hour_file h; disk = (log_current text unix_ts s).disk }
unfolding log_current
log_current-eq text unix_ts h s e a =
    ap (λ (of : OutFile). record s { current_hour = of; disk = (log_current text unix_ts s).disk })
      (open_log_file-stream s.header s.current_hour unix_ts s.disk e ∙ ap hour_file a)

has-log_current :
    (text : Bytes) (unix_ts j : ℕ) (s : CollectorState)
    → s.current_hour.out ≡ closed
    → (align_to_hour unix_ts ≡ j) ⊎ (has j s.disk ≡ true)
    → has j (log_current text unix_ts s).disk ≡ true
unfolding has
has-log_current text unix_ts j s e h = ground (arith, h, find-log_current text unix_ts s j e)

-- the row of the next hour, which rotates
pub next-IsFiled :
    (text : Bytes) (unix_ts c : ℕ) (b : Behavior) (l : Stream) (header : Bytes) (disk : Disk)
    (errors : ℕ)
    → c % secs_per_hour ≡ 0
    → has c disk ≡ true
    → c + secs_per_hour ≤ unix_ts
    → unix_ts < c + secs_per_hour + secs_per_hour
    → IsFiled (record (log_current text unix_ts (rotate (running b c l header disk errors))) {
      behavior = Behavior.two_logs;
    })
next-IsFiled text unix_ts c b l header disk errors a o f g =
    let s = rotate (running b c l header disk errors) in
    let h : align_to_hour unix_ts ≡ c + secs_per_hour = omega arith in
    let k : c + secs_per_hour - secs_per_hour ≡ c = omega arith in
    let d = (log_current text unix_ts s).disk in
    rw (log_current-eq text unix_ts (c + secs_per_hour) s refl h) (
      subst
        (λ z. IsFiled (record s {
          current_hour = hour_file (c + secs_per_hour);
          last_hour = record { start = z; end = c + secs_per_hour; out = opened z };
          behavior = Behavior.two_logs;
          disk = d;
        }))
        k
        (on_two (c + secs_per_hour) header d errors (omega (arith, a)) (omega arith)
          (has-log_current text unix_ts (c + secs_per_hour) s refl (inl h))
          (has-log_current text unix_ts (c + secs_per_hour - secs_per_hour) s refl (inr (rw k o)))))

pub later-IsFiled :
    (text : Bytes) (unix_ts : ℕ) (s : CollectorState)
    → s.current_hour.out ≡ closed
    → s.last_hour.out ≡ closed
    → (let s' = log_current text unix_ts s in
        IsFiled
          (record s' { last_hour = hour_before unix_ts s'.last_hour; behavior = Behavior.one_log }))
later-IsFiled text unix_ts s e f =
    let h = align_to_hour unix_ts in
    let d = (log_current text unix_ts s).disk in
    rw (log_current-eq text unix_ts h s e refl, f)
      (on_one h s.header
        (log_current text unix_ts
          (record s { last_hour = record s.last_hour { out = closed } })).disk
        s.errors (omega arith) (has-log_current text unix_ts h _ e (inl refl)))

-- a row for an open stream
pub has-stream_write :
    (hour j : ℕ) (text : Bytes) (disk : Disk)
    → has j disk ≡ true
    → has j (stream_write (opened hour) text disk) ≡ true
unfolding has
has-stream_write hour j text disk h = ground (arith, h, find-stream_write hour j text disk)

pub write_idle-IsFiled :
    (text : Bytes) (unix_ts : ℕ) (s : CollectorState)
    → s.current_hour.out ≡ closed
    → s.last_hour.out ≡ closed
    → IsFiled (write_idle text unix_ts s)
unfolding write_idle
write_idle-IsFiled text unix_ts s e f = later-IsFiled text unix_ts s e f

-- the file of the last hour is opened: its stream is on the file of the hour before
open_last-eq :
    (opening : Opening) (unix_ts c : ℕ) (header : Bytes) (disk : Disk) (errors : ℕ)
    → c % secs_per_hour ≡ 0
    → c - secs_per_hour ≤ unix_ts
    → unix_ts < c
    → (let s = running Behavior.one_log c closed header disk errors in
        open_last opening unix_ts s ≡ record s {
          last_hour = record s.last_hour { out = opened (c - secs_per_hour) };
          disk = (open_last opening unix_ts s).disk;
        })
unfolding open_last stream_open open_log_file
open_last-eq plain unix_ts c header disk errors a f g =
    let h : align_to_hour unix_ts ≡ c - secs_per_hour = omega arith in
    let s = running Behavior.one_log c closed header disk errors in
    ap
      (λ z. record (open_last plain unix_ts s) {
        last_hour = record s.last_hour { out = opened z };
      })
      h
open_last-eq with_header unix_ts c header disk errors a f g =
    let h : align_to_hour unix_ts ≡ c - secs_per_hour = omega arith in
    let k : c - secs_per_hour + secs_per_hour ≡ c = omega arith in
    let s = running Behavior.one_log c closed header disk errors in
    ap (λ z. record (open_last with_header unix_ts s) { last_hour = hour_file z }) h
    ∙ ap
        (λ z. record (open_last with_header unix_ts s) {
          last_hour = record s.last_hour { end = z; out = opened (c - secs_per_hour) };
        })
        k

has-open_last :
    (opening : Opening) (text : Bytes) (unix_ts j : ℕ) (s : CollectorState)
    → s.last_hour.out ≡ closed
    → (align_to_hour unix_ts ≡ j) ⊎ (has j s.disk ≡ true)
    → has j (to_last text (open_last opening unix_ts s)).disk ≡ true
unfolding has
has-open_last opening text unix_ts j s e h =
    ground (arith, h, find-open_last opening text unix_ts s j e)

pub last-IsFiled :
    (opening : Opening) (text : Bytes) (unix_ts c : ℕ) (header : Bytes) (disk : Disk) (errors : ℕ)
    → c % secs_per_hour ≡ 0
    → has c disk ≡ true
    → c - secs_per_hour ≤ unix_ts
    → unix_ts < c
    → (let s = running Behavior.one_log c closed header disk errors in
        IsFiled
          (record (to_last text (open_last opening unix_ts s)) { behavior = Behavior.two_logs }))
last-IsFiled opening text unix_ts c header disk errors a o f g =
    let s = running Behavior.one_log c closed header disk errors in
    let e = open_last-eq opening unix_ts c header disk errors a f g in
    let d = (to_last text (open_last opening unix_ts s)).disk in
    subst (λ (z : CollectorState). IsFiled (record z { behavior = Behavior.two_logs; disk = d }))
      (sym e)
      (on_two c header d errors a (omega arith)
        (has-open_last opening text unix_ts c s refl (inr o))
        (has-open_last opening text unix_ts (c - secs_per_hour) s refl (inl (omega arith))))

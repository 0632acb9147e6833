-- ===== src/Logs/Collector/States.antt =====
-- The collector stays in the states that its behaviors expect (spoki/libspoki/src/collector.cpp).
use spoki.Prelude.{
  ℕ, ◌+◌, ◌-◌, ◌%◌, ◌≤◌, ◌≡◌, refl, true, ◌&&◌, List, [], ◌∷◌, ◌++◌, arith, ltb, leb, if-cases,
}
use spoki.Prelude.Eq.{nat_has_eq}
use spoki.Prelude.Assoc.{has}
use spoki.Logs.{Bytes, secs_per_hour}
use spoki.Logs.Collector.{
  closed, opened, Behavior, Disk, CollectorState, stream_write, write_one_log, write_two_logs,
  Opening, plain, with_header, Message, row, buffered, done, handle, within, write, close,
  collector, unopened,
}
use spoki.Logs.Collector.Filing.{
  IsFiled, starting, on_one, on_two, gone, running, stopped, hour_file,
}
use spoki.Logs.Collector.Openings.{
  next-IsFiled, later-IsFiled, has-stream_write, last-IsFiled, write_idle-IsFiled,
}

pub write_one_log-IsFiled :
    (opening : Opening) (text : Bytes) (unix_ts c : ℕ) (header : Bytes) (disk : Disk) (errors : ℕ)
    → c % secs_per_hour ≡ 0
    → has c disk ≡ true
    → IsFiled
        (write_one_log opening text unix_ts (running Behavior.one_log c closed header disk errors))
unfolding write_one_log
write_one_log-IsFiled opening text unix_ts c header disk errors a o =
    if-cases IsFiled (within (hour_file c) unix_ts)
      (λ h.
        on_one c header (stream_write (opened c) text disk) errors a
          (has-stream_write c c text disk o))
      (λ h.
        if-cases IsFiled (leb (c + secs_per_hour) unix_ts)
          (λ h1.
            if-cases IsFiled (ltb unix_ts (c + secs_per_hour + secs_per_hour))
              (λ h2.
                next-IsFiled text unix_ts c Behavior.one_log closed header disk errors a o
                  (ground arith) (ground arith))
              (λ h2.
                let s = running Behavior.one_log c closed header disk errors in
                later-IsFiled text unix_ts (record s { current_hour = close s.current_hour }) refl
                  refl))
          (λ h1.
            if-cases IsFiled (leb (c - secs_per_hour) unix_ts && ltb unix_ts c)
              (λ h2.
                last-IsFiled opening text unix_ts c header disk errors a o (ground arith)
                  (ground arith))
              (λ h2. on_one c header disk (errors + 1) a o)))

pub write_two_logs-IsFiled :
    (text : Bytes) (unix_ts c : ℕ) (header : Bytes) (disk : Disk) (errors : ℕ)
    → c % secs_per_hour ≡ 0
    → secs_per_hour ≤ c
    → has c disk ≡ true
    → has (c - secs_per_hour) disk ≡ true
    → IsFiled (
        write_two_logs text unix_ts
          (running Behavior.two_logs c (opened (c - secs_per_hour)) header disk errors))
unfolding write_two_logs
write_two_logs-IsFiled text unix_ts c header disk errors a l o q =
    if-cases IsFiled (within (hour_file c) unix_ts)
      (λ h.
        on_two c header (stream_write (opened c) text disk) errors a l
          (has-stream_write c c text disk o) (has-stream_write c (c - secs_per_hour) text disk q))
      (λ h.
        if-cases IsFiled (leb (c - secs_per_hour) unix_ts && ltb unix_ts c)
          (λ h1.
            on_two c header (stream_write (opened (c - secs_per_hour)) text disk) errors a l
              (has-stream_write (c - secs_per_hour) c text disk o)
              (has-stream_write (c - secs_per_hour) (c - secs_per_hour) text disk q))
          (λ h1.
            if-cases IsFiled (leb (c + secs_per_hour) unix_ts)
              (λ h2.
                if-cases IsFiled (ltb unix_ts (c + secs_per_hour + secs_per_hour))
                  (λ h3.
                    next-IsFiled text unix_ts c Behavior.two_logs (opened (c - secs_per_hour))
                      header disk errors a o (ground arith) (ground arith))
                  (λ h3.
                    let s =
                      running Behavior.two_logs c (opened (c - secs_per_hour)) header disk errors in
                    later-IsFiled text unix_ts
                      (record s {
                        current_hour = close s.current_hour;
                        last_hour = close s.last_hour;
                      })
                      refl refl))
              (λ h2. on_two c header disk (errors + 1) a l o q)))

write-IsFiled :
    (opening : Opening) (text : Bytes) (unix_ts : ℕ) (s : CollectorState)
    → IsFiled s
    → IsFiled (write opening text unix_ts s)
write-IsFiled opening text unix_ts _ (starting current last header disk errors) =
    write_idle-IsFiled text unix_ts (stopped Behavior.idle current last header disk errors) refl
      refl
write-IsFiled opening text unix_ts _ (on_one c header disk errors a b) =
    write_one_log-IsFiled opening text unix_ts c header disk errors a b
write-IsFiled opening text unix_ts _ (on_two c header disk errors a l b d) =
    write_two_logs-IsFiled text unix_ts c header disk errors a l b d
write-IsFiled opening text unix_ts _ (gone current last header disk errors) =
    gone current last header disk errors

handle-IsFiled : (m : Message) (s : CollectorState) → IsFiled s → IsFiled (handle m s)
unfolding handle
handle-IsFiled (row line unix_ts) s v = write-IsFiled plain (line ++ 10 ∷ []) unix_ts s v
handle-IsFiled (buffered buf unix_ts) s v = write-IsFiled with_header buf unix_ts s v
handle-IsFiled done _ (starting current last header disk errors) =
    gone (close current) (close last) header disk errors
handle-IsFiled done _ (on_one c header disk errors a b) =
    gone (hour_file c) (record { start = c - secs_per_hour; end = c; out = closed }) header disk
      errors
handle-IsFiled done _ (on_two c header disk errors a l b d) =
    gone (hour_file c) (record { start = c - secs_per_hour; end = c; out = closed }) header disk
      errors
handle-IsFiled done _ (gone current last header disk errors) = gone current last header disk errors

-- the messages of a run, in order
unfoldable pub handle_all : List Message → CollectorState → CollectorState
handle_all [] s = s
handle_all (m ∷ ms) s = handle_all ms (handle m s)

handle_all-from : (ms : List Message) (s : CollectorState) → IsFiled s → IsFiled (handle_all ms s)
unfolding handle_all
handle_all-from [] s v = v
handle_all-from (m ∷ ms) s v = handle_all-from ms (handle m s) (handle-IsFiled m s v)

-- Whatever messages a collector gets, it is idle or ended, with no stream open, or it is running: then
-- its windows are two whole hours next to each other, the stream of the current hour is open, and that
-- of the last hour while there are two logs, each on the file of its hour, which exists. (In the first
-- hour of the epoch the window of the last hour is empty here.) No stream is broken by opening a file
-- on it while it is open.
pub handle_all-IsFiled :
    (ms : List Message) (header : Bytes) (disk : Disk)
    → IsFiled (handle_all ms (collector header disk))
unfolding collector
handle_all-IsFiled ms header disk =
    handle_all-from ms (collector header disk) (starting unopened unopened header disk 0)

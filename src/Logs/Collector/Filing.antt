-- ===== src/Logs/Collector/Filing.antt =====
-- What the collector writes where (spoki/libspoki/src/collector.cpp): each row goes to the file of
-- its hour, until it is older than the last hour.
use spoki.Prelude.{
  ℕ, ◌+◌, ◌-◌, ◌%◌, ◌≤◌, ◌<◌, ◌≡◌, refl, Bool, true, false, ◌&&◌, some, ◌++◌, arith, leb, ◌==◌,
  if◌then◌else◌,
}
use spoki.Prelude.Eq.{nat_has_eq}
use spoki.Prelude.Assoc.{find, has}
use spoki.Logs.{Bytes, secs_per_hour, align_to_hour}
use spoki.Logs.Collector.{
  Stream, closed, opened, OutFile, Behavior, Disk, CollectorState, contents, write_idle,
  write_one_log, write_two_logs, Opening, within, write, rotate, close,
}
use spoki.Logs.Collector.Files.{
  extended, has_header, find-stream_write, find-log_current, find-open_last,
}

abbrev pub hour_file : ℕ → OutFile
hour_file h = record { start = h; end = h + secs_per_hour; out = opened h }

-- running on the file of hour `c`, with the hour before on the stream `l`
abbrev pub running : Behavior → ℕ → Stream → Bytes → Disk → ℕ → CollectorState
running b c l header disk errors = record {
  current_hour = hour_file c;
  last_hour = record { start = c - secs_per_hour; end = c; out = l };
  header = header;
  behavior = b;
  disk = disk;
  errors = errors;
}

-- with both streams closed
abbrev pub stopped : Behavior → OutFile → OutFile → Bytes → Disk → ℕ → CollectorState
stopped b current last header disk errors = record {
  current_hour = close current;
  last_hour = close last;
  header = header;
  behavior = b;
  disk = disk;
  errors = errors;
}

-- The states that a collector is in: idle or ended, with no stream open and whatever windows; or
-- running, where the windows are two whole hours next to each other, and the stream of the current hour,
-- or both, are open on the files of these hours, which exist.
pub data IsFiled : CollectorState → Type 0 where
  starting :
      (current last : OutFile) (header : Bytes) (disk : Disk) (errors : ℕ)
      → IsFiled (stopped Behavior.idle current last header disk errors)
  on_one :
      (c : ℕ) (header : Bytes) (disk : Disk) (errors : ℕ)
      → c % secs_per_hour ≡ 0
      → has c disk ≡ true
      → IsFiled (running Behavior.one_log c closed header disk errors)
  on_two :
      (c : ℕ) (header : Bytes) (disk : Disk) (errors : ℕ)
      → c % secs_per_hour ≡ 0
      → secs_per_hour ≤ c
      → has c disk ≡ true
      → has (c - secs_per_hour) disk ≡ true
      → IsFiled (running Behavior.two_logs c (opened (c - secs_per_hour)) header disk errors)
  gone :
      (current last : OutFile) (header : Bytes) (disk : Disk) (errors : ℕ)
      → IsFiled (stopped Behavior.terminated current last header disk errors)

-- what is not older than the last hour is written
abbrev pub accepts : CollectorState → ℕ → Bool
accepts s unix_ts = elim s.behavior [
  | Behavior.idle ↦ true
  | Behavior.terminated ↦ false
  | _ ↦ leb s.last_hour.start unix_ts
]

-- a new file has a header, but for the file of the last hour that a plain row creates
abbrev pub headed : Opening → CollectorState → ℕ → Bool
headed opening s unix_ts = elim s.behavior [
  | Behavior.one_log ↦ if within s.last_hour unix_ts then has_header opening else true
  | _ ↦ true
]

-- the file of the hour gets the text, and all others stay as they were
abbrev pub Filed : Opening → Bytes → ℕ → CollectorState → CollectorState → Type 0
Filed opening text unix_ts s s' =
    (j : ℕ)
    → find j s'.disk ≡ (
        let hour = align_to_hour unix_ts in
        if accepts s unix_ts && hour == j
        then some (extended (find hour s.disk) (headed opening s unix_ts) s.header text)
        else find j s.disk)

pub align-within :
    (c ts : ℕ) → c % secs_per_hour ≡ 0 → c ≤ ts → ts < c + secs_per_hour → align_to_hour ts ≡ c
align-within c ts a b d = omega arith

-- a file that exists is extended without its header
extended-existing :
    (hour : ℕ) (disk : Disk) (with : Bool) (header text : Bytes)
    → has hour disk ≡ true
    → extended (find hour disk) with header text ≡ contents hour disk ++ text
unfolding has contents
extended-existing hour disk with header text h = ground arith

one_log-Filed :
    (opening : Opening) (text : Bytes) (unix_ts c : ℕ) (header : Bytes) (disk : Disk) (errors : ℕ)
    → c % secs_per_hour ≡ 0
    → has c disk ≡ true
    → (let s = running Behavior.one_log c closed header disk errors in
        Filed opening text unix_ts s (write_one_log opening text unix_ts s))
unfolding write_one_log
one_log-Filed opening text unix_ts c header disk errors a b j =
    let s = running Behavior.one_log c closed header disk errors in
    ground (
      arith,
      align-within c unix_ts a,
      extended-existing c disk true header text b,
      find-stream_write c j text disk,
      find-log_current text unix_ts
          (record s { current_hour = record s.current_hour { out = closed } }) j refl,
      find-log_current text unix_ts
          (record s {
            current_hour = record s.current_hour { out = closed };
            last_hour = s.current_hour;
          })
          j refl,
      find-open_last opening text unix_ts s j refl,
    )

two_logs-Filed :
    (opening : Opening) (text : Bytes) (unix_ts c : ℕ) (header : Bytes) (disk : Disk) (errors : ℕ)
    → c % secs_per_hour ≡ 0
    → secs_per_hour ≤ c
    → has c disk ≡ true
    → has (c - secs_per_hour) disk ≡ true
    → (let s = running Behavior.two_logs c (opened (c - secs_per_hour)) header disk errors in
        Filed opening text unix_ts s (write_two_logs text unix_ts s))
unfolding write_two_logs
two_logs-Filed opening text unix_ts c header disk errors a l b d j =
    let s = running Behavior.two_logs c (opened (c - secs_per_hour)) header disk errors in
    let before = c - secs_per_hour in
    ground (
      arith,
      align-within c unix_ts a,
      align-within before unix_ts (omega (arith, a)),
      extended-existing c disk true header text b,
      extended-existing before disk true header text d,
      find-stream_write c j text disk,
      find-stream_write before j text disk,
      find-log_current text unix_ts (rotate s) j refl,
      find-log_current text unix_ts
          (record s { current_hour = close s.current_hour; last_hour = close s.last_hour }) j refl,
    )

idle-Filed :
    (opening : Opening) (text : Bytes) (unix_ts : ℕ) (s : CollectorState)
    → accepts s unix_ts ≡ true
    → headed opening s unix_ts ≡ true
    → s.current_hour.out ≡ closed
    → Filed opening text unix_ts s (write_idle text unix_ts s)
unfolding write_idle
idle-Filed opening text unix_ts s e h f j = rw (e, h) (find-log_current text unix_ts s j f)

-- A row or buffer that is not older than the last hour is appended to the file of its hour, behind
-- the header if the file is new, except that a plain row that creates the file of the last hour
-- writes no header; every other file stays as it was. What is older, or comes after the end,
-- changes no file.
pub write-Filed :
    (opening : Opening) (text : Bytes) (unix_ts : ℕ) (s : CollectorState)
    → IsFiled s
    → Filed opening text unix_ts s (write opening text unix_ts s)
write-Filed opening text unix_ts _ (starting current last header disk errors) j =
    idle-Filed opening text unix_ts (stopped Behavior.idle current last header disk errors) refl
      refl refl j
write-Filed opening text unix_ts _ (on_one c header disk errors a b) j =
    one_log-Filed opening text unix_ts c header disk errors a b j
write-Filed opening text unix_ts _ (on_two c header disk errors a l b d) j =
    two_logs-Filed opening text unix_ts c header disk errors a l b d j
write-Filed opening text unix_ts _ (gone current last header disk errors) j = refl

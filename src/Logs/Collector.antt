-- ===== src/Logs/Collector.antt =====
-- `collector_state` and its three behaviors (spoki/libspoki/src/collector.cpp): rows go to one file
-- per hour, over a disk that maps the hour in a file's name to its contents.
pub mod Files
pub mod Filing
pub mod Openings
pub mod States
mod Tests
use spoki.Prelude.{
  ℕ, ◌+◌, ◌-◌, Bool, true, false, not, ◌&&◌, Option, none, some, List, [], ◌∷◌, ◌++◌, ltb, leb,
  if◌then◌else◌,
}
use spoki.Prelude.Eq.{nat_has_eq}
use spoki.Prelude.Assoc.{find, has, put}
use spoki.Logs.{Bytes, secs_per_hour, align_to_hour}

-- A `std::ofstream`: closed, open on the file of an hour, or open with its failbit set, which is
-- what `open` does on a stream that is open; then all writes are dropped.
pub data Stream : Type 0 where
  closed : Stream
  opened : ℕ → Stream
  broken : Stream

pub record OutFile : Type 0 where
  pub start : ℕ
  pub end : ℕ
  pub out : Stream

-- the behavior that the actor has become
pub data Behavior : Type 0 where
  idle one_log two_logs terminated : Behavior

-- the files by the hour in their name
abbrev pub Disk : Type 0
Disk = List (ℕ × Bytes)

-- `ERR unexpected timestamp` messages are counted
pub record CollectorState : Type 0 where
  pub current_hour : OutFile
  pub last_hour : OutFile
  pub header : Bytes
  pub behavior : Behavior
  pub disk : Disk
  pub errors : ℕ

abbrev pub unopened : OutFile
unopened = record { start = 0; end = 0; out = closed }

-- `collector`, which starts idle on the disk as it is
unfoldable pub collector : Bytes → Disk → CollectorState
collector header disk = record {
  current_hour = unopened;
  last_hour = unopened;
  header = header;
  behavior = Behavior.idle;
  disk = disk;
  errors = 0;
}

-- what a file holds, nothing while it does not exist
unfoldable pub contents : ℕ → Disk → Bytes
unfolding find
contents hour disk = elim (find hour disk) [ none ↦ [] | some text ↦ text ]

-- `write` and `<<` on a stream
unfoldable pub stream_write : Stream → Bytes → Disk → Disk
unfolding contents put
stream_write (opened hour) text disk = put hour (contents hour disk ++ text) disk
stream_write closed text disk = disk
stream_write broken text disk = disk

-- `open` with `out | app`: a file that is missing is created
unfoldable pub stream_open : Stream → ℕ → Disk → Stream × Disk
unfolding has put
stream_open closed hour disk = (opened hour, (if has hour disk then disk else put hour [] disk))
stream_open (opened h) hour disk = (broken, disk)
stream_open broken hour disk = (broken, disk)

-- `open_log_file`
unfoldable pub open_log_file : Bytes → OutFile → ℕ → Disk → OutFile × Disk
unfolding stream_open stream_write has
open_log_file header of unix_ts disk =
    let hour = align_to_hour unix_ts in
    let (stream, created) = stream_open of.out hour disk in
    (
      record { start = hour; end = hour + secs_per_hour; out = stream },
      (if has hour disk then created else stream_write stream header created),
    )

-- open `current_hour` and log there
unfoldable pub log_current : Bytes → ℕ → CollectorState → CollectorState
unfolding open_log_file stream_write
log_current text unix_ts s =
    let (of, disk) = open_log_file s.header s.current_hour unix_ts s.disk in
    record s { current_hour = of; disk = stream_write of.out text disk }

-- `last_hour` becomes the hour before the one of the time stamp
abbrev pub hour_before : ℕ → OutFile → OutFile
hour_before unix_ts of = record of {
  start = align_to_hour unix_ts - secs_per_hour;
  end = align_to_hour unix_ts;
}

unfoldable pub write_idle : Bytes → ℕ → CollectorState → CollectorState
unfolding log_current
write_idle text unix_ts s =
    let s' = log_current text unix_ts s in
    record s' { last_hour = hour_before unix_ts s'.last_hour; behavior = Behavior.one_log }

-- `last_hour` takes over the file of `current_hour`, whose stream is moved away
abbrev pub rotate : CollectorState → CollectorState
rotate s = record s {
  last_hour = s.current_hour;
  current_hour = record s.current_hour { out = closed };
}

abbrev pub close : OutFile → OutFile
close of = record of { out = closed }

abbrev pub within : OutFile → ℕ → Bool
within of unix_ts = leb of.start unix_ts && ltb unix_ts of.end

-- How the file of the last hour is opened: the plain rows open the stream by hand, with no header.
pub data Opening : Type 0 where
  plain with_header : Opening

unfoldable pub open_last : Opening → ℕ → CollectorState → CollectorState
unfolding stream_open open_log_file
open_last plain unix_ts s =
    let (stream, disk) = stream_open s.last_hour.out (align_to_hour unix_ts) s.disk in
    record s { last_hour = record s.last_hour { out = stream }; disk = disk }
open_last with_header unix_ts s =
    let (of, disk) = open_log_file s.header s.last_hour unix_ts s.disk in
    record s { last_hour = of; disk = disk }

abbrev pub to_current : Bytes → CollectorState → CollectorState
to_current text s = record s { disk = stream_write s.current_hour.out text s.disk }

abbrev pub to_last : Bytes → CollectorState → CollectorState
to_last text s = record s { disk = stream_write s.last_hour.out text s.disk }

-- `write_one_log`, with either opening
unfoldable pub write_one_log : Opening → Bytes → ℕ → CollectorState → CollectorState
unfolding log_current open_last stream_write
write_one_log opening text unix_ts s =
    let later = log_current text unix_ts (record s { current_hour = close s.current_hour }) in
    if within s.current_hour unix_ts
    then to_current text s
    else if leb s.current_hour.end unix_ts
    then (if ltb unix_ts (s.current_hour.end + secs_per_hour)
        then record (log_current text unix_ts (rotate s)) { behavior = Behavior.two_logs }
        else record later { last_hour = hour_before unix_ts later.last_hour })
    else if within s.last_hour unix_ts
    then record (to_last text (open_last opening unix_ts s)) { behavior = Behavior.two_logs }
    else record s { errors = s.errors + 1 }

unfoldable pub write_two_logs : Bytes → ℕ → CollectorState → CollectorState
unfolding log_current stream_write
write_two_logs text unix_ts s =
    let later =
      log_current text unix_ts
        (record s { current_hour = close s.current_hour; last_hour = close s.last_hour }) in
    if within s.current_hour unix_ts
    then to_current text s
    else if within s.last_hour unix_ts
    then to_last text s
    else if leb s.current_hour.end unix_ts
    then (if ltb unix_ts (s.current_hour.end + secs_per_hour)
        then log_current text unix_ts (rotate s)
        else record later {
          last_hour = hour_before unix_ts later.last_hour;
          behavior = Behavior.one_log;
        })
    else record s { errors = s.errors + 1 }

-- The messages: a row, which ends in a newline, the buffer of rows, and `done`.
pub data Message : Type 0 where
  row buffered : Bytes → ℕ → Message
  done : Message

abbrev pub write : Opening → Bytes → ℕ → CollectorState → CollectorState
write opening text unix_ts s = elim s.behavior [
  | Behavior.idle ↦ write_idle text unix_ts s
  | Behavior.one_log ↦ write_one_log opening text unix_ts s
  | Behavior.two_logs ↦ write_two_logs text unix_ts s
  | Behavior.terminated ↦ s
]

-- the buffered writes, which differ in the opening of the file of the last hour only
abbrev pub buffered_write_idle : Bytes → ℕ → CollectorState → CollectorState
buffered_write_idle buf unix_ts s = write_idle buf unix_ts s

abbrev pub buffered_write_one_log : Bytes → ℕ → CollectorState → CollectorState
buffered_write_one_log buf unix_ts s = write_one_log with_header buf unix_ts s

abbrev pub buffered_write_two_logs : Bytes → ℕ → CollectorState → CollectorState
buffered_write_two_logs buf unix_ts s = write_two_logs buf unix_ts s

-- `collector_idle`, `running_one_log` and `running_two_logs`
unfoldable pub handle : Message → CollectorState → CollectorState
unfolding write_idle write_one_log write_two_logs
handle (row line unix_ts) s = write plain (line ++ 10 ∷ []) unix_ts s
handle (buffered buf unix_ts) s = elim s.behavior [
  | Behavior.idle ↦ buffered_write_idle buf unix_ts s
  | Behavior.one_log ↦ buffered_write_one_log buf unix_ts s
  | Behavior.two_logs ↦ buffered_write_two_logs buf unix_ts s
  | Behavior.terminated ↦ s
]
handle done s = elim s.behavior [
  | Behavior.terminated ↦ s
  | _ ↦ record s {
    current_hour = close s.current_hour;
    last_hour = close s.last_hour;
    behavior = Behavior.terminated;
  }
]

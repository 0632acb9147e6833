-- ===== src/Logs/Collector/Files.antt =====
-- What opening a file and writing to it leaves on the disk (spoki/libspoki/src/collector.cpp).
use spoki.Prelude.{
  ℕ, ◌+◌, ◌≡◌, refl, ap, ◌∙◌, Bool, true, false, Option, none, some, [], ◌++◌, arith, ◌==◌,
  if◌then◌else◌, append-nil,
}
use spoki.Prelude.Eq.{nat_has_eq}
use spoki.Prelude.Assoc.{find, has, put, find-put}
use spoki.Logs.{Bytes, secs_per_hour, align_to_hour}
use spoki.Logs.Collector.{
  closed, opened, OutFile, Disk, CollectorState, contents, stream_write, stream_open, open_log_file,
  log_current, open_last, Opening, plain, with_header,
}

-- the contents of a file after a row, with the header in front of a new file if it is asked for
abbrev pub extended : Option Bytes → Bool → Bytes → Bytes → Bytes
extended none with header text = (if with then header else []) ++ text
extended (some old) with header text = old ++ text

abbrev pub has_header : Opening → Bool
has_header plain = false
has_header with_header = true

pub find-stream_write :
    (hour j : ℕ) (text : Bytes) (disk : Disk)
    → find j (stream_write (opened hour) text disk)
      ≡ (if hour == j then some (contents hour disk ++ text) else find j disk)
unfolding stream_write
find-stream_write hour j text disk = find-put hour j (contents hour disk ++ text) disk

pub contents-find :
    (hour : ℕ) (disk : Disk) (old : Bytes) → find hour disk ≡ some old → contents hour disk ≡ old
unfolding contents
contents-find hour disk old q = rw (contents, q) refl

-- a closed stream is opened, and a file that is missing gets its header
pub open_log_file-stream :
    (header : Bytes) (of : OutFile) (unix_ts : ℕ) (disk : Disk)
    → of.out ≡ closed
    → (open_log_file header of unix_ts disk).0 ≡ record {
      start = align_to_hour unix_ts;
      end = align_to_hour unix_ts + secs_per_hour;
      out = opened (align_to_hour unix_ts);
    }
unfolding open_log_file stream_open
open_log_file-stream header of unix_ts disk e = rw e refl

find-open_log_file :
    (header : Bytes) (of : OutFile) (unix_ts : ℕ) (disk : Disk) (j : ℕ)
    → of.out ≡ closed
    → find j (open_log_file header of unix_ts disk).1 ≡ (
        if align_to_hour unix_ts == j
        then some (extended (find (align_to_hour unix_ts) disk) true header [])
        else find j disk)
unfolding open_log_file stream_open stream_write contents has
find-open_log_file header of unix_ts disk j e = rw e (by_file (find hour disk) refl)
  where
    hour : ℕ
    hour = align_to_hour unix_ts

    by_file :
        (o : Option Bytes)
        → find hour disk ≡ o
        → find j (
            if has hour disk
            then (if has hour disk then disk else put hour [] disk)
            else put hour
                (contents hour (if has hour disk then disk else put hour [] disk) ++ header)
                (if has hour disk then disk else put hour [] disk))
          ≡ (if hour == j then some (extended (find hour disk) true header []) else find j disk)
    by_file none q =
        let missing : has hour disk ≡ false = rw (has, q) refl in
        let created : contents hour (put hour [] disk) ≡ [] =
          contents-find hour (put hour [] disk) [] (ground (arith, find-put hour hour [] disk)) in
        rw (missing, created, q)
          (ground (
            arith,
            append-nil header,
            find-put hour j ([] ++ header) (put hour [] disk),
            find-put hour j [] disk,
          ))
    by_file (some old) q =
        let there : has hour disk ≡ true = rw (has, q) refl in
        rw (there, q) (ground (arith, append-nil old))

extended-append :
    (o : Option Bytes) (header text : Bytes)
    → extended o true header [] ++ text ≡ extended o true header text
extended-append none header text = rw (append-nil header) refl
extended-append (some old) header text = rw (append-nil old) refl

-- a row behind an opened file
find-opened :
    (header text : Bytes) (of : OutFile) (unix_ts : ℕ) (disk : Disk) (j : ℕ)
    → of.out ≡ closed
    → find j (
        stream_write
          (open_log_file header of unix_ts disk).0.out
          text
          (open_log_file header of unix_ts disk).1)
      ≡ (if align_to_hour unix_ts == j
          then some (extended (find (align_to_hour unix_ts) disk) true header text)
          else find j disk)
find-opened header text of unix_ts disk j e =
    let hour = align_to_hour unix_ts in
    let o = find hour disk in
    let disk' = (open_log_file header of unix_ts disk).1 in
    let held : contents hour disk' ≡ extended o true header [] =
      contents-find hour disk' (extended o true header [])
        (ground (arith, find-open_log_file header of unix_ts disk hour e)) in
    ap (λ (of : OutFile). find j (stream_write of.out text disk'))
      (open_log_file-stream header of unix_ts disk e)
    ∙ find-stream_write hour j text disk'
    ∙ rw (held, extended-append o header text)
        (ground (arith, find-open_log_file header of unix_ts disk j e))

pub find-log_current :
    (text : Bytes) (unix_ts : ℕ) (s : CollectorState) (j : ℕ)
    → s.current_hour.out ≡ closed
    → find j (log_current text unix_ts s).disk ≡ (
        if align_to_hour unix_ts == j
        then some (extended (find (align_to_hour unix_ts) s.disk) true s.header text)
        else find j s.disk)
unfolding log_current
find-log_current text unix_ts s j e = find-opened s.header text s.current_hour unix_ts s.disk j e

created_file : ℕ → Disk → Disk
created_file hour disk = if has hour disk then disk else put hour [] disk

find-created_file :
    (hour j : ℕ) (header text : Bytes) (disk : Disk)
    → find j (stream_write (opened hour) text (created_file hour disk))
      ≡ (if hour == j then some (extended (find hour disk) false header text) else find j disk)
unfolding created_file has
find-created_file hour j header text disk =
    find-stream_write hour j text (created_file hour disk) ∙ by_file (find hour disk) refl
  where
    by_file :
        (o : Option Bytes)
        → find hour disk ≡ o
        → (if hour == j
            then some (contents hour (created_file hour disk) ++ text)
            else find j (created_file hour disk))
          ≡ (if hour == j then some (extended (find hour disk) false header text) else find j disk)
    by_file none q =
        let missing : has hour disk ≡ false = rw (has, q) refl in
        let created : contents hour (put hour [] disk) ≡ [] =
          contents-find hour (put hour [] disk) [] (ground (arith, find-put hour hour [] disk)) in
        rw (missing, created, q) (ground (arith, find-put hour j [] disk))
    by_file (some old) q =
        let there : has hour disk ≡ true = rw (has, q) refl in
        rw (there, contents-find hour disk old q, q) refl

pub find-open_last :
    (opening : Opening) (text : Bytes) (unix_ts : ℕ) (s : CollectorState) (j : ℕ)
    → s.last_hour.out ≡ closed
    → find j (
        stream_write
          (open_last opening unix_ts s).last_hour.out
          text
          (open_last opening unix_ts s).disk)
      ≡ (if align_to_hour unix_ts == j
          then some
              (extended (find (align_to_hour unix_ts) s.disk) (has_header opening) s.header text)
          else find j s.disk)
unfolding open_last stream_open created_file
find-open_last with_header text unix_ts s j e =
    find-opened s.header text s.last_hour unix_ts s.disk j e
find-open_last plain text unix_ts s j e =
    rw e (find-created_file (align_to_hour unix_ts) j s.header text s.disk)

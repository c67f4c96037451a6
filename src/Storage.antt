-- ===== src/Storage.antt =====
-- The queue file: queue_save_internal and queue_load of src/queue.c, with the file functions of
-- src/xutil.c, over the calls of the operating system. What is in the file is bytes; the ones to be
-- saved are an argument. A run keeps the disks that it went through, the latest first.
use alarmd.Common.{
  ℕ, ◌+◌, ◌==◌, Bool, true, false, not, ◌&&◌, Option, none, some, List, [], ◌∷◌, ℤ, pos, negsuc,
  if◌then◌else◌,
}
use alarmd.Event.{Bytes, bytes_eq}
pub mod Crash

-- QUEUE_DATABASE, QUEUE_BACKUP and QUEUE_TEMPSAVE
pub data File : Type 0 where
  database : File
  backup : File
  tempsave : File

-- The fields of `struct stat` that are compared
pub record Stat : Type 0 where
  pub st_dev : ℕ
  pub st_ino : ℕ
  pub st_size : ℕ
  pub st_mtime : ℕ

-- access with F_OK; the bytes that open, fstat and read give together; open for writing, which
-- empties the file; write, fsync, close, remove and rename; stat, `none` if it fails.
pub record Posix : Type 1 where
  pub Disk : Type 0
  pub access : Disk → File → Bool
  pub read_file : Disk → File → Option Bytes
  pub create : Disk → File → Disk × Bool
  pub write : Disk → File → Bytes → Disk × Bool
  pub fsync : Disk → File → Disk × Bool
  pub close : Disk → File → Disk × Bool
  pub remove : Disk → File → Disk
  pub rename : Disk → File → File → Disk × Bool
  pub stat : Disk → File → Option Stat

module _ (os : Posix) where
  open os use {Disk, access, read_file, create, write, fsync, close, remove, rename, stat}

  abbrev pub Run : Type 0
  Run = Disk × List Disk

  -- A call has been made and has left the disk `d`.
  abbrev pub now : Disk → Run → Run
  now d r = (d, d ∷ r.1)

  unfoldable pub xexists : File → Run → Bool
  xexists path r = access r.0 path

  -- The buffer, which is empty after an error
  unfoldable pub xloadfile : File → Run → Bytes
  xloadfile path r = elim (read_file r.0 path) [ none ↦ [] | some bytes ↦ bytes ]

  -- The cleanup part of xsavefile, with `err`
  abbrev pub close_file : File → Bool → Run → Run × Bool
  close_file path ok r = let (d, closed) = close r.0 path in (now d r, ok && closed)

  abbrev pub synced : File → Run → Run × Bool
  synced path r = let (d, ok) = fsync r.0 path in close_file path ok (now d r)

  abbrev pub write_and_sync : File → Bytes → Run → Run × Bool
  write_and_sync path bytes r =
      let (d, ok) = write r.0 path bytes in
      if ok then synced path (now d r) else close_file path false (now d r)

  -- true is 0, false is -1.
  unfoldable pub xsavefile : File → Bytes → Run → Run × Bool
  xsavefile path bytes r =
      let (d, ok) = create r.0 path in
      if ok then write_and_sync path bytes (now d r) else (now d r, false)

  -- temporary -> current
  unfoldable pub make_current : File → File → File → Run → Run × Bool
  unfolding xexists
  make_current temp path back r =
      let (d, ok) = rename r.0 temp path in
      if ok
      then (now d r, true)
      else if xexists back (now d r)
      then (now (rename d back path).0 (now d r), false)
      else (now d r, false)

  unfoldable pub xcyclefiles : File → File → File → Run → Run × Bool
  unfolding xexists make_current
  xcyclefiles temp path back r =
      if xexists temp r
      then (let r1 : Run = now (remove r.0 back) r in
          let (d, ok) = rename r1.0 path back in
          if xexists path r1
          then (if ok then make_current temp path back (now d r1) else (now d r1, false))
          else make_current temp path back r1)
      else (r, false)

  abbrev pub zero_stat : Stat
  zero_stat = record { st_dev = 0; st_ino = 0; st_size = 0; st_mtime = 0 }

  unfoldable pub xfetchstats : File → Run → Stat
  xfetchstats path r = elim (stat r.0 path) [ none ↦ zero_stat | some cur ↦ cur ]

  unfoldable pub xcheckstats : File → Stat → Run → Bool
  unfolding xfetchstats
  xcheckstats path old r =
      let cur = xfetchstats path r in
      old.st_dev == cur.st_dev
      && old.st_ino == cur.st_ino
      && old.st_size == cur.st_size
      && old.st_mtime == cur.st_mtime

-- The static variables of queue_save_internal and `queue_save_stat`; `modified` counts the calls of
-- queue_indicate_modified.
pub record Saver : Type 0 where
  pub restored : Bool
  pub save_cnt : ℕ
  pub skip_cnt : ℕ
  pub fail_cnt : ℕ
  pub save_stat : Stat
  pub modified : ℕ

-- `result`: 1, 0 or -1
pub data Result : Type 0 where
  saved : Result
  skipped : Result
  failed : Result

-- The statistics at the end
unfoldable pub count_result : Result → Saver → Saver
count_result saved s = record s { save_cnt = s.save_cnt + 1 }
count_result skipped s = record s { skip_cnt = s.skip_cnt + 1 }
count_result failed s = record s { fail_cnt = s.fail_cnt + 1 }

module _ (os : Posix) where
  -- What is done unless saving is blocked
  unfoldable pub write_queue : Bytes → Run os → Run os × Result
  unfolding xloadfile xsavefile xcyclefiles
  write_queue new_data r =
      if bytes_eq (xloadfile os database r) new_data
      then (r, skipped)
      else (let (r1, stored) = xsavefile os tempsave new_data r in
          let (r2, cycled) = xcyclefiles os tempsave database backup r1 in
          if stored then (r2, if cycled then saved else failed) else (r1, failed))

  -- From loading the previous contents on
  unfoldable pub save_now : Bytes → Saver → Run os → Saver × Run os × Result
  unfolding xfetchstats write_queue count_result
  save_now new_data s r =
      let (r', result) = write_queue new_data r in
      (count_result result (record s { save_stat = xfetchstats os database r' }), r', result)

  unfoldable pub queue_save_internal : Bool → Bytes → Saver → Run os → Saver × Run os × Result
  unfolding xfetchstats xcheckstats save_now count_result
  queue_save_internal forced new_data s r =
      if forced
      then save_now new_data (record s { restored = false; save_stat = xfetchstats os database r })
          r
      else if s.restored
      then (count_result failed s, r, failed)
      else if xcheckstats os database s.save_stat r
      then save_now new_data s r
      else (
        count_result failed (record s { restored = true; modified = s.modified + 1 }),
        r,
        failed,
      )

  -- The file that queue_load reads, if there is one
  unfoldable pub load_candidate : Run os → Option File
  unfolding xexists
  load_candidate r =
      if xexists os database r
      then some database
      else if xexists os backup r
      then some backup
      else if xexists os tempsave r
      then some tempsave
      else none

  -- queue_load, where `read` is what queue_load_from_path makes of a file, and `write` what
  -- queue_save_to_memory then writes
  unfoldable pub queue_load :
      {Q : Type 0} → (Q → Bytes) → (File → Run os → Q → Q) → Q → Saver → Run os → Q × Saver × Run os
  unfolding load_candidate xfetchstats queue_save_internal
  queue_load write read q s r = elim (load_candidate r) [
    | some database ↦ (read database r q, record s { save_stat = xfetchstats os database r }, r)
    | some path ↦
        let q' = read path r q in
        let (s', r', result) =
          queue_save_internal false (write q') (record s { save_stat = xfetchstats os database r })
            r in
        (q', s', r')
    | none ↦
        let (s', r', result) =
          queue_save_internal false (write q) (record s { save_stat = xfetchstats os database r })
            r in
        (q, s', r')
  ]

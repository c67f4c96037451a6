-- ===== src/Tests/StorageExamples.antt =====
-- A disk of three files on which every call succeeds, and the theorem on saving applied to it.
use alarmd.Common.{refl, inl, true, false, Option, none, some, [], ◌∷◌}
use alarmd.Event.{Bytes}
use alarmd.Storage.{File, database, backup, tempsave, Posix, Saver, queue_save_internal, zero_stat}
use alarmd.Storage.Crash.{Keeps, Saves, queue_save_internal-Saves, is_some}

abbrev Files : Type 0
Files = Option Bytes × Option Bytes × Option Bytes

abbrev file_at : Files → File → Option Bytes
file_at (a, b, c) database = a
file_at (a, b, c) backup = b
file_at (a, b, c) tempsave = c

abbrev put_at : Files → File → Option Bytes → Files
put_at (a, b, c) database s = (s, b, c)
put_at (a, b, c) backup s = (a, s, c)
put_at (a, b, c) tempsave s = (a, b, s)

abbrev working : Posix
working = record {
  Disk = Files;
  access = λ d f. is_some (file_at d f);
  read_file = λ d f. file_at d f;
  create = λ d f. (put_at d f (some []), true);
  write = λ d f s. (put_at d f (some s), true);
  fsync = λ d f. (d, true);
  close = λ d f. (d, true);
  remove = λ d f. put_at d f none;
  rename = λ d f g. (put_at (put_at d g (file_at d f)) f none, true);
  stat = λ d f. none;
}

working-Keeps : Keeps working
working-Keeps = record {
  contents = λ d f. file_at d f;
  accesses = λ d f. refl;
  reads = λ d f s h. h;
  creates = λ d h. (some [], (h.0, h.1, refl));
  writes = λ d s h. (some s, (h.0, h.1, refl), λ e. refl);
  syncs = λ d h. h;
  closes = λ d h. h;
  removes = λ d h. inl (h.0, refl, h.2);
  moves_away = λ d h. inl (refl, (refl, h.0, h.2));
  moves_in = λ d h. inl (refl, (h.2, h.1, refl));
  moves_back = λ d h. inl (h.1, refl, h.2);
}

abbrev fresh_saver : Saver
fresh_saver = record {
  restored = false;
  save_cnt = 0;
  skip_cnt = 0;
  fail_cnt = 0;
  save_stat = zero_stat working;
  modified = 0;
}

abbrev old_file : Files
old_file = (some (1 ∷ 2 ∷ []), none, none)

queue_save_internal-Saves_example :
    let (saver', r, result) =
      queue_save_internal working false (3 ∷ []) fresh_saver (old_file, []) in
    Saves working working-Keeps (1 ∷ 2 ∷ []) (3 ∷ []) old_file r result
unfolding working-Keeps
queue_save_internal-Saves_example =
    queue_save_internal-Saves working working-Keeps (1 ∷ 2 ∷ []) (3 ∷ []) false fresh_saver old_file
      (refl, refl, refl) (inl refl)

-- ===== src/Storage/Crash.antt =====
-- What queue_load of src/queue.c finds if saving stops after any call of the operating system.
use alarmd.Common.{
  ◌≡◌, ◌≢◌, refl, sym, ap, ◌∙◌, ◌⊎◌, inl, inr, Bool, true, false, Option, none, some, List, [], ◌∷◌,
  if◌then◌else◌, arith, Bool-cases, Option-cases,
}
use alarmd.Event.{Bytes, bytes_eq, bytes_eq_iff}
use alarmd.Storage.{
  File, database, backup, tempsave, Posix, Run, now, xexists, xloadfile, close_file, synced,
  write_and_sync, xsavefile, make_current, xcyclefiles, Result, saved, skipped, failed, write_queue,
  xcheckstats, load_candidate, Saver, queue_save_internal, save_now,
}

abbrev pub is_some {ℓ} : {A : Type ℓ} → Option A → Bool
is_some none = false
is_some (some a) = true

abbrev pub Holding :
    {D : Type 0}
    → (D → File → Option Bytes)
    → D
    → Option Bytes
    → Option Bytes
    → Option Bytes
    → Type 0
Holding contents d a b c =
    (contents d database ≡ a) × (contents d backup ≡ b) × (contents d tempsave ≡ c)

-- What is relied on of the calls, in terms of what each of the three files holds: writing the
-- temporary file leaves the others alone, and it holds the bytes once they are written and synced;
-- remove takes away the backup, or leaves everything; rename replaces the file at once, or leaves
-- everything.
pub record Keeps (os : Posix) : Type 1 where
  pub contents : os.Disk → File → Option Bytes
  pub accesses : (d : os.Disk) (f : File) → os.access d f ≡ is_some (contents d f)
  pub reads :
      (d : os.Disk) (f : File) (s : Bytes) → os.read_file d f ≡ some s → contents d f ≡ some s
  pub creates :
      (d : os.Disk) {a b c : Option Bytes}
      → Holding contents d a b c
      → (c' : Option Bytes) × Holding contents (os.create d tempsave).0 a b c'
  pub writes :
      (d : os.Disk) (s : Bytes) {a b c : Option Bytes}
      → Holding contents d a b c
      → (c' : Option Bytes) × Holding contents (os.write d tempsave s).0 a b c'
        × ((os.write d tempsave s).1 ≡ true → c' ≡ some s)
  pub syncs :
      (d : os.Disk) {a b c : Option Bytes}
      → Holding contents d a b c
      → Holding contents (os.fsync d tempsave).0 a b c
  pub closes :
      (d : os.Disk) {a b c : Option Bytes}
      → Holding contents d a b c
      → Holding contents (os.close d tempsave).0 a b c
  pub removes :
      (d : os.Disk) {a b c : Option Bytes}
      → Holding contents d a b c
      → Holding contents (os.remove d backup) a none c ⊎ Holding contents (os.remove d backup) a b c
  pub moves_away :
      (d : os.Disk) {s : Bytes} {b c : Option Bytes}
      → Holding contents d (some s) b c
      → let (d', done) = os.rename d database backup in
        ((done ≡ true) × Holding contents d' none (some s) c)
        ⊎ ((done ≡ false) × Holding contents d' (some s) b c)
  pub moves_in :
      (d : os.Disk) {s : Bytes} {a b : Option Bytes}
      → Holding contents d a b (some s)
      → let (d', done) = os.rename d tempsave database in
        ((done ≡ true) × Holding contents d' (some s) b none)
        ⊎ ((done ≡ false) × Holding contents d' a b (some s))
  pub moves_back :
      (d : os.Disk) {s : Bytes} {a c : Option Bytes}
      → Holding contents d a (some s) c
      → let d' = (os.rename d backup database).0 in
        Holding contents d' (some s) none c ⊎ Holding contents d' a (some s) c

if_saved : (x : Bool) → (if x then saved else failed) ≡ saved → x ≡ true
if_saved true e = refl
if_saved false e = cc

not_skipped : (x : Bool) → (if x then saved else failed) ≢ skipped
not_skipped true = λ e. cc
not_skipped false = λ e. cc

module _ (os : Posix) (law : Keeps os) (old new : Bytes) where
  -- The first of the three files that is there holds the old bytes or the new ones, whole.
  pub Recovers : os.Disk → Type 0
  Recovers d =
      (f : File) × (load_candidate os (d, []) ≡ some f)
      × ((law.contents d f ≡ some old) ⊎ (law.contents d f ≡ some new))

  pub AllRecover : List os.Disk → Type 0
  AllRecover [] = Unit {0}
  AllRecover (d ∷ ds) = Recovers d × AllRecover ds

  from_database :
      (d : os.Disk) {s : Bytes} {b c : Option Bytes}
      → Holding law.contents d (some s) b c
      → (s ≡ old) ⊎ (s ≡ new)
      → Recovers d
  unfolding load_candidate Recovers
  from_database d (h, k, l) e = (
    database,
    rw (law.accesses d database, h) refl,
    elim e [ inl o ↦ inl (h ∙ ap some o) | inr n ↦ inr (h ∙ ap some n) ],
  )

  from_backup :
      (d : os.Disk) {s : Bytes} {c : Option Bytes}
      → Holding law.contents d none (some s) c
      → (s ≡ old) ⊎ (s ≡ new)
      → Recovers d
  unfolding load_candidate Recovers
  from_backup d (h, k, l) e = (
    backup,
    rw (law.accesses d database, h, law.accesses d backup, k) refl,
    elim e [ inl o ↦ inl (k ∙ ap some o) | inr n ↦ inr (k ∙ ap some n) ],
  )

  from_temp :
      (d : os.Disk) {s : Bytes}
      → Holding law.contents d none none (some s)
      → (s ≡ old) ⊎ (s ≡ new)
      → Recovers d
  unfolding load_candidate Recovers
  from_temp d (h, k, l) e = (
    tempsave,
    rw (law.accesses d database, h, law.accesses d backup, k, law.accesses d tempsave, l) refl,
    elim e [ inl o ↦ inl (l ∙ ap some o) | inr n ↦ inr (l ∙ ap some n) ],
  )

  -- The old bytes are in the database, or in the backup if there is no database.
  abbrev pub OldIn : Option Bytes → Option Bytes → Type 0
  OldIn a b = (a ≡ some old) ⊎ ((a ≡ none) × (b ≡ some old))

  old-Recovers :
      (d : os.Disk) {a b c : Option Bytes} → Holding law.contents d a b c → OldIn a b → Recovers d
  old-Recovers d h (inl e) = from_database d (rw e at h) (inl refl)
  old-Recovers d h (inr (e, e')) = from_backup d (rw (e, e') at h) (inl refl)

  -- The database has been moved away: the new bytes are in the temporary file.
  moved-Recovers :
      (d : os.Disk) {b : Option Bytes}
      → Holding law.contents d none b (some new)
      → (b ≡ none) ⊎ (b ≡ some old)
      → Recovers d
  moved-Recovers d h (inl e) = from_temp d (rw e at h) (inr refl)
  moved-Recovers d h (inr e) = from_backup d (rw e at h) (inl refl)

  -- What comes of writing the temporary file, `ok` or not
  Wrote : Option Bytes → Option Bytes → Run os × Bool → Type 0
  Wrote a b (r, ok) =
      AllRecover r.1
      × (c : Option Bytes) × Holding law.contents r.0 a b c
      × (ok ≡ true → c ≡ some new)

  module _ {a b : Option Bytes} (before : OldIn a b) where
    close_file-Wrote :
        (ok : Bool) (r : Run os) {c : Option Bytes}
        → AllRecover r.1
        → Holding law.contents r.0 a b c
        → (ok ≡ true → c ≡ some new)
        → Wrote a b (close_file os tempsave ok r)
    unfolding Wrote AllRecover
    close_file-Wrote ok r {c} s h full =
        let h' = law.closes r.0 h in
        ((old-Recovers _ h' before, s), c, h', λ e. full (ground arith))

    synced-Wrote :
        (r : Run os) {c : Option Bytes}
        → AllRecover r.1
        → Holding law.contents r.0 a b c
        → c ≡ some new
        → Wrote a b (synced os tempsave r)
    unfolding AllRecover
    synced-Wrote r s h full =
        let h' = law.syncs r.0 h in
        close_file-Wrote _ _ (old-Recovers _ h' before, s) h' (λ e. full)

    write_and_sync-Wrote :
        (r : Run os) {c : Option Bytes}
        → AllRecover r.1
        → Holding law.contents r.0 a b c
        → Wrote a b (write_and_sync os tempsave new r)
    unfolding AllRecover
    write_and_sync-Wrote r s h =
        let (c', h', full) = law.writes r.0 new h in
        let s' : AllRecover ((os.write r.0 tempsave new).0 ∷ r.1) = (old-Recovers _ h' before, s) in
        elim (Bool-cases (os.write r.0 tempsave new).1) [
          | inl ok ↦ rw ok (synced-Wrote _ s' h' (full ok))
          | inr bad ↦ rw bad (close_file-Wrote false _ s' h' (λ e. cc))
        ]

    xsavefile-Wrote :
        (r : Run os) {c : Option Bytes}
        → AllRecover r.1
        → Holding law.contents r.0 a b c
        → Wrote a b (xsavefile os tempsave new r)
    unfolding AllRecover xsavefile Wrote
    xsavefile-Wrote r s h =
        let (c', h') = law.creates r.0 h in
        let s' : AllRecover ((os.create r.0 tempsave).0 ∷ r.1) = (old-Recovers _ h' before, s) in
        elim (Bool-cases (os.create r.0 tempsave).1) [
          | inl ok ↦ rw ok (write_and_sync-Wrote _ s' h')
          | inr bad ↦ rw bad (s', c', h', λ e. cc)
        ]

  -- What comes of renaming: if it succeeds, the database holds the new bytes.
  Cycled : Run os × Bool → Type 0
  Cycled (r, ok) =
      AllRecover r.1 × Recovers r.0 × (ok ≡ true → law.contents r.0 database ≡ some new)

  rolled_back :
      (r : Run os) (b : Option Bytes)
      → AllRecover r.1
      → Holding law.contents r.0 none b (some new)
      → (b ≡ none) ⊎ (b ≡ some old)
      → Cycled (
          if xexists os backup r
          then (now os (os.rename r.0 backup database).0 r, false)
          else (r, false))
  unfolding xexists Cycled AllRecover
  rolled_back r b s h (inl e) =
      rw (law.accesses r.0 backup, h.1, e) (s, moved-Recovers r.0 h (inl e), λ f. cc)
  rolled_back r b s h (inr e) =
      let back : Recovers (os.rename r.0 backup database).0 =
        elim (law.moves_back r.0 (rw e at h)) [
          | inl h' ↦ from_database _ h' (inl refl)
          | inr h' ↦ from_backup _ h' (inl refl)
        ] in
      rw (law.accesses r.0 backup, h.1, e) ((back, s), back, λ f. cc)

  make_current-Cycled :
      (r : Run os) (b : Option Bytes)
      → AllRecover r.1
      → Holding law.contents r.0 none b (some new)
      → (b ≡ none) ⊎ (b ≡ some old)
      → Cycled (make_current os tempsave database backup r)
  unfolding make_current Cycled AllRecover
  make_current-Cycled r b s h e = elim (law.moves_in r.0 h) [
    | inl (ok, h') ↦
        let new_one = from_database _ h' (inr refl) in rw ok ((new_one, s), new_one, λ f. h'.0)
    | inr (bad, h') ↦ rw bad (rolled_back _ b (moved-Recovers _ h' e, s) h' e)
  ]

  away :
      (r : Run os) (b : Option Bytes)
      → AllRecover r.1
      → Holding law.contents r.0 (some old) b (some new)
      → let (d, ok) = os.rename r.0 database backup in
        Cycled (
          if ok then make_current os tempsave database backup (now os d r) else (now os d r, false))
  unfolding Cycled AllRecover
  away r b s h = elim (law.moves_away r.0 h) [
    | inl (ok, h') ↦
        rw ok (make_current-Cycled _ (some old) (moved-Recovers _ h' (inr refl), s) h' (inr refl))
    | inr (bad, h') ↦ let same = from_database _ h' (inl refl) in rw bad ((same, s), same, λ f. cc)
  ]

  -- The backup is gone, or is as before.
  after_remove :
      (r : Run os) (a b : Option Bytes)
      → AllRecover r.1
      → Holding law.contents r.0 a b (some new)
      → (a ≡ some old) ⊎ ((a ≡ none) × ((b ≡ none) ⊎ (b ≡ some old)))
      → let (d, ok) = os.rename r.0 database backup in
        Cycled (
          if xexists os database r
          then (if ok
              then make_current os tempsave database backup (now os d r)
              else (now os d r, false))
          else make_current os tempsave database backup r)
  unfolding xexists
  after_remove r a b s h (inl e) = rw (law.accesses r.0 database, h.0, e) (away r b s (rw e at h))
  after_remove r a b s h (inr (e, e')) =
      rw (law.accesses r.0 database, h.0, e) (make_current-Cycled r b s (rw e at h) e')

  xcyclefiles-Cycled :
      (r : Run os) {a b : Option Bytes}
      → AllRecover r.1
      → Holding law.contents r.0 a b (some new)
      → OldIn a b
      → Cycled (xcyclefiles os tempsave database backup r)
  unfolding xcyclefiles AllRecover
  xcyclefiles-Cycled r {a} {b} s h before =
      let there = law.accesses r.0 tempsave ∙ ap is_some h.2 in
      elim (law.removes r.0 h) [
        | inl gone ↦
            let at_most : (a ≡ some old) ⊎ ((a ≡ none) × ((none ≡ none) ⊎ (none ≡ some old))) =
              elim before [ inl e ↦ inl e | inr (e, e') ↦ inr (e, inl refl) ] in
            let recovers : Recovers (os.remove r.0 backup) = elim before [
              | inl e ↦ from_database _ (rw e at gone) (inl refl)
              | inr (e, e') ↦ from_temp _ (rw e at gone) (inr refl)
            ] in
            rw there
              (after_remove (now os (os.remove r.0 backup) r) a none (recovers, s) gone at_most)
        | inr kept ↦
            let as_before : (a ≡ some old) ⊎ ((a ≡ none) × ((b ≡ none) ⊎ (b ≡ some old))) =
              elim before [ inl e ↦ inl e | inr (e, e') ↦ inr (e, inr e') ] in
            rw there (
              after_remove (now os (os.remove r.0 backup) r) a b (old-Recovers _ kept before, s)
                kept as_before)
      ]

  -- How a save leaves the disk, by its result
  pub Saves : os.Disk → Run os → Result → Type 0
  Saves d r result =
      AllRecover r.1
      × Recovers r.0
      × (result ≡ saved → law.contents r.0 database ≡ some new)
      × (result ≡ skipped → (r.0 ≡ d) × (new ≢ [] → law.contents d database ≡ some new))

  loaded :
      (d : os.Disk)
      → xloadfile os database (d, []) ≡ new
      → new ≢ []
      → law.contents d database ≡ some new
  unfolding xloadfile
  loaded d e n = elim (Option-cases (os.read_file d database)) [
    | inl failure ↦ absurd (n (sym e ∙ rw (failure, xloadfile) refl))
    | inr (t, got) ↦
        let same : t ≡ new = sym (rw (got, xloadfile) refl) ∙ e in
        law.reads d database t got ∙ ap some same
  ]

  write_queue-Saves :
      (d : os.Disk) {a b c : Option Bytes}
      → Holding law.contents d a b c
      → OldIn a b
      → let (r, result) = write_queue os new (d, []) in Saves d r result
  unfolding write_queue AllRecover Saves Cycled Wrote
  write_queue-Saves d h before = elim (Bool-cases (bytes_eq (xloadfile os database (d, [])) new)) [
    | inl same ↦ rw same (
      tt,
      old-Recovers d h before,
      (λ e. cc),
      (λ e. (refl, loaded d ((bytes_eq_iff _ new).0 same))),
    )
    | inr differ ↦
        let (s, c', h', full) = xsavefile-Wrote before (d, []) tt h in
        rw differ (elim (Bool-cases (xsavefile os tempsave new (d, [])).1) [
          | inl stored ↦
              let (s2, now_ok, new_in) =
                xcyclefiles-Cycled (xsavefile os tempsave new (d, [])).0 s (rw (full stored) at h')
                  before in
              rw stored (s2, now_ok, (λ e. new_in (if_saved _ e)), (λ e. absurd (not_skipped _ e)))
          | inr failure ↦ rw failure (s, old-Recovers _ h' before, (λ e. cc), (λ e. cc))
        ])
  ]

  untouched :
      (d : os.Disk) {a b c : Option Bytes}
      → Holding law.contents d a b c
      → OldIn a b
      → Saves d (d, []) failed
  unfolding Saves AllRecover
  untouched d h before = (tt, old-Recovers d h before, (λ e. cc), (λ e. cc))

  -- A save that starts with the old bytes in the database, or in the backup where there is no
  -- database, may stop after any call and whatever calls have failed: of the database, the backup
  -- and the temporary file in this order, the first that is there holds the old bytes or the new
  -- ones, whole. If the result is 1 the database holds the new bytes; if it is 0 nothing was
  -- touched, and the database holds the new bytes unless those are none.
  pub queue_save_internal-Saves :
      (forced : Bool) (saver : Saver) (d : os.Disk) {a b c : Option Bytes}
      → Holding law.contents d a b c
      → OldIn a b
      → let (saver', r, result) = queue_save_internal os forced new saver (d, []) in
        Saves d r result
  unfolding queue_save_internal save_now
  queue_save_internal-Saves true saver d h before = write_queue-Saves d h before
  queue_save_internal-Saves false saver d h before = elim (Bool-cases saver.restored) [
    | inl blocked ↦ rw blocked (untouched d h before)
    | inr free ↦ elim (Bool-cases (xcheckstats os database saver.save_stat (d, []))) [
      | inl same ↦ rw (free, same) (write_queue-Saves d h before)
      | inr changed ↦ rw (free, changed) (untouched d h before)
    ]
  ]

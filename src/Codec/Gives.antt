-- ===== src/Codec/Gives.antt =====
-- What the decoders of src/codec.c make of the arguments ahead, over a libdbus that delivers them.
use alarmd.Common.{
  ℕ, ◌%◌, ◌^◌, ◌<◌, ◌≤◌, ◌≡◌, refl, false, some, List, [], ◌∷◌, ◌++◌, ℤ, pos, negsuc, pos_part,
  neg_part, length, arith,
}
use mathlib.Core.List.{append_assoc}
use alarmd.Event.{Bytes, Text, Tm, Action, Recur, Event}
use alarmd.Attributes.{or_empty}
use alarmd.Strbuf.Values.{residue, wrap}
use alarmd.Codec.{Libdbus, BusArg, uint32, uint64, int32, string, use_args}
use alarmd.Codec.Decoder.{
  Decode, ◌>>=◌, pure, decode_uint32, decode_uint64, decode_int, decode_string, decode_dstring,
  decode_size, decode_cookie, decode_time, decode_tm, decode_action, decode_recur, decode_actions,
  decode_recurs,
}
use alarmd.Codec.Carried.{
  Delivers, tm_args, text, action_args, recur_args, actions_args, recurs_args,
}

abbrev pub IsInt32 : ℤ → Type 0
IsInt32 n = (pos_part n < 2 ^ 31) × (neg_part n ≤ 2 ^ 31)

wrap-IsInt32 : (n : ℤ) → IsInt32 n → wrap 32 n ≡ n
unfolding wrap
wrap-IsInt32 (pos n) h = ground arith
wrap-IsInt32 (negsuc n) h = ground arith

wrap-residue : (n : ℤ) → IsInt32 n → wrap 32 (pos (residue 32 n)) ≡ n
unfolding wrap
wrap-residue (pos n) h = ground arith
wrap-residue (negsuc n) h = ground arith

-- What arrives of an action, with the default arguments that are left, and of a list of them
abbrev pub received_text : Text → Text
received_text s = some (or_empty s)

abbrev pub received_action : Action → Text → Action
received_action act def_args = record {
  flags = act.flags;
  label = received_text act.label;
  exec_command = received_text act.exec_command;
  dbus_interface = received_text act.dbus_interface;
  dbus_service = received_text act.dbus_service;
  dbus_path = received_text act.dbus_path;
  dbus_name = received_text act.dbus_name;
  dbus_args = received_text (use_args act def_args).0;
}

abbrev pub received_actions : List Action → Text → List Action
received_actions [] def_args = []
received_actions (act ∷ acts) def_args =
    received_action act def_args ∷ received_actions acts (use_args act def_args).1

-- What arrives of an event: NULL has become the empty text, and the first D-Bus action without
-- arguments has the default ones.
abbrev pub received_event : Event → Text → Event
received_event eve def_args = record eve {
  title = received_text eve.title;
  message = received_text eve.message;
  sound = received_text eve.sound;
  icon = received_text eve.icon;
  alarm_appid = received_text eve.alarm_appid;
  alarm_tz = received_text eve.alarm_tz;
  action_tab = received_actions eve.action_tab def_args;
}

module _ (dbus : Libdbus) (law : Delivers dbus) where
  -- Where the arguments `args` are ahead, the decoder passes them, gives `a` and sets no error.
  pub record Gives {A : Type 0} (m : Decode dbus A) (args : List BusArg) (a : A) : Type 0 where
    pub reads :
        (i : dbus.Iter) (rest : List BusArg)
        → law.Reads i (args ++ rest)
        → (i' : dbus.Iter) × (m (i, false) ≡ some (a, (i', false))) × law.Reads i' rest

  pub pure-Gives : {A : Type 0} (a : A) → Gives (pure dbus a) [] a
  pure-Gives a = record { reads = λ i rest h. (i, refl, h) }

  pub append-Gives :
      {A B : Type 0} {m : Decode dbus A} (f : A → Decode dbus B) {xs ys : List BusArg} {a : A}
      {b : B}
      → Gives m xs a
      → Gives (f a) ys b
      → Gives (◌>>=◌ dbus m f) (xs ++ ys) b
  unfolding ◌>>=◌
  append-Gives {m} f {xs} {ys} g k = record {
    reads = λ i rest h.
        let (i1, e1, h1) = g.reads i (ys ++ rest) (rw append_assoc at h) in
        let (i2, e2, h2) = k.reads i1 rest h1 in (i2, rw (e1, ◌>>=◌) e2, h2);
  }

  pub uint32-Gives : (n : ℕ) → Gives (decode_uint32 dbus) (uint32 n ∷ []) n
  unfolding decode_uint32
  uint32-Gives n = record {
    reads = λ i rest h.
        (dbus.next_arg i, rw (law.shows i _ rest h, decode_uint32) refl, law.passes i _ rest h);
  }

  pub uint64-Gives : (n : ℕ) → Gives (decode_uint64 dbus) (uint64 n ∷ []) n
  unfolding decode_uint64
  uint64-Gives n = record {
    reads = λ i rest h.
        (dbus.next_arg i, rw (law.shows i _ rest h, decode_uint64) refl, law.passes i _ rest h);
  }

  pub int-Gives : (n : ℤ) → Gives (decode_int dbus) (int32 n ∷ []) n
  unfolding decode_int
  int-Gives n = record {
    reads = λ i rest h.
        (dbus.next_arg i, rw (law.shows i _ rest h, decode_int) refl, law.passes i _ rest h);
  }

  pub string-Gives : (s : Bytes) → Gives (decode_string dbus) (string s ∷ []) (some s)
  unfolding decode_string
  string-Gives s = record {
    reads = λ i rest h.
        (dbus.next_arg i, rw (law.shows i _ rest h, decode_string) refl, law.passes i _ rest h);
  }

  pub dstring-Gives : (s : Text) → Gives (decode_dstring dbus) (text s ∷ []) (received_text s)
  unfolding decode_dstring
  dstring-Gives s = append-Gives _ (string-Gives (or_empty s)) (pure-Gives (received_text s))

  pub time-Gives : (n : ℤ) → IsInt32 n → Gives (decode_time dbus) (int32 (wrap 32 n) ∷ []) n
  unfolding decode_time
  time-Gives n r = rw (wrap-IsInt32 n r) (int-Gives n)

  pub cookie-Gives : (n : ℤ) → IsInt32 n → Gives (decode_cookie dbus) (uint32 (residue 32 n) ∷ []) n
  unfolding decode_cookie
  cookie-Gives n r =
      append-Gives _ (uint32-Gives (residue 32 n)) (rw (wrap-residue n r) (pure-Gives n))

  pub size-Gives : (n : ℕ) → n < 2 ^ 32 → Gives (decode_size dbus) (uint32 (n % 2 ^ 32) ∷ []) n
  unfolding decode_size
  size-Gives n r = let e : n % 2 ^ 32 ≡ n = ground arith in rw e (uint32-Gives n)

  -- One argument more
  pub one-Gives :
      {A B : Type 0} {m : Decode dbus A} (f : A → Decode dbus B) {x : BusArg} {ys : List BusArg}
      {a : A} {b : B}
      → Gives m (x ∷ []) a
      → Gives (f a) ys b
      → Gives (◌>>=◌ dbus m f) (x ∷ ys) b
  one-Gives f g k = append-Gives f g k

  -- Nothing more is read, and the result is built.
  pub map-Gives :
      {A B : Type 0} {m : Decode dbus A} (f : A → B) {xs : List BusArg} {a : A}
      → Gives m xs a
      → Gives (◌>>=◌ dbus m (λ x. pure dbus (f x))) xs (f a)
  unfolding ◌>>=◌
  map-Gives f g = record {
    reads = λ i rest h. let (i1, e1, h1) = g.reads i rest h in (i1, rw (e1, ◌>>=◌) refl, h1);
  }

  pub recur-Gives : (rec : Recur) → Gives (decode_recur dbus) (recur_args rec) rec
  unfolding decode_recur
  recur-Gives rec = one-Gives _ (uint64-Gives rec.mask_min) (
      one-Gives _ (uint32-Gives rec.mask_hour) (
        one-Gives _ (uint32-Gives rec.mask_mday) (
          one-Gives _ (uint32-Gives rec.mask_wday) (
            one-Gives _ (uint32-Gives rec.mask_mon)
              (one-Gives _ (uint32-Gives rec.special) (pure-Gives rec))))))

  pub action-Gives :
      (act : Action) (def_args : Text)
      → Gives (decode_action dbus) (action_args act def_args) (received_action act def_args)
  unfolding decode_action
  action-Gives act def_args = one-Gives _ (uint32-Gives act.flags) (
      one-Gives _ (dstring-Gives act.label) (
        one-Gives _ (dstring-Gives act.exec_command) (
          one-Gives _ (dstring-Gives act.dbus_interface) (
            one-Gives _ (dstring-Gives act.dbus_service) (
              one-Gives _ (dstring-Gives act.dbus_path) (
                one-Gives _ (dstring-Gives act.dbus_name) (
                  one-Gives _ (dstring-Gives (use_args act def_args).0)
                    (pure-Gives (received_action act def_args)))))))))

  pub tm-Gives : (tm : Tm) → Gives (decode_tm dbus) (tm_args tm) tm
  unfolding decode_tm
  tm-Gives tm = one-Gives _ (int-Gives tm.tm_sec) (
      one-Gives _ (int-Gives tm.tm_min) (
        one-Gives _ (int-Gives tm.tm_hour) (
          one-Gives _ (int-Gives tm.tm_mday) (
            one-Gives _ (int-Gives tm.tm_mon) (
              one-Gives _ (int-Gives tm.tm_year) (
                one-Gives _ (int-Gives tm.tm_wday) (
                  one-Gives _ (int-Gives tm.tm_yday)
                    (one-Gives _ (int-Gives tm.tm_isdst) (pure-Gives tm)))))))))

  pub actions-Gives :
      (acts : List Action) (def_args : Text)
      → Gives
          (decode_actions dbus (length acts))
          (actions_args acts def_args)
          (received_actions acts def_args)
  unfolding decode_actions
  actions-Gives [] def_args = pure-Gives []
  actions-Gives (act ∷ acts) def_args = append-Gives _ (action-Gives act def_args) (
      map-Gives (λ acts'. received_action act def_args ∷ acts')
        (actions-Gives acts (use_args act def_args).1))

  pub recurs-Gives :
      (recs : List Recur) → Gives (decode_recurs dbus (length recs)) (recurs_args recs) recs
  unfolding decode_recurs
  recurs-Gives [] = pure-Gives []
  recurs-Gives (rec ∷ recs) =
      append-Gives _ (recur-Gives rec) (map-Gives (λ recs'. rec ∷ recs') (recurs-Gives recs))

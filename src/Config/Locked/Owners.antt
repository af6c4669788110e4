-- ===== src/Config/Locked/Owners.antt =====
-- The goroutines that have the mutex of config/config.go stand inside the methods of config/named_hooks.go.
use theo_forge.Prelude.{
  ℕ, true, false, none, some, List, [], ◌∷◌, is_empty, eqb, String, ◌≡◌, ◌≢◌, refl, sym, inl, inr,
  arith, In, Bool-cases,
}
use theo_forge.Config.Global.{NamedHook}
use theo_forge.Config.Locked.{
  Op, registering, removing, listing, Memory, Job, enrolling, deleting, reading, Place, outside,
  waiting, entered, scanned, sought, allocated, unlocking, read_unlocking, record_call, is_free,
  acquire, look, enroll, delete, without, act, begin, System, settled, turn_at, turn, schedule,
  opened,
}
use theo_forge.Config.Locked.Held.{free, writes, reads, side, job_side}

not-In-without : (t : ℕ) (us : List ℕ) → In t (without t us) → ⊥
unfolding without
not-In-without t [] h = h
not-In-without t (u ∷ us) h = elim (Bool-cases (eqb u t)) [
  | inl e ↦ not-In-without t us (rw e at h)
  | inr e ↦ elim (rw e at h) [ inl q ↦ ground (arith, q, e) | inr k ↦ not-In-without t us k ]
]

In-without-In : (u t : ℕ) (us : List ℕ) → In u (without t us) → In u us
unfolding without
In-without-In u t [] h = h
In-without-In u t (v ∷ us) h = elim (Bool-cases (eqb v t)) [
  | inl e ↦ inr (In-without-In u t us (rw e at h))
  | inr e ↦ elim (rw e at h) [ inl q ↦ inl q | inr k ↦ inr (In-without-In u t us k) ]
]

module _ {A : Type 0} where
  -- Who has the mutex stands inside.
  pub record IsOwned (u : ℕ) (m : Memory A) (p : Place A) : Type 0 where
    pub writing : m.writer ≡ some u → side p ≡ writes
    pub reading_it : In u m.readers → side p ≡ reads

  -- Nobody else gets the mutex.
  record IsFair (t : ℕ) (m n : Memory A) (p : Place A) : Type 0 where
    own : IsOwned t n p
    writer : (u : ℕ) → u ≢ t → n.writer ≡ some u → m.writer ≡ some u
    readers : (u : ℕ) → u ≢ t → In u n.readers → In u m.readers

  -- The holders of the mutex are the same, and so is the side of the goroutine.
  same-IsFair :
      (t : ℕ) (m n : Memory A) (p q : Place A)
      → IsOwned t m p
      → n.writer ≡ m.writer
      → n.readers ≡ m.readers
      → side q ≡ side p
      → IsFair t m n q
  same-IsFair t m n p q o w r s = record {
    own = record {
      writing = λ h. rw s (o.writing (rw (← w) h));
      reading_it = λ h. rw s (o.reading_it (rw (← r) h));
    };
    writer = λ u d h. rw (← w) h;
    readers = λ u d h. rw (← r) h;
  }

  look-side : (m : Memory A) (job : Job A) → side (look job m) ≡ job_side job
  unfolding look
  look-side m reading = refl
  look-side m (enrolling name f) = refl
  look-side m (deleting id) = refl

  acquire-IsFair :
      (t : ℕ) (m : Memory A) (job : Job A)
      → IsOwned t m (waiting job)
      → is_free job m ≡ true
      → IsFair t m (acquire t job m) (entered job)
  unfolding acquire is_free
  acquire-IsFair t m reading o f = record {
    own = record { writing = λ h. ground (arith, o.writing h); reading_it = λ h. refl };
    writer = λ u d h. h;
    readers = λ u d h. elim h [ inl q ↦ elim (d (sym q)) [ ] | inr k ↦ k ];
  }
  acquire-IsFair t m (enrolling name g) o f = record {
    own = record { writing = λ h. refl; reading_it = λ h. ground (arith, o.reading_it h) };
    writer = λ u d h. elim (d (ground (arith, h))) [ ];
    readers = λ u d h. h;
  }
  acquire-IsFair t m (deleting id) o f = record {
    own = record { writing = λ h. refl; reading_it = λ h. ground (arith, o.reading_it h) };
    writer = λ u d h. elim (d (ground (arith, h))) [ ];
    readers = λ u d h. h;
  }

  act-IsFair :
      (duplicate : String) (t : ℕ) (m : Memory A) (p : Place A)
      → IsOwned t m p
      → IsFair t m (act duplicate t m p).0 (act duplicate t m p).1
  unfolding act record_call enroll delete
  act-IsFair duplicate t m outside o = same-IsFair t m m outside outside o refl refl refl
  act-IsFair duplicate t m (waiting job) o = elim (Bool-cases (is_free job m)) [
    | inl f ↦ rw f (acquire-IsFair t m job o f)
    | inr f ↦ rw f (same-IsFair t m m (waiting job) (waiting job) o refl refl refl)
  ]
  act-IsFair duplicate t m (entered job) o =
      same-IsFair t m m (entered job) (look job m) o refl refl (look-side m job)
  act-IsFair duplicate t m (scanned name f true) o =
      same-IsFair t m _ (scanned name f true) unlocking o refl refl refl
  act-IsFair duplicate t m (scanned name f false) o =
      same-IsFair t m _ (scanned name f false) unlocking o refl refl refl
  act-IsFair duplicate t m (sought id none) o =
      same-IsFair t m _ (sought id none) unlocking o refl refl refl
  act-IsFair duplicate t m (sought id (some i)) o =
      same-IsFair t m _ (sought id (some i)) unlocking o refl refl refl
  act-IsFair duplicate t m (allocated n) o =
      same-IsFair t m _ (allocated n) read_unlocking o refl refl refl
  act-IsFair duplicate t m unlocking o = record {
    own = record {
      writing = λ h. ground (arith, h);
      reading_it = λ h. ground (arith, o.reading_it h);
    };
    writer = λ u d h. ground (arith, h);
    readers = λ u d h. h;
  }
  act-IsFair duplicate t m read_unlocking o = record {
    own = record {
      writing = λ h. ground (arith, o.writing h);
      reading_it = λ h. elim (not-In-without t m.readers h) [ ];
    };
    writer = λ u d h. h;
    readers = λ u d h. In-without-In u t m.readers h;
  }

  begin-IsFair :
      (t : ℕ) (m : Memory A) (op : Op A) (p : Place A)
      → IsOwned t m p
      → side p ≡ free
      → IsFair t m (begin t op m).0 (begin t op m).1
  unfolding begin record_call
  begin-IsFair t m (registering name none) p o f = elim (Bool-cases (is_empty name)) [
    | inl e ↦ rw e (same-IsFair t m _ p outside o refl refl (sym f))
    | inr e ↦ rw e (same-IsFair t m _ p outside o refl refl (sym f))
  ]
  begin-IsFair t m (registering name (some g)) p o f = elim (Bool-cases (is_empty name)) [
    | inl e ↦ rw e (same-IsFair t m _ p outside o refl refl (sym f))
    | inr e ↦ rw e (same-IsFair t m m p (waiting (enrolling name g)) o refl refl (sym f))
  ]
  begin-IsFair t m (removing id) p o f =
      same-IsFair t m m p (waiting (deleting id)) o refl refl (sym f)
  begin-IsFair t m listing p o f = same-IsFair t m m p (waiting reading) o refl refl (sym f)

  abbrev pub AreOwned : System A → Type 0
  AreOwned s = (u : ℕ) → IsOwned u s.memory (s.at u)

  settled-AreOwned :
      (t : ℕ) (s : System A) (ops : List (Op A)) (m : Memory A) (p : Place A)
      → AreOwned s
      → IsFair t s.memory m p
      → AreOwned (settled t s ops (m, p))
  unfolding settled
  settled-AreOwned t s ops m p o f u = elim (Bool-cases (eqb u t)) [
    | inl e ↦ let same : u ≡ t = ground (arith, e) in rw (e, same) f.own
    | inr e ↦
        let other : u ≢ t = λ q. ground (arith, e, q) in
        rw e (record {
          writing = λ h. (o u).writing (f.writer u other h);
          reading_it = λ h. (o u).reading_it (f.readers u other h);
        })
  ]

  turn_at-AreOwned :
      (duplicate : String) (t : ℕ) (s : System A) (p : Place A) (ops : List (Op A))
      → IsOwned t s.memory p
      → AreOwned s
      → AreOwned (turn_at duplicate t s p ops)
  unfolding turn_at
  turn_at-AreOwned duplicate t s outside [] w o = o
  turn_at-AreOwned duplicate t s outside (op ∷ ops) w o =
      settled-AreOwned t s ops _ _ o (begin-IsFair t s.memory op outside w refl)
  turn_at-AreOwned duplicate t s p ops w o =
      settled-AreOwned t s ops _ _ o (act-IsFair duplicate t s.memory p w)

  pub schedule-AreOwned :
      (duplicate : String) (ts : List ℕ) (s : System A)
      → AreOwned s
      → AreOwned (schedule duplicate ts s)
  unfolding schedule turn
  schedule-AreOwned duplicate [] s o = o
  schedule-AreOwned duplicate (t ∷ ts) s o =
      schedule-AreOwned duplicate ts (turn duplicate t s)
        (turn_at-AreOwned duplicate t s (s.at t) (s.todo t) (o t) o)

  pub opened-AreOwned :
      (start : List (NamedHook A)) (script : ℕ → List (Op A)) → AreOwned (opened start script)
  unfolding opened
  opened-AreOwned start script u = record {
    writing = λ h. ground (arith, h);
    reading_it = λ h. elim h [ ];
  }

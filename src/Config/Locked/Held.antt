-- ===== src/Config/Locked/Held.antt =====
-- What the goroutines that use the named hooks of config/named_hooks.go have of the mutex of
-- config/config.go, and what they know of the hooks.
use theo_forge.Prelude.{
  ℕ, true, false, none, some, List, [], ◌∷◌, ◌++◌, length, is_empty, eqb, if◌then◌else◌, String,
  ◌≡◌, ◌≢◌, refl, inl, inr, ◌⊎◌, arith, In, Bool-cases,
}
use theo_forge.Config.Global.{NamedHook}
use theo_forge.Config.Named.{registered}
use theo_forge.Config.Locked.{
  Op, registering, removing, listing, Answer, Entry, Memory, Job, enrolling, deleting, reading,
  Place, outside, waiting, entered, scanned, sought, allocated, unlocking, read_unlocking, index_of,
  without, perform,
}

pub In-without : (u t : ℕ) (us : List ℕ) → u ≢ t → In u us → In u (without t us)
unfolding without
In-without u t [] d h = h
In-without u t (v ∷ us) d h = elim (Bool-cases (eqb v t)) [
  | inl e ↦
      rw e (elim h [ inl q ↦ elim (d (ground (arith, q, e))) [ ] | inr k ↦ In-without u t us d k ])
  | inr e ↦ rw e (elim h [ inl q ↦ inl q | inr k ↦ inr (In-without u t us d k) ])
]

-- What a place needs of the mutex.
pub data Side : Type 0 where
  free : Side
  writes : Side
  reads : Side

module _ {A : Type 0} where
  abbrev pub job_side : Job A → Side
  job_side reading = reads
  job_side (enrolling name f) = writes
  job_side (deleting id) = writes

  abbrev pub side : Place A → Side
  side outside = free
  side (waiting job) = free
  side (entered job) = job_side job
  side (scanned name f found) = writes
  side (sought id i) = writes
  side (allocated n) = reads
  side unlocking = writes
  side read_unlocking = reads

  abbrev pub Holds : Side → ℕ → Memory A → Type 0
  Holds free t m = Unit
  Holds writes t m = m.writer ≡ some t
  Holds reads t m = In t m.readers

  abbrev pub IsJob : Job A → Type 0
  IsJob (enrolling name f) = is_empty name ≡ false
  IsJob (deleting id) = Unit
  IsJob reading = Unit

  -- What the local variables of a goroutine say of the hooks.
  abbrev pub Knows : Place A → Memory A → Type 0
  Knows outside m = Unit
  Knows (waiting job) m = IsJob job
  Knows (entered job) m = IsJob job
  Knows (scanned name f found) m = (is_empty name ≡ false) × (found ≡ registered name m.hooks)
  Knows (sought id i) m = i ≡ index_of id m.hooks
  Knows (allocated n) m = n ≡ length m.hooks
  Knows unlocking m = Unit
  Knows read_unlocking m = Unit

  -- The calls of the log, each in one piece, lead from the first list to the second, with these
  -- answers.
  abbrev pub IsSequential :
      String → List (NamedHook A) → List (Entry A) → List (NamedHook A) → Type 0
  IsSequential duplicate start [] hs = hs ≡ start
  IsSequential duplicate start (e ∷ log) hs =
      (before : List (NamedHook A)) × IsSequential duplicate start log before
      × (perform duplicate e.op before ≡ (hs, e.answer))

  -- The calls of a goroutine that took effect, the first one first.
  abbrev pub history : ℕ → List (Entry A) → List (Op A)
  history t [] = []
  history t (e ∷ log) =
      let before = history t log in if eqb e.by t then before ++ e.op ∷ [] else before

  -- The call that a goroutine is in the midst of, if it has not taken effect yet.
  abbrev pub job_op : Job A → Op A
  job_op (enrolling name f) = registering name (some f)
  job_op (deleting id) = removing id
  job_op reading = listing

  abbrev pub pending : Place A → List (Op A)
  pending outside = []
  pending (waiting job) = job_op job ∷ []
  pending (entered job) = job_op job ∷ []
  pending (scanned name f found) = registering name (some f) ∷ []
  pending (sought id i) = removing id ∷ []
  pending (allocated n) = listing ∷ []
  pending unlocking = []
  pending read_unlocking = []

  pub history-own :
      (t : ℕ) (op : Op A) (answer : Answer) (log : List (Entry A))
      → history t (record { by = t; op = op; answer = answer } ∷ log) ≡ history t log ++ op ∷ []
  history-own t op answer log = let own : eqb t t ≡ true = ground arith in rw own refl

  pub history-other :
      (t u : ℕ) (op : Op A) (answer : Answer) (log : List (Entry A))
      → u ≢ t
      → history u (record { by = t; op = op; answer = answer } ∷ log) ≡ history u log
  history-other t u op answer log d =
      let other : eqb t u ≡ false = ground (arith, d) in rw other refl

  -- One writer and no reader, or no writer.
  abbrev pub IsExclusive : Memory A → Type 0
  IsExclusive m = (m.writer ≡ none) ⊎ (m.readers ≡ [])

  -- A goroutine keeps what it has of the mutex, and no hook changes under it.
  abbrev pub Stays : Side → ℕ → Memory A → Memory A → Type 0
  Stays free u m n = Unit
  Stays writes u m n = m.writer ≡ some u → (n.writer ≡ some u) × (n.hooks ≡ m.hooks)
  Stays reads u m n = In u m.readers → In u n.readers × (n.hooks ≡ m.hooks)

  pub Knows-Stays :
      (p : Place A) (u : ℕ) (m n : Memory A)
      → Stays (side p) u m n
      → Holds (side p) u m
      → Knows p m
      → Holds (side p) u n × Knows p n
  Knows-Stays outside u m n s h k = (tt, tt)
  Knows-Stays (waiting job) u m n s h k = (tt, k)
  Knows-Stays (entered (enrolling name f)) u m n s h k = ((s h).0, k)
  Knows-Stays (entered (deleting id)) u m n s h k = ((s h).0, k)
  Knows-Stays (entered reading) u m n s h k = ((s h).0, k)
  Knows-Stays (scanned name f found) u m n s h k = ((s h).0, (k.0, rw (s h).1 k.1))
  Knows-Stays (sought id i) u m n s h k = ((s h).0, rw (s h).1 k)
  Knows-Stays (allocated c) u m n s h k = ((s h).0, rw (s h).1 k)
  Knows-Stays unlocking u m n s h k = ((s h).0, tt)
  Knows-Stays read_unlocking u m n s h k = ((s h).0, tt)

  -- Nothing but the log has changed.
  pub Stays-same :
      (m n : Memory A) (u : ℕ)
      → n.writer ≡ m.writer
      → n.readers ≡ m.readers
      → n.hooks ≡ m.hooks
      → (s : Side) → Stays s u m n
  Stays-same m n u w r h free = tt
  Stays-same m n u w r h writes = λ k. (rw w k, h)
  Stays-same m n u w r h reads = λ k. (rw r k, h)

  -- While `t` writes, no other goroutine has the mutex.
  pub Stays-alone :
      (m n : Memory A) (t u : ℕ)
      → u ≢ t
      → m.writer ≡ some t
      → IsExclusive m
      → (s : Side) → Stays s u m n
  Stays-alone m n t u d w e free = tt
  Stays-alone m n t u d w e writes = λ k. elim (d (ground (arith, k, w))) [ ]
  Stays-alone m n t u d w (inl r) reads = ground (arith, r, w)
  Stays-alone m n t u d w (inr r) reads = λ k. elim (rw r at k) [ ]

  pub Stays-unheld :
      (m n : Memory A) (u : ℕ) → m.writer ≡ none → m.readers ≡ [] → (s : Side) → Stays s u m n
  Stays-unheld m n u w r free = tt
  Stays-unheld m n u w r writes = λ k. ground (arith, k, w)
  Stays-unheld m n u w r reads = λ k. elim (rw r at k) [ ]

  pub Stays-joined :
      (t : ℕ) (m : Memory A) (u : ℕ) (s : Side) → Stays s u m (record m { readers = t ∷ m.readers })
  Stays-joined t m u free = tt
  Stays-joined t m u writes = λ k. (k, refl)
  Stays-joined t m u reads = λ k. (inr k, refl)

  pub Stays-unlocked :
      (m : Memory A) (t u : ℕ)
      → u ≢ t
      → m.writer ≡ some t
      → (s : Side) → Stays s u m (record m { writer = none })
  Stays-unlocked m t u d w free = tt
  Stays-unlocked m t u d w writes = λ k. elim (d (ground (arith, k, w))) [ ]
  Stays-unlocked m t u d w reads = λ k. (k, refl)

  pub Stays-without :
      (m : Memory A) (t u : ℕ)
      → u ≢ t
      → (s : Side) → Stays s u m (record m { readers = without t m.readers })
  Stays-without m t u d free = tt
  Stays-without m t u d writes = λ k. (k, refl)
  Stays-without m t u d reads = λ k. (In-without u t m.readers d k, refl)

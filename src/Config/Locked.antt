-- ===== src/Config/Locked.antt =====
-- The named hooks of config/named_hooks.go under the mutex of config/config.go, used by several
-- goroutines: each method step by step, between taking the mutex and giving it back.
pub mod Held
pub mod Loops
pub mod Fine
pub mod Moves
pub mod Interleaved
pub mod Owners
pub mod Waiting
use theo_forge.Prelude.{
  ℕ, zero, suc, ◌-◌, Bool, true, false, Text, Option, none, some, List, [], ◌∷◌, ◌++◌, ◌==◌, ◌&&◌,
  take, length, is_empty, eqb, leb, if◌then◌else◌, String, Error, errorf, Result, ok, err,
}
use theo_forge.Config.Global.{NamedHook}
use theo_forge.Config.Named.{registered, register, remove, list_ids}

-- A call of one of the methods, and what it returns; a call can panic.
pub data Op (A : Type 0) : Type 0 where
  registering : Text → Option (A → A × Option Error) → Op A
  removing : Text → Op A
  listing : Op A

pub data Answer : Type 0 where
  registered_as : Result Text → Answer
  was_removed : Bool → Answer
  listed : List Text → Answer
  panic : Answer

-- A call that took effect, and the goroutine that made it.
pub record Entry (A : Type 0) : Type 0 where
  pub by : ℕ
  pub op : Op A
  pub answer : Answer

-- What the goroutines share: the hooks, the mutex by who holds it, and the calls so far, the last
-- one first.
pub record Memory (A : Type 0) : Type 0 where
  pub hooks : List (NamedHook A)
  pub writer : Option ℕ
  pub readers : List ℕ
  pub log : List (Entry A)

-- What a method does when it has the mutex; the name that is registered is not empty, and its function is not
-- nil.
pub data Job (A : Type 0) : Type 0 where
  enrolling : Text → (A → A × Option Error) → Job A
  deleting : Text → Job A
  reading : Job A

-- Where a goroutine stands, with its local variables.
pub data Place (A : Type 0) : Type 0 where
  outside : Place A
  waiting : Job A → Place A
  entered : Job A → Place A
  scanned : Text → (A → A × Option Error) → Bool → Place A
  sought : Text → Option ℕ → Place A
  allocated : ℕ → Place A
  unlocking : Place A
  read_unlocking : Place A

-- The cells of a slice that nothing was written to.
abbrev pub blank : ℕ → List Text
blank zero = []
blank (suc n) = [] ∷ blank n

-- The readers without one.
unfoldable pub without : ℕ → List ℕ → List ℕ
without t [] = []
without t (u ∷ us) = let rest = without t us in if eqb u t then rest else u ∷ rest

-- `i++`, while no hook is found.
abbrev pub next : Option ℕ → Option ℕ
next none = none
next (some i) = some (suc i)

abbrev pub is_unheld : Option ℕ → Bool
is_unheld none = true
is_unheld (some t) = false

module _ {A : Type 0} where
  -- The first index of a hook with the name.
  unfoldable pub index_of : Text → List (NamedHook A) → Option ℕ
  index_of id [] = none
  index_of id (h ∷ hs) = let later = index_of id hs in if h.id == id then some 0 else next later

  -- `hs[i:]`
  abbrev pub drop : ℕ → List (NamedHook A) → List (NamedHook A)
  drop zero hs = hs
  drop (suc i) [] = []
  drop (suc i) (h ∷ hs) = drop i hs

  -- `for i, h := range hs { out[i] = h.ID }`, where `out` has n cells.
  unfoldable pub fill : ℕ → List (NamedHook A) → Answer
  fill n hs = if leb (length hs) n then listed (list_ids hs ++ blank (n - length hs)) else panic

  unfoldable pub record_call : ℕ → Op A → Answer → Memory A → Memory A
  record_call t op answer m = record m { log = record { by = t; op = op; answer = answer } ∷ m.log }

  -- `g.mu.Lock()` waits while anyone has the mutex, `g.mu.RLock()` while a writer has it.
  unfoldable pub is_free : Job A → Memory A → Bool
  is_free reading m = is_unheld m.writer
  is_free (enrolling name f) m = is_unheld m.writer && is_empty m.readers
  is_free (deleting id) m = is_unheld m.writer && is_empty m.readers

  unfoldable pub acquire : ℕ → Job A → Memory A → Memory A
  acquire t reading m = record m { readers = t ∷ m.readers }
  acquire t (enrolling name f) m = record m { writer = some t }
  acquire t (deleting id) m = record m { writer = some t }

  -- The first statement inside: the loop of a registration, the loop of a removal, `make`.
  unfoldable pub look : Job A → Memory A → Place A
  look (enrolling name f) m = scanned name f (registered name m.hooks)
  look (deleting id) m = sought id (index_of id m.hooks)
  look reading m = allocated (length m.hooks)

  -- The end of a registration, once the loop has found the name or not.
  unfoldable pub enroll : String → ℕ → Text → (A → A × Option Error) → Bool → Memory A → Memory A
  enroll duplicate t name f true m =
      record_call t (registering name (some f)) (registered_as (err (errorf duplicate (name ∷ []))))
        m
  enroll duplicate t name f false m =
      record_call t (registering name (some f)) (registered_as (ok name))
        (record m { hooks = m.hooks ++ record { id = name; fn = f } ∷ [] })

  unfoldable pub delete : ℕ → Text → Option ℕ → Memory A → Memory A
  delete t id none m = record_call t (removing id) (was_removed false) m
  delete t id (some i) m =
      record_call t (removing id) (was_removed true)
        (record m { hooks = take i m.hooks ++ drop (suc i) m.hooks })

  -- One step of goroutine `t`; one that waits for the mutex stays where it is.
  unfoldable pub act : String → ℕ → Memory A → Place A → Memory A × Place A
  act duplicate t m outside = (m, outside)
  act duplicate t m (waiting job) =
      if is_free job m then (acquire t job m, entered job) else (m, waiting job)
  act duplicate t m (entered job) = (m, look job m)
  act duplicate t m (scanned name f found) = (enroll duplicate t name f found m, unlocking)
  act duplicate t m (sought id i) = (delete t id i m, unlocking)
  act duplicate t m (allocated n) = (record_call t listing (fill n m.hooks) m, read_unlocking)
  act duplicate t m unlocking = (record m { writer = none }, outside)
  act duplicate t m read_unlocking = (record m { readers = without t m.readers }, outside)

  -- The part of a method before it asks for the mutex.
  unfoldable pub begin : ℕ → Op A → Memory A → Memory A × Place A
  begin t (registering name fn) m =
      if is_empty name
      then (
        record_call t (registering name fn)
            (registered_as (err (errorf "config: named hook requires a non-empty name" []))) m,
        outside,
      )
      else elim fn [
        | none ↦ (
          record_call t (registering name none)
              (registered_as
                (err (errorf "config: named hook %q requires a non-nil function" (name ∷ []))))
              m,
          outside,
        )
        | some f ↦ (m, waiting (enrolling name f))
      ]
  begin t (removing id) m = (m, waiting (deleting id))
  begin t listing m = (m, waiting reading)

  -- The calls one after the other, each in one piece.
  unfoldable pub perform : String → Op A → List (NamedHook A) → List (NamedHook A) × Answer
  perform duplicate (registering name fn) hs =
      let (after, r) = register duplicate hs name fn in (after, registered_as r)
  perform duplicate (removing id) hs = let (after, b) = remove id hs in (after, was_removed b)
  perform duplicate listing hs = (hs, listed (list_ids hs))

-- The goroutines, by number, over the memory; each has calls still to make.
pub record System (A : Type 0) : Type 0 where
  pub memory : Memory A
  pub at : ℕ → Place A
  pub todo : ℕ → List (Op A)

abbrev pub moved {ℓ} : {B : Type ℓ} → ℕ → B → (ℕ → B) → ℕ → B
moved t b f u = if eqb u t then b else f u

module _ {A : Type 0} where
  unfoldable pub settled : ℕ → System A → List (Op A) → Memory A × Place A → System A
  settled t s ops (m, p) = record { memory = m; at = moved t p s.at; todo = moved t ops s.todo }

  -- A turn of goroutine `t`, which stands at a place and has calls to make: outside, it begins the next
  -- one, if there is one.
  unfoldable pub turn_at : String → ℕ → System A → Place A → List (Op A) → System A
  turn_at duplicate t s outside [] = s
  turn_at duplicate t s outside (op ∷ ops) = settled t s ops (begin t op s.memory)
  turn_at duplicate t s p ops = settled t s ops (act duplicate t s.memory p)

  unfoldable pub turn : String → ℕ → System A → System A
  turn duplicate t s = turn_at duplicate t s (s.at t) (s.todo t)

  -- The turns, in the order that the scheduler chose.
  unfoldable pub schedule : String → List ℕ → System A → System A
  schedule duplicate [] s = s
  schedule duplicate (t ∷ ts) s = schedule duplicate ts (turn duplicate t s)

  unfoldable pub opened : List (NamedHook A) → (ℕ → List (Op A)) → System A
  opened hs script = record {
    memory = record { hooks = hs; writer = none; readers = []; log = [] };
    at = λ u. outside;
    todo = script;
  }

-- ===== src/Config/Locked/Waiting.antt =====
-- No goroutine that uses the named hooks of config/named_hooks.go waits for the mutex of config/config.go
-- in vain: whoever has it gives it back.
use theo_forge.Prelude.{
  ℕ, zero, suc, ◌≤◌, true, false, Option, none, some, List, [], ◌∷◌, is_empty, eqb, String, ◌≡◌,
  ◌≢◌, refl, inl, inr, ◌⊎◌, arith, In, Bool-cases,
}
use theo_forge.Config.Global.{NamedHook}
use theo_forge.Config.Locked.{
  Op, Memory, Job, enrolling, deleting, reading, Place, outside, waiting, entered, scanned, sought,
  allocated, unlocking, read_unlocking, is_unheld, is_free, look, act, System, settled, turn_at,
  turn, schedule, opened,
}
use theo_forge.Config.Locked.Held.{free, side}
use theo_forge.Config.Locked.Owners.{IsOwned, AreOwned, schedule-AreOwned, opened-AreOwned}

abbrev pub turns : ℕ → ℕ → List ℕ
turns zero u = []
turns (suc k) u = u ∷ turns k u

held_by :
    (w : Option ℕ) (rs : List ℕ)
    → (is_unheld w ≡ false) ⊎ (is_empty rs ≡ false)
    → (u : ℕ) × ((w ≡ some u) ⊎ In u rs)
held_by (some u) rs h = (u, inl refl)
held_by none (r ∷ rs) h = (r, inr (inl refl))
held_by none [] h = elim h [ inl e ↦ ground (arith, e) | inr e ↦ ground (arith, e) ]

module _ {A : Type 0} where
  -- A turn of a goroutine that is not outside is one step of its method.
  turn-at :
      (duplicate : String) (t : ℕ) (s : System A) (p : Place A)
      → s.at t ≡ p
      → p ≢ outside
      → (turn duplicate t s).at t ≡ (act duplicate t s.memory p).1
  unfolding turn turn_at settled
  turn-at duplicate t s outside e n = elim (n refl) [ ]
  turn-at duplicate t s p e n = let own : eqb t t ≡ true = ground arith in rw (e, turn_at, own) refl

  -- Inside a method, with the mutex.
  abbrev pub IsInside : Place A → Type 0
  IsInside p = side p ≢ free

  -- A goroutine is outside after three turns, or fewer.
  abbrev pub Leaves : String → ℕ → System A → Type 0
  Leaves duplicate u s = (k : ℕ) × (k ≤ 3) × ((schedule duplicate (turns k u) s).at u ≡ outside)

  unlocking-leaves :
      (duplicate : String) (u : ℕ) (s : System A)
      → (s.at u ≡ unlocking) ⊎ (s.at u ≡ read_unlocking)
      → (turn duplicate u s).at u ≡ outside
  unfolding act
  unlocking-leaves duplicate u s (inl e) =
      turn-at duplicate u s unlocking e (λ q. ground (arith, q))
  unlocking-leaves duplicate u s (inr e) =
      turn-at duplicate u s read_unlocking e (λ q. ground (arith, q))

  second-leaves :
      (duplicate : String) (u : ℕ) (s : System A) (p : Place A)
      → s.at u ≡ p
      → IsInside p
      → ((job : Job A) → p ≢ entered job)
      → (k : ℕ) × (k ≤ 2) × ((schedule duplicate (turns k u) s).at u ≡ outside)
  unfolding schedule act
  second-leaves duplicate u s outside e i n = elim (i refl) [ ]
  second-leaves duplicate u s (waiting job) e i n = elim (i refl) [ ]
  second-leaves duplicate u s (entered job) e i n = elim (n job refl) [ ]
  second-leaves duplicate u s (scanned name f found) e i n = (
    2,
    omega arith,
    unlocking-leaves duplicate u (turn duplicate u s)
        (inl (turn-at duplicate u s (scanned name f found) e (λ q. ground (arith, q)))),
  )
  second-leaves duplicate u s (sought id j) e i n = (
    2,
    omega arith,
    unlocking-leaves duplicate u (turn duplicate u s)
        (inl (turn-at duplicate u s (sought id j) e (λ q. ground (arith, q)))),
  )
  second-leaves duplicate u s (allocated c) e i n = (
    2,
    omega arith,
    unlocking-leaves duplicate u (turn duplicate u s)
        (inr (turn-at duplicate u s (allocated c) e (λ q. ground (arith, q)))),
  )
  second-leaves duplicate u s unlocking e i n =
      (1, omega arith, unlocking-leaves duplicate u s (inl e))
  second-leaves duplicate u s read_unlocking e i n =
      (1, omega arith, unlocking-leaves duplicate u s (inr e))

  look-IsInside : (m : Memory A) (job : Job A) → IsInside (look job m)
  unfolding look
  look-IsInside m (enrolling name f) = λ q. ground (arith, q)
  look-IsInside m (deleting id) = λ q. ground (arith, q)
  look-IsInside m reading = λ q. ground (arith, q)

  look-entered : (m : Memory A) (job other : Job A) → look job m ≢ entered other
  unfolding look
  look-entered m (enrolling name f) other = λ q. ground (arith, q)
  look-entered m (deleting id) other = λ q. ground (arith, q)
  look-entered m reading other = λ q. ground (arith, q)

  inside-Leaves :
      (duplicate : String) (u : ℕ) (s : System A) (p : Place A)
      → s.at u ≡ p
      → IsInside p
      → Leaves duplicate u s
  unfolding schedule act
  inside-Leaves duplicate u s (entered job) e i =
      let (k, few, out) =
        second-leaves duplicate u (turn duplicate u s) (look job s.memory)
          (turn-at duplicate u s (entered job) e (λ q. ground (arith, q)))
          (look-IsInside s.memory job) (look-entered s.memory job) in
      (suc k, omega (arith, few), out)
  inside-Leaves duplicate u s outside e i = elim (i refl) [ ]
  inside-Leaves duplicate u s (waiting job) e i = elim (i refl) [ ]
  inside-Leaves duplicate u s p e i =
      let (k, few, out) = second-leaves duplicate u s p e i (λ job q. ground (arith, q)) in
      (k, omega (arith, few), out)

  barred :
      (m : Memory A) (job : Job A)
      → is_free job m ≡ false
      → (u : ℕ) × ((m.writer ≡ some u) ⊎ In u m.readers)
  unfolding is_free
  barred m reading f = held_by m.writer m.readers (inl f)
  barred m (enrolling name g) f = held_by m.writer m.readers (ground (arith, f))
  barred m (deleting id) f = held_by m.writer m.readers (ground (arith, f))

  owned-IsInside :
      (u : ℕ) (m : Memory A) (p : Place A)
      → IsOwned u m p
      → (m.writer ≡ some u) ⊎ In u m.readers
      → IsInside p
  owned-IsInside u m p o (inl w) = λ q. ground (arith, q, o.writing w)
  owned-IsInside u m p o (inr r) = λ q. ground (arith, q, o.reading_it r)

  -- Whatever turns went before, a goroutine that waits for the mutex gets it at its next turn, or some
  -- goroutine is inside a method with the mutex, and has given it back and is outside after at most
  -- three turns of its own.
  pub schedule-Leaves :
      (duplicate : String) (start : List (NamedHook A)) (script : ℕ → List (Op A)) (ts : List ℕ)
      (s : System A) (t : ℕ) (job : Job A)
      → s ≡ schedule duplicate ts (opened start script)
      → s.at t ≡ waiting job
      → ((turn duplicate t s).at t ≡ entered job)
        ⊎ ((u : ℕ) × IsInside (s.at u) × Leaves duplicate u s)
  unfolding act
  schedule-Leaves duplicate start script ts s t job e w = elim (Bool-cases (is_free job s.memory)) [
    | inl f ↦ inl (
        let step = turn-at duplicate t s (waiting job) w (λ q. ground (arith, q)) in
        rw (step, act, f) refl)
    | inr f ↦
        let (u, h) = barred s.memory job f in
        let o : AreOwned s =
          rw e
            (schedule-AreOwned duplicate ts (opened start script) (opened-AreOwned start script)) in
        let inside = owned-IsInside u s.memory (s.at u) (o u) h in
        inr (u, inside, inside-Leaves duplicate u s (s.at u) refl inside)
  ]

-- ===== src/Config/Locked/Interleaved.antt =====
-- The named hooks of config/named_hooks.go in every interleaving of the goroutines that use them: the mutex
-- of config/config.go makes each call one step.
use theo_forge.Prelude.{
  ℕ, AllDistinct, List, [], ◌∷◌, ◌++◌, eqb, String, ◌≡◌, ◌≢◌, refl, sym, inl, inr, arith,
  Bool-cases,
}
use mathlib.Core.List.{append_assoc}
use theo_forge.Config.Global.{NamedHook}
use theo_forge.Config.Named.{list_ids}
use theo_forge.Config.Hooks.{register-AllDistinct, remove-AllDistinct}
use theo_forge.Config.Locked.{
  Op, registering, removing, listing, Entry, perform, Memory, Place, outside, System, settled,
  turn_at, turn, schedule, opened,
}
use theo_forge.Config.Locked.Held.{side, IsSequential, history, pending, IsExclusive, Knows-Stays}
use theo_forge.Config.Locked.Fine.{IsFine, IsHeld}
use theo_forge.Config.Locked.Moves.{act-IsFine, begin-IsFine}

module _ {A : Type 0} where
  -- What holds of the whole between two steps.
  pub record IsSound (duplicate : String) (start : List (NamedHook A)) (script : ℕ → List (Op A))
      (s : System A) : Type 0 where
    pub held : (u : ℕ) → IsHeld u s.memory (s.at u)
    pub exclusive : IsExclusive s.memory
    pub sequential : IsSequential duplicate start s.memory.log s.memory.hooks
    pub ordered : (u : ℕ) → script u ≡ history u s.memory.log ++ pending (s.at u) ++ s.todo u

  settled-IsSound :
      (duplicate : String) (start : List (NamedHook A)) (script : ℕ → List (Op A)) (t : ℕ)
      (s : System A) (due ops : List (Op A)) (m : Memory A) (p : Place A)
      → IsSound duplicate start script s
      → IsFine duplicate start t due s.memory m p
      → pending (s.at t) ++ s.todo t ≡ due ++ ops
      → IsSound duplicate start script (settled t s ops (m, p))
  unfolding settled
  settled-IsSound duplicate start script t s due ops m p i f o = record {
    held = λ u. elim (Bool-cases (eqb u t)) [
      | inl e ↦ let same : u ≡ t = ground (arith, e) in rw (e, same) (f.holds, f.knows)
      | inr e ↦
          let other : u ≢ t = λ q. ground (arith, e, q) in
          rw e (
            Knows-Stays (s.at u) u s.memory m (f.others u other (side (s.at u))) (i.held u).0
              (i.held u).1)
    ];
    exclusive = f.exclusive;
    sequential = f.sequential;
    ordered = λ u. elim (Bool-cases (eqb u t)) [
      | inl e ↦
          let same : u ≡ t = ground (arith, e) in
          let h = history t s.memory.log in
          rw (e, same, f.ordered, i.ordered t, append_assoc h (pending (s.at t)) (s.todo t), o)
            (sym (append_assoc h due ops))
      | inr e ↦
          let other : u ≢ t = λ q. ground (arith, e, q) in rw (e, f.silent u other) (i.ordered u)
    ];
  }

  turn_at-IsSound :
      (duplicate : String) (start : List (NamedHook A)) (script : ℕ → List (Op A)) (t : ℕ)
      (s : System A) (p : Place A) (ops : List (Op A))
      → s.at t ≡ p
      → s.todo t ≡ ops
      → IsSound duplicate start script s
      → IsSound duplicate start script (turn_at duplicate t s p ops)
  unfolding turn_at
  turn_at-IsSound duplicate start script t s outside [] a d i = i
  turn_at-IsSound duplicate start script t s outside (op ∷ ops) a d i =
      settled-IsSound duplicate start script t s (op ∷ []) ops _ _ i
        (begin-IsFine duplicate start t s.memory op i.exclusive i.sequential) (rw (a, d) refl)
  turn_at-IsSound duplicate start script t s p ops a d i =
      settled-IsSound duplicate start script t s (pending p) ops _ _ i
        (act-IsFine duplicate start t s.memory p (rw a at (i.held t)) i.exclusive i.sequential)
        (rw (a, d) refl)

  pub schedule-IsSound :
      (duplicate : String) (start : List (NamedHook A)) (script : ℕ → List (Op A)) (ts : List ℕ)
      (s : System A)
      → IsSound duplicate start script s
      → IsSound duplicate start script (schedule duplicate ts s)
  unfolding schedule turn
  schedule-IsSound duplicate start script [] s i = i
  schedule-IsSound duplicate start script (t ∷ ts) s i =
      schedule-IsSound duplicate start script ts (turn duplicate t s)
        (turn_at-IsSound duplicate start script t s (s.at t) (s.todo t) refl refl i)

  pub opened-IsSound :
      (duplicate : String) (start : List (NamedHook A)) (script : ℕ → List (Op A))
      → IsSound duplicate start script (opened start script)
  unfolding opened
  opened-IsSound duplicate start script = record {
    held = λ u. (tt, tt);
    exclusive = inl refl;
    sequential = refl;
    ordered = λ u. refl;
  }

  -- However the turns of the goroutines interleave, the list of the named hooks and what the registrations,
  -- removals and listings have returned are those of the same calls made one after the other, each in one piece;
  -- in that order the calls of each goroutine stand as it makes them, without gaps.
  pub schedule-IsSequential :
      (duplicate : String) (start : List (NamedHook A)) (script : ℕ → List (Op A)) (ts : List ℕ)
      → let s = schedule duplicate ts (opened start script) in
        IsSequential duplicate start s.memory.log s.memory.hooks
        × ((u : ℕ) → script u ≡ history u s.memory.log ++ pending (s.at u) ++ s.todo u)
  schedule-IsSequential duplicate start script ts =
      let i =
        schedule-IsSound duplicate start script ts (opened start script)
          (opened-IsSound duplicate start script) in
      (i.sequential, i.ordered)

  perform-AllDistinct :
      (duplicate : String) (op : Op A) (hs : List (NamedHook A))
      → AllDistinct (list_ids hs)
      → AllDistinct (list_ids (perform duplicate op hs).0)
  unfolding perform
  perform-AllDistinct duplicate (registering name fn) hs d =
      register-AllDistinct duplicate hs name fn d
  perform-AllDistinct duplicate (removing id) hs d = remove-AllDistinct id hs d
  perform-AllDistinct duplicate listing hs d = d

  IsSequential-AllDistinct :
      (duplicate : String) (start : List (NamedHook A)) (log : List (Entry A))
      (hs : List (NamedHook A))
      → IsSequential duplicate start log hs
      → AllDistinct (list_ids start)
      → AllDistinct (list_ids hs)
  IsSequential-AllDistinct duplicate start [] hs q d = rw q d
  IsSequential-AllDistinct duplicate start (e ∷ log) hs (before, q, p) d = rw p at (
      perform-AllDistinct duplicate e.op before
        (IsSequential-AllDistinct duplicate start log before q d))

  -- On a list of named hooks with distinct names, no two hooks have the same name after any turns of goroutines
  -- that register, remove and list, whatever they interleave.
  pub schedule-AllDistinct :
      (duplicate : String) (start : List (NamedHook A)) (script : ℕ → List (Op A)) (ts : List ℕ)
      → AllDistinct (list_ids start)
      → AllDistinct (list_ids (schedule duplicate ts (opened start script)).memory.hooks)
  schedule-AllDistinct duplicate start script ts d =
      IsSequential-AllDistinct duplicate start _ _
        (schedule-IsSequential duplicate start script ts).0 d

-- ===== src/Config/Locked/Fine.antt =====
-- What a step of a goroutine that uses the named hooks of config/named_hooks.go must keep.
use theo_forge.Prelude.{ℕ, some, List, [], ◌∷◌, ◌++◌, String, ◌≡◌, ◌≢◌, refl}
use mathlib.Core.List.{append-nil}
use theo_forge.Config.Global.{NamedHook}
use theo_forge.Config.Locked.{Op, Answer, Memory, Place, unlocking, record_call, perform}
use theo_forge.Config.Locked.Held.{
  Side, side, Holds, Knows, IsSequential, history, pending, history-own, history-other, IsExclusive,
  Stays, Stays-same, Stays-alone,
}

module _ {A : Type 0} where
  -- A step of goroutine `t`, which has the calls `due`, keeps the log sequential and the mutex exclusive,
  -- and disturbs no other.
  pub record IsFine (duplicate : String) (start : List (NamedHook A)) (t : ℕ) (due : List (Op A))
      (m n : Memory A) (p : Place A) : Type 0 where
    pub holds : Holds (side p) t n
    pub knows : Knows p n
    pub exclusive : IsExclusive n
    pub sequential : IsSequential duplicate start n.log n.hooks
    pub others : (u : ℕ) → u ≢ t → (s : Side) → Stays s u m n
    pub ordered : history t n.log ++ pending p ≡ history t m.log ++ due
    pub silent : (u : ℕ) → u ≢ t → history u n.log ≡ history u m.log

  -- What every place of a goroutine has of memory.
  abbrev pub IsHeld : ℕ → Memory A → Place A → Type 0
  IsHeld t m p = Holds (side p) t m × Knows p m

  -- A call that takes effect while its goroutine writes.
  pub recorded-IsFine :
      (duplicate : String) (start : List (NamedHook A)) (t : ℕ) (m : Memory A) (op : Op A)
      (answer : Answer) (hs : List (NamedHook A))
      → m.writer ≡ some t
      → IsExclusive m
      → IsSequential duplicate start m.log m.hooks
      → perform duplicate op m.hooks ≡ (hs, answer)
      → IsFine duplicate start t
          (op ∷ [])
          m
          (record_call t op answer (record m { hooks = hs }))
          unlocking
  unfolding record_call
  recorded-IsFine duplicate start t m op answer hs w x q e = record {
    holds = w;
    knows = tt;
    exclusive = x;
    sequential = (m.hooks, q, e);
    others = λ u d. Stays-alone m _ t u d w x;
    ordered = rw (history-own t op answer m.log) (append-nil _);
    silent = λ u d. history-other t u op answer m.log d;
  }

  -- A step after which memory has the same hooks and the same holders of the mutex.
  pub unchanged-IsFine :
      (duplicate : String) (start : List (NamedHook A)) (t : ℕ) (m : Memory A) (p : Place A)
      → IsHeld t m p
      → IsExclusive m
      → IsSequential duplicate start m.log m.hooks
      → IsFine duplicate start t (pending p) m m p
  unchanged-IsFine duplicate start t m p (h, k) x q = record {
    holds = h;
    knows = k;
    exclusive = x;
    sequential = q;
    others = λ u d. Stays-same m m u refl refl refl;
    ordered = refl;
    silent = λ u d. refl;
  }

  -- A call that takes effect and leaves the hooks as they are.
  pub answered-IsFine :
      (duplicate : String) (start : List (NamedHook A)) (t : ℕ) (m : Memory A) (p : Place A)
      (op : Op A) (answer : Answer)
      → IsHeld t (record_call t op answer m) p
      → IsExclusive m
      → IsSequential duplicate start m.log m.hooks
      → perform duplicate op m.hooks ≡ (m.hooks, answer)
      → pending p ≡ []
      → IsFine duplicate start t (op ∷ []) m (record_call t op answer m) p
  unfolding record_call
  answered-IsFine duplicate start t m p op answer (h, k) x q e nothing = record {
    holds = h;
    knows = k;
    exclusive = x;
    sequential = (m.hooks, q, e);
    others = λ u d. Stays-same m _ u refl refl refl;
    ordered = rw (history-own t op answer m.log, nothing) (append-nil _);
    silent = λ u d. history-other t u op answer m.log d;
  }

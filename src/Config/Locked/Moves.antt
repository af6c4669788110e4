-- ===== src/Config/Locked/Moves.antt =====
-- Each step of a goroutine that uses the named hooks of config/named_hooks.go is fine: the calls that took
-- effect stay those of a sequence, and no other goroutine is disturbed.
use theo_forge.Prelude.{
  ℕ, Bool, true, false, Text, Option, none, some, List, [], ◌∷◌, ◌++◌, is_empty, if◌then◌else◌,
  String, Error, ok, err, ◌≡◌, refl, sym, ◌&&◌, errorf, inl, inr, arith, Bool-cases,
}
use theo_forge.Config.Global.{NamedHook}
use theo_forge.Config.Named.{registered, register}
use theo_forge.Config.Locked.{
  Op, registering, removing, listing, registered_as, Memory, Job, enrolling, deleting, reading,
  Place, outside, waiting, entered, scanned, sought, allocated, unlocking, read_unlocking,
  is_unheld, fill, record_call, is_free, acquire, look, enroll, delete, without, act, begin,
  perform,
}
use theo_forge.Config.Locked.Fine.{
  IsFine, IsHeld, recorded-IsFine, unchanged-IsFine, answered-IsFine,
}
use theo_forge.Config.Locked.Loops.{remove-index_of-none, remove-index_of-some, fill-length}
use theo_forge.Config.Locked.Held.{
  IsJob, IsSequential, job_op, pending, IsExclusive, Stays-unheld, Stays-joined, Stays-unlocked,
  Stays-without,
}

unheld : (w : Option ℕ) → is_unheld w ≡ true → w ≡ none
unheld none e = refl
unheld (some t) e = ground (arith, e)

unused : (w : Option ℕ) (rs : List ℕ) → (is_unheld w && is_empty rs) ≡ true → (w ≡ none) × (rs ≡ [])
unused none [] e = (refl, refl)
unused none (r ∷ rs) e = ground (arith, e)
unused (some t) rs e = ground (arith, e)

without-nil : (t : ℕ) (us : List ℕ) → us ≡ [] → without t us ≡ []
unfolding without
without-nil t us e = rw e refl

module _ {A : Type 0} where
  pub acquire-IsFine :
      (duplicate : String) (start : List (NamedHook A)) (t : ℕ) (m : Memory A) (job : Job A)
      → IsJob job
      → IsSequential duplicate start m.log m.hooks
      → is_free job m ≡ true
      → IsFine duplicate start t (job_op job ∷ []) m (acquire t job m) (entered job)
  unfolding acquire is_free
  acquire-IsFine duplicate start t m reading j q f = record {
    holds = inl refl;
    knows = tt;
    exclusive = inl (unheld m.writer f);
    sequential = q;
    others = λ u d. Stays-joined t m u;
    ordered = refl;
    silent = λ u d. refl;
  }
  acquire-IsFine duplicate start t m (deleting id) j q f =
      let (w, r) = unused m.writer m.readers f in
      record {
        holds = refl;
        knows = tt;
        exclusive = inr r;
        sequential = q;
        others = λ u d. Stays-unheld m _ u w r;
        ordered = refl;
        silent = λ u d. refl;
      }
  acquire-IsFine duplicate start t m (enrolling name g) j q f =
      let (w, r) = unused m.writer m.readers f in
      record {
        holds = refl;
        knows = j;
        exclusive = inr r;
        sequential = q;
        others = λ u d. Stays-unheld m _ u w r;
        ordered = refl;
        silent = λ u d. refl;
      }

  pub perform-registering :
      (duplicate : String) (name : Text) (f : A → A × Option Error) (found : Bool)
      (hs : List (NamedHook A))
      → is_empty name ≡ false
      → found ≡ registered name hs
      → perform duplicate (registering name (some f)) hs ≡ (
          if found
          then (hs, registered_as (err (errorf duplicate (name ∷ []))))
          else (hs ++ record { id = name; fn = f } ∷ [], registered_as (ok name)))
  unfolding perform register
  perform-registering duplicate name f true hs e r = rw (e, ← r) refl
  perform-registering duplicate name f false hs e r = rw (e, ← r) refl

  pub enroll-IsFine :
      (duplicate : String) (start : List (NamedHook A)) (t : ℕ) (m : Memory A) (name : Text)
      (f : A → A × Option Error) (found : Bool)
      → IsHeld t m (scanned name f found)
      → IsExclusive m
      → IsSequential duplicate start m.log m.hooks
      → IsFine duplicate start t
          (registering name (some f) ∷ [])
          m
          (enroll duplicate t name f found m)
          unlocking
  unfolding enroll
  enroll-IsFine duplicate start t m name f true (w, (e, r)) x q =
      recorded-IsFine duplicate start t m _ _ m.hooks w x q
        (perform-registering duplicate name f true m.hooks e r)
  enroll-IsFine duplicate start t m name f false (w, (e, r)) x q =
      recorded-IsFine duplicate start t m _ _ _ w x q
        (perform-registering duplicate name f false m.hooks e r)

  pub delete-IsFine :
      (duplicate : String) (start : List (NamedHook A)) (t : ℕ) (m : Memory A) (id : Text)
      (i : Option ℕ)
      → IsHeld t m (sought id i)
      → IsExclusive m
      → IsSequential duplicate start m.log m.hooks
      → IsFine duplicate start t (removing id ∷ []) m (delete t id i m) unlocking
  unfolding delete perform
  delete-IsFine duplicate start t m id none (w, e) x q =
      recorded-IsFine duplicate start t m _ _ m.hooks w x q
        (rw (remove-index_of-none id m.hooks (sym e)) refl)
  delete-IsFine duplicate start t m id (some i) (w, e) x q =
      recorded-IsFine duplicate start t m _ _ _ w x q
        (rw (remove-index_of-some id m.hooks i (sym e)) refl)

  pub looked-IsFine :
      (duplicate : String) (start : List (NamedHook A)) (t : ℕ) (m : Memory A) (job : Job A)
      → IsHeld t m (entered job)
      → IsExclusive m
      → IsSequential duplicate start m.log m.hooks
      → IsFine duplicate start t (job_op job ∷ []) m m (look job m)
  unfolding look
  looked-IsFine duplicate start t m (enrolling name f) (h, j) x q =
      unchanged-IsFine duplicate start t m (scanned name f _) (h, (j, refl)) x q
  looked-IsFine duplicate start t m (deleting id) (h, j) x q =
      unchanged-IsFine duplicate start t m (sought id _) (h, refl) x q
  looked-IsFine duplicate start t m reading (h, j) x q =
      unchanged-IsFine duplicate start t m (allocated _) (h, refl) x q

  pub act-IsFine :
      (duplicate : String) (start : List (NamedHook A)) (t : ℕ) (m : Memory A) (p : Place A)
      → IsHeld t m p
      → IsExclusive m
      → IsSequential duplicate start m.log m.hooks
      → IsFine duplicate start t (pending p) m (act duplicate t m p).0 (act duplicate t m p).1
  unfolding act perform record_call
  act-IsFine duplicate start t m outside h x q = unchanged-IsFine duplicate start t m outside h x q
  act-IsFine duplicate start t m (waiting job) h x q = elim (Bool-cases (is_free job m)) [
    | inl f ↦ rw f (acquire-IsFine duplicate start t m job h.1 q f)
    | inr f ↦ rw f (unchanged-IsFine duplicate start t m (waiting job) h x q)
  ]
  act-IsFine duplicate start t m (entered job) h x q = looked-IsFine duplicate start t m job h x q
  act-IsFine duplicate start t m (scanned name f found) h x q =
      enroll-IsFine duplicate start t m name f found h x q
  act-IsFine duplicate start t m (sought id i) h x q = delete-IsFine duplicate start t m id i h x q
  act-IsFine duplicate start t m (allocated n) h x q =
      answered-IsFine duplicate start t m read_unlocking listing (fill n m.hooks) (h.0, tt) x q
        (rw (h.1, fill-length m.hooks) refl) refl
  act-IsFine duplicate start t m unlocking h x q = record {
    holds = tt;
    knows = tt;
    exclusive = inl refl;
    sequential = q;
    others = λ u d. Stays-unlocked m t u d h.0;
    ordered = refl;
    silent = λ u d. refl;
  }
  act-IsFine duplicate start t m read_unlocking h x q = record {
    holds = tt;
    knows = tt;
    exclusive = elim x [ inl w ↦ inl w | inr r ↦ inr (without-nil t m.readers r) ];
    sequential = q;
    others = λ u d. Stays-without m t u d;
    ordered = refl;
    silent = λ u d. refl;
  }

  pub begin-IsFine :
      (duplicate : String) (start : List (NamedHook A)) (t : ℕ) (m : Memory A) (op : Op A)
      → IsExclusive m
      → IsSequential duplicate start m.log m.hooks
      → IsFine duplicate start t (op ∷ []) m (begin t op m).0 (begin t op m).1
  unfolding begin perform register
  begin-IsFine duplicate start t m (registering name none) x q = elim (Bool-cases (is_empty name)) [
    | inl e ↦ rw e (answered-IsFine duplicate start t m outside _ _ (tt, tt) x q (rw e refl) refl)
    | inr e ↦ rw e (answered-IsFine duplicate start t m outside _ _ (tt, tt) x q (rw e refl) refl)
  ]
  begin-IsFine duplicate start t m (registering name (some f)) x q =
      elim (Bool-cases (is_empty name)) [
        | inl e ↦
            rw e (answered-IsFine duplicate start t m outside _ _ (tt, tt) x q (rw e refl) refl)
        | inr e ↦
            rw e (unchanged-IsFine duplicate start t m (waiting (enrolling name f)) (tt, e) x q)
      ]
  begin-IsFine duplicate start t m (removing id) x q =
      unchanged-IsFine duplicate start t m (waiting (deleting id)) (tt, tt) x q
  begin-IsFine duplicate start t m listing x q =
      unchanged-IsFine duplicate start t m (waiting reading) (tt, tt) x q

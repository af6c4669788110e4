-- ===== src/Examples/Threads.antt =====
-- Goroutines that use the same named hooks.
use theo_forge.Prelude.{
  ℕ, zero, suc, text, none, some, List, [], ◌∷◌, ◌++◌, ◌==◌, ◌≡◌, refl, ◌⊎◌, AllDistinct,
}
use theo_forge.Config.Named.{list_ids, registered}
use theo_forge.Config.Locked.{
  Op, registering, removing, listing, enrolling, System, waiting, entered, turn, schedule, opened,
  turn_at, settled, begin, act, is_free, acquire, look, enroll, record_call,
}
use theo_forge.Config.Locked.Held.{IsSequential, history, pending}
use theo_forge.Config.Locked.Interleaved.{schedule-IsSequential, schedule-AllDistinct}
use theo_forge.Config.Locked.Waiting.{IsInside, Leaves, schedule-Leaves}

abbrev double : ℕ → List (Op ℕ)
double zero = registering (text "double") (some (λ n. (n, none))) ∷ listing ∷ []
double (suc zero) =
    registering (text "double") (some (λ n. (suc n, none))) ∷ removing (text "double") ∷ []
double (suc (suc t)) = []

abbrev mixed : List ℕ
mixed = 0 ∷ 1 ∷ 1 ∷ 0 ∷ 1 ∷ 0 ∷ 1 ∷ 1 ∷ 0 ∷ 0 ∷ 1 ∷ 0 ∷ 0 ∷ []

schedule-IsSequential_example :
    let s = schedule "%q taken" mixed (opened [] double) in
    IsSequential "%q taken" [] s.memory.log s.memory.hooks
    × ((u : ℕ) → double u ≡ history u s.memory.log ++ pending (s.at u) ++ s.todo u)
schedule-IsSequential_example = schedule-IsSequential "%q taken" [] double mixed

schedule-AllDistinct_example :
    AllDistinct (list_ids (schedule "%q taken" mixed (opened [] double)).memory.hooks)
unfolding list_ids
schedule-AllDistinct_example = schedule-AllDistinct "%q taken" [] double mixed tt

one_left : list_ids (schedule "%q taken" mixed (opened [] double)).memory.hooks ≡ text "double" ∷ []
unfolding schedule turn list_ids turn_at opened settled begin act is_free acquire look enroll
    registered record_call ◌==◌
one_left = refl

-- Goroutine 0 has the mutex, and goroutine 1 waits for it.
abbrev contended : System ℕ
contended = schedule "%q taken" (0 ∷ 0 ∷ 1 ∷ []) (opened [] double)

contended-waiting : contended.at 1 ≡ waiting (enrolling (text "double") (λ n. (suc n, none)))
unfolding schedule turn turn_at opened settled begin act is_free acquire
contended-waiting = refl

schedule-Leaves_example :
    ((turn "%q taken" 1 contended).at 1 ≡ entered (enrolling (text "double") (λ n. (suc n, none))))
    ⊎ ((u : ℕ) × IsInside (contended.at u) × Leaves "%q taken" u contended)
schedule-Leaves_example =
    schedule-Leaves "%q taken" [] double (0 ∷ 0 ∷ 1 ∷ []) contended 1
      (enrolling (text "double") (λ n. (suc n, none))) refl contended-waiting

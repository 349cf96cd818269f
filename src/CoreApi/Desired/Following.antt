-- ===== src/CoreApi/Desired/Following.antt =====
-- The loop of route/coreapi/desired.go that follows the state that is wanted: the core comes back, and stays away.
use kokorobox_service.CoreApi.Desired.{
  set, drawn, stop_failed, stop_core, Json, core_stop, DesiredCoreManager, attempt, process_found,
  start_core_with, reconcile, reconcile_found,
}
use kokorobox_service.Common.Effects.{next_fault, attempt_with-Post, Post-bind, Post, Fault, works}
use kokorobox_service.Common.{
  none, Bool, ℕ, Option, refl, [], ◌∷◌, All, List, arith, ◌≡◌, false, true,
}
use kokorobox_service.CoreApi.Desired.Persisted.{set-Holds}

-- A tick of the watch, by how its calls turn out, or the end of the process.
pub data Event : Type 0 where
  tick : Fault → Fault → Event
  dies : Event

unfoldable pub happen : DesiredCoreManager → Event → DesiredCoreManager
happen m (tick f g) = reconcile (record m { faults = f ∷ g ∷ [] })
happen m dies = record m { core_runs = false }

unfoldable pub happen_all : DesiredCoreManager → List Event → DesiredCoreManager
happen_all m [] = m
happen_all m (e ∷ es) = happen_all (happen m e) es

abbrev pub IsTick : Event → Type 0
IsTick (tick f g) = Unit
IsTick dies = ⊥

-- The core is wanted, and there is one to start.
abbrev pub IsWanted : DesiredCoreManager → Type 0
IsWanted m = (m.running ≡ true) × (m.has_core ≡ true)

happen-IsWanted : (m : DesiredCoreManager) (e : Event) → IsWanted m → IsWanted (happen m e)
unfolding happen reconcile reconcile_found process_found start_core_with attempt
happen-IsWanted m (tick works works) w = ground arith
happen-IsWanted m (tick _ _) w = ground arith
happen-IsWanted m dies w = w

-- What holds of the manager at every tick holds after any ticks and deaths.
happen_all_lem :
    (P : DesiredCoreManager → Type 0) (Q : Event → Type 0)
    → ((m : DesiredCoreManager) (e : Event) → Q e → P m → P (happen m e))
    → (m : DesiredCoreManager) (es : List Event) → All Q es
    → P m
    → P (happen_all m es)
unfolding happen_all
happen_all_lem P Q step m [] q p = p
happen_all_lem P Q step m (e ∷ es) q p =
    happen_all_lem P Q step (happen m e) es q.1 (step m e q.0 p)

tick_runs :
    (m : DesiredCoreManager) (e : Event)
    → IsTick e
    → m.core_runs ≡ true
    → (happen m e).core_runs ≡ true
unfolding happen reconcile reconcile_found process_found start_core_with attempt
tick_runs m (tick works works) q p = ground arith
tick_runs m (tick _ _) q p = ground arith
tick_runs m dies q p = absurd q

tick_starts : (m : DesiredCoreManager) → IsWanted m → (happen m (tick works works)).core_runs ≡ true
unfolding happen reconcile reconcile_found process_found start_core_with attempt
tick_starts m w = ground arith

Anything : (es : List Event) → All (λ _. Unit {0}) es
Anything [] = tt
Anything (e ∷ es) = (tt, Anything es)

-- Where the core is wanted, it runs after the first tick at which no call fails, whatever ticks and deaths came before,
-- and it still does after further ticks, whatever fails in them, until it dies.
pub wanted_core_runs :
    (m : DesiredCoreManager) (past quiet : List Event)
    → m.running ≡ true
    → m.has_core ≡ true
    → All IsTick quiet
    → (happen_all (happen (happen_all m past) (tick works works)) quiet).core_runs ≡ true
wanted_core_runs m past quiet wanted core ticks =
    happen_all_lem (λ t. t.core_runs ≡ true) IsTick tick_runs _ quiet ticks
      (tick_starts (happen_all m past) (
        happen_all_lem IsWanted (λ _. Unit {0}) (λ t e _. happen-IsWanted t e) m past
          (Anything past) (wanted, core)))

-- Nobody wants the core, and it does not run.
abbrev IsOff : List (Option ℕ) → DesiredCoreManager → Type 0
IsOff launches m = (m.running ≡ false) × (m.core_runs ≡ false) × (m.launches ≡ launches)

happen-IsOff :
    (launches : List (Option ℕ)) (m : DesiredCoreManager) (e : Event)
    → IsOff launches m
    → IsOff launches (happen m e)
unfolding happen reconcile
happen-IsOff launches m (tick f g) off = ground arith
happen-IsOff launches m dies off = (off.0, refl, off.2)

-- After a `coreStop` that succeeds no tick starts the core again, whatever ticks and deaths of the core follow, as long
-- as no request sets the wanted state again.
pub stopped_core_stays :
    (json : Json) (windows : Bool) (m : DesiredCoreManager) (es : List Event)
    → Post
        (λ _ t. ((happen_all t es).core_runs ≡ false) × ((happen_all t es).launches ≡ m.launches))
        (λ _ t. Unit {0})
        (core_stop json windows m)
unfolding core_stop
stopped_core_stays json windows m es =
    Post-bind _ _ _ (set json windows false none m) _ (set-Holds json windows false none m)
      (λ _ t set_off.
        unfold stop_core attempt in
        attempt_with-Post _ _ (next_fault t.faults) _ stop_failed (drawn t)
          (let off =
              happen_all_lem (IsOff m.launches) (λ _. Unit {0})
                (λ u e _. happen-IsOff m.launches u e) (record (drawn t) { core_runs = false }) es
                (Anything es) (set_off.0, refl, set_off.2) in
            (off.1, off.2))
          tt tt)

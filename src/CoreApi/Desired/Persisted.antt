-- ===== src/CoreApi/Desired/Persisted.antt =====
-- What `set` of route/coreapi/desired.go leaves for the next start of the service.
use kokorobox_service.Common.Effects.{
  next_fault, attempt_with-Post, Post-mono, Outcome, done, Post, Post-bind,
}
use kokorobox_service.CoreApi.Desired.{
  set, log_group_for, load_from, load, DesiredCoreState, Json, DesiredCoreManager, DesiredError,
  attempt, file_call, drawn, adopt, write_state, flush_directory, store,
}
use kokorobox_service.Common.{
  List, [], by_test, ◌⊎◌, Text, ℕ, Bool, ◌≡◌, Option, inr, inl, some, refl,
}

-- What was encoded is decoded as it was.
abbrev pub Decodes : Json → Type 0
Decodes json = (s : DesiredCoreState) → json.decode (json.encode s) ≡ some s

-- The file is as it was, or holds the new state.
abbrev OldOrNew : Json → Option Text → DesiredCoreState → DesiredCoreManager → Type 0
OldOrNew json old state t = (t.disk ≡ old) ⊎ (t.disk ≡ some (json.encode state))

-- What memory holds, and how the core was started.
abbrev pub Holds : Bool → Option ℕ → List (Option ℕ) → DesiredCoreManager → Type 0
Holds running group launches t =
    (t.running ≡ running) × (t.log_group ≡ group) × (t.launches ≡ launches)

attempt-Post :
    (P Q : DesiredCoreManager → Type 0) (effect : DesiredCoreManager → DesiredCoreManager)
    (e : DesiredError) (m : DesiredCoreManager)
    → P (effect (drawn m))
    → Q (drawn m)
    → Q (effect (drawn m))
    → Post (λ _. P) (λ _. Q) (attempt effect e m)
unfolding attempt
attempt-Post P Q effect e m = attempt_with-Post P Q (next_fault m.faults) effect e (drawn m)

module _ (json : Json) (windows : Bool) (r : Bool) (g : Option ℕ) (l : List (Option ℕ))
    (old : Option Text) (r' : Bool) (g' : Option ℕ) where
  abbrev state : DesiredCoreState
  state = record { version = 1; running = r'; log_group = g' }

  -- Memory is as it was, and the file as it was, or new.
  abbrev Before : DesiredCoreManager → Type 0
  Before t = Holds r g l t × (t.disk ≡ old)

  abbrev Written : DesiredCoreManager → Type 0
  Written t = Holds r g l t × (t.disk ≡ some (json.encode state))

  abbrev Failed : DesiredCoreManager → Type 0
  Failed t = Holds r g l t × OldOrNew json old state t

  file_call-Before :
      (m : DesiredCoreManager) → Before m → Post (λ _. Before) (λ _. Failed) (file_call m)
  unfolding file_call
  file_call-Before m b = attempt-Post Before Failed _ _ m b (b.0, inl b.1) (b.0, inl b.1)

  write_state-Post :
      (m : DesiredCoreManager)
      → Before m
      → Post (λ _. Written) (λ _. Failed) (write_state json state m)
  unfolding write_state
  write_state-Post m b =
      Post-bind (λ _. Before) (λ _. Failed) (λ _. Written) _ _ (file_call-Before m b)
        λ _ m b.
          Post-bind (λ _. Before) (λ _. Failed) (λ _. Written) _ _ (file_call-Before m b)
            λ _ m b.
              Post-bind (λ _. Before) (λ _. Failed) (λ _. Written) _ _ (file_call-Before m b)
                λ _ m b.
                  Post-bind (λ _. Before) (λ _. Failed) (λ _. Written) _ _ (file_call-Before m b)
                    λ _ m b.
                      Post-bind (λ _. Before) (λ _. Failed) (λ _. Written) _ _
                        (file_call-Before m b)
                        λ _ m b.
                          attempt-Post Written Failed _ _ m (b.0, refl) (b.0, inl b.1)
                            (b.0, inr refl)

  flush_directory-Post :
      (m : DesiredCoreManager)
      → Written m
      → Post (λ _. Written) (λ _. Failed) (flush_directory windows m)
  unfolding flush_directory file_call
  flush_directory-Post m w =
      by_test (Post (λ _. Written) (λ _. Failed)) windows (λ _. w)
        λ _. Post-bind (λ _. Written) (λ _. Failed) (λ _. Written) _ _ (call m w) λ _ t v. call t v
    where
      call : (t : DesiredCoreManager) → Written t → Post (λ _. Written) (λ _. Failed) (file_call t)
      call t v =
          unfold file_call in attempt-Post Written Failed _ _ t v (v.0, inr v.1) (v.0, inr v.1)

  store-Post :
      (m : DesiredCoreManager)
      → Before m
      → Post
          (λ _ t. Holds r' g' l t × (t.disk ≡ some (json.encode state)))
          (λ _. Failed)
          (store json windows r' g' m)
  unfolding store adopt
  store-Post m b =
      Post-bind (λ _. Before) (λ _. Failed) _ _ _ (file_call-Before m b)
        λ _ m b.
          Post-bind (λ _. Written) (λ _. Failed) _ _ _ (write_state-Post m b)
            λ _ m w.
              Post-bind (λ _. Written) (λ _. Failed) _ _ _ (flush_directory-Post m w)
                λ _ m w. ((refl, refl, w.0.2), w.1)

pub set-Holds :
    (json : Json) (windows running : Bool) (group : Option ℕ) (m : DesiredCoreManager)
    → Post
        (λ _. Holds running (log_group_for running group m.log_group) m.launches)
        (λ _ t. Unit {0})
        (set json windows running group m)
unfolding set
set-Holds json windows running group m =
    let new = log_group_for running group m.log_group in
    by_test (Post _ _) m.has_path
      (λ _.
        Post-mono _ _ _ _ (store json windows running new m) (λ _ t w. w.0) (λ _ t f. tt)
          (store-Post json windows m.running m.log_group m.launches m.disk running new m
            ((refl, refl, refl), refl)))
      (λ _. tt)

-- A start of the service without faults.
abbrev pub reloaded : Json → DesiredCoreManager → Outcome DesiredError DesiredCoreManager (Unit {0})
reloaded json t = load json (record t { faults = [] })

reloads :
    (json : Json) (r : Bool) (g : Option ℕ) (l : List (Option ℕ)) (t : DesiredCoreManager)
    → Decodes json
    → Holds r g l t
    → t.disk ≡ some (json.encode (record { version = 1; running = r; log_group = g }))
    → reloaded json t ≡ done tt (record t { faults = [] })
unfolding load load_from adopt file_call attempt
reloads json r g l t decodes holds stored = rw (stored, load_from, decodes, holds.0, holds.1) refl

-- After a call of `set` that succeeds, a start of the service loads exactly what the manager holds; after one that
-- fails, whatever failed in it, the manager is as it was, and the file is as it was or holds the whole new state; if
-- what was encoded as JSON is decoded as it was.
pub set_survives :
    (json : Json) (windows running : Bool) (group : Option ℕ) (m : DesiredCoreManager)
    → Decodes json
    → Post
        (λ _ t. reloaded json t ≡ done tt (record t { faults = [] }))
        (λ _ t.
          (t.running ≡ m.running)
          × (t.log_group ≡ m.log_group)
          × ((t.disk ≡ m.disk)
              ⊎ (t.disk
                  ≡ some (
                      json.encode (record {
                        version = 1;
                        running = running;
                        log_group = log_group_for running group m.log_group;
                      })))))
        (set json windows running group m)
unfolding set
set_survives json windows running group m decodes =
    let new = log_group_for running group m.log_group in
    by_test (Post _ _) m.has_path
      (λ _.
        Post-mono _ _ _ _ (store json windows running new m)
          (λ _ t w. reloads json running new m.launches t decodes w.0 w.1)
          (λ _ t f. (f.0.0, f.0.1, f.1))
          (store-Post json windows m.running m.log_group m.launches m.disk running new m
            ((refl, refl, refl), refl)))
      (λ _. (refl, refl, inl refl))

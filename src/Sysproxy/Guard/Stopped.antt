-- ===== src/Sysproxy/Guard/Stopped.antt =====
-- A guard of sysproxy_guard.go that was stopped writes nothing any more, in whatever order the steps of the guards, the
-- requests and the users come.
use kokorobox_service.Common.{
  sym, ◌∙◌, ap, length, subst, [], false, refl, ◌==◌, ◌^◌, arith, ◌<◌, ◌+◌, ◌∷◌, Bool, ◌≤◌, List,
  ◌≡◌, All, Option, by_test, true, some, none, suc, zero, ℕ,
}
use kokorobox_service.Common.Effects.{
  Outcome, done, failure, Post, Post-bind, Post-after, after, attempt_with-Post, next_fault,
}
use kokorobox_service.Sysproxy.Snapshot.{guard_matches, GuardMode, ProxyConfig, Options}
use kokorobox_service.Sysproxy.Lease.{
  ProxySystem, ProxyError, Runner, State, attempt, drawn, next_generation, runner_query,
  runner_apply, stop_guard,
}
use kokorobox_service.Sysproxy.Lease.Expiry.{consult-Post}
use kokorobox_service.Sysproxy.Guard.{
  GuardConfig, start_guard, configure_guard, guard_restore, verify_restored, guard_config,
}

-- The state with the guards that were ever started. One that was stopped may still be about to restore.
pub record World (Os : Type 0) : Type 0 where
  pub state : State Os
  pub issued : List (ℕ × GuardConfig)

-- A request that starts a guard, one that stops it, the restoring of the guard at a place in the list, or a change from
-- outside.
pub data Act (Os : Type 0) : Type 0 where
  start : GuardMode → Options → Runner → Act Os
  stop : Act Os
  restore : ℕ → Act Os
  outside : Os → Act Os

unfoldable pub nth {ℓ} : {A : Type ℓ} → List A → ℕ → Option A
nth [] n = none
nth (x ∷ xs) zero = some x
nth (x ∷ xs) (suc n) = nth xs n

module _ {Os : Type 0} (sys : ProxySystem Os) where
  unfoldable pub started :
      List (ℕ × GuardConfig) → Outcome ProxyError (State Os) (Option (ℕ × GuardConfig)) → World Os
  started issued (done none t) = record { state = t; issued = issued }
  started issued (done (some i) t) = record { state = t; issued = i ∷ issued }
  started issued (failure e t) = record { state = t; issued = issued }

  unfoldable pub restore_with : Option (ℕ × GuardConfig) → World Os → World Os
  restore_with none w = w
  restore_with (some (generation, c)) w = record w {
    state = after (guard_restore sys generation c w.state);
  }

  unfoldable pub act : World Os → Act Os → World Os
  unfolding started restore_with nth
  act w (start mode opts r) = started w.issued (configure_guard sys true mode opts r w.state)
  act w stop = record w { state = stop_guard w.state }
  act w (restore k) = restore_with (nth w.issued k) w
  act w (outside os) = record w { state = record w.state { os = os } }

  unfoldable pub act_all : World Os → List (Act Os) → World Os
  act_all w [] = w
  act_all w (a ∷ acts) = act_all (act w a) acts

  abbrev pub IsQuiet : Act Os → Type 0
  IsQuiet (start mode opts r) = ⊥
  IsQuiet stop = Unit
  IsQuiet (restore k) = Unit
  IsQuiet (outside os) = ⊥

  abbrev generation_of : World Os → ℕ
  generation_of w = w.state.guard_generation

  -- No guard has a later generation than the current one, which so many acts have reached at most.
  abbrev Numbered : ℕ → World Os → Type 0
  Numbered k w = All (λ i. i.0 ≤ generation_of w) w.issued × (generation_of w ≤ k)

  All-weaken :
      (m n : ℕ) (is : List (ℕ × GuardConfig))
      → m ≤ n
      → All (λ i. i.0 ≤ m) is
      → All (λ i. i.0 ≤ n) is
  All-weaken m n [] le all = tt
  All-weaken m n (i ∷ is) le all = (omega arith, All-weaken m n is le all.1)

  next_generation_lem : (g k : ℕ) → g ≤ k → k + 1 < 2 ^ 64 → next_generation g ≡ g + 1
  next_generation_lem g k le small = omega arith

  abbrev Same : ℕ → State Os → Type 0
  Same g t = t.guard_generation ≡ g

  guard_restore-Same :
      (g generation : ℕ) (c : GuardConfig) (s : State Os)
      → Same g s
      → Same g (after (guard_restore sys generation c s))
  unfolding guard_restore runner_apply runner_query attempt verify_restored
  guard_restore-Same g generation c s same =
      by_test (λ (o : Outcome ProxyError (State Os) Bool). Same g (after o))
        (s.guard_generation == generation)
        (λ _. Post-after (Same g) _ (
          Post-bind (λ _. Same g) (λ _. Same g) (λ _. Same g) _ _
            (attempt_with-Post (Same g) (Same g) (next_fault s.faults) _ _ (drawn s) same same same)
            λ _ t same.
              Post-bind (λ _. Same g) (λ _. Same g) (λ _. Same g) _ _
                (consult-Post (λ _. Same g) (λ _. Same g) _ _ t same same)
                λ current u same.
                  Post-bind (λ _. Same g) (λ _. Same g) (λ _. Same g) _ _ (verified current u same)
                    λ _ v same. same))
        (λ _. same)
    where
      verified :
          (current : ProxyConfig) (u : State Os)
          → Same g u
          → Post (λ _. Same g) (λ _. Same g) (verify_restored sys c current u)
      verified current u same =
          by_test
            (λ (f : State Os → Outcome ProxyError (State Os) (Unit {0})).
              Post (λ _. Same g) (λ _. Same g) (f u))
            (guard_matches c.mode c.expected current) (λ _. same) (λ _. same)

  configure_guard-Post :
      (g : ℕ) (mode : GuardMode) (opts : Options) (r : Runner) (s : State Os)
      → Same g s
      → Post
          (λ o t.
            (c : GuardConfig) × (o ≡ some (next_generation g, c)) × Same (next_generation g) t)
          (λ _. Same g)
          (configure_guard sys true mode opts r s)
  unfolding configure_guard runner_query start_guard
  configure_guard-Post g mode opts r s same =
      Post-bind (λ _. Same g) (λ _. Same g) _ (runner_query sys r opts s) _
        (consult-Post (λ _. Same g) (λ _. Same g) _ _ s same same)
        (λ current t same_t. (
          guard_config sys mode opts r current,
          ap (λ k. some (next_generation k, guard_config sys mode opts r current)) same_t,
          ap next_generation same_t,
        ))

  restore_with-Numbered :
      (k : ℕ) (w : World Os) (o : Option (ℕ × GuardConfig))
      → Numbered k w
      → Numbered k (restore_with o w)
  unfolding restore_with
  restore_with-Numbered k w none n = n
  restore_with-Numbered k w (some (generation, c)) n =
      let same = guard_restore-Same (generation_of w) generation c w.state refl in rw same n

  started-Numbered :
      (k : ℕ) (w : World Os) (o : Outcome ProxyError (State Os) (Option (ℕ × GuardConfig)))
      → Numbered k w
      → k + 1 < 2 ^ 64
      → Post
          (λ i t.
            (c : GuardConfig) × (i ≡ some (next_generation (generation_of w), c))
            × Same (next_generation (generation_of w)) t)
          (λ _. Same (generation_of w))
          o
      → Numbered (k + 1) (started w.issued o)
  unfolding started
  started-Numbered k w (done none t) n small (c, e, same) = absurd (ground (arith, e))
  started-Numbered k w (done (some (i, d)) t) n small (c, e, same) =
      let next = next_generation_lem (generation_of w) k n.1 small in
      let number : i ≡ next_generation (generation_of w) = ground (arith, e) in
      (
        (omega arith, All-weaken (generation_of w) t.guard_generation w.issued (omega arith) n.0),
        omega arith,
      )
  started-Numbered k w (failure e t) n small same =
      (All-weaken (generation_of w) t.guard_generation w.issued (omega arith) n.0, omega arith)

  act-Numbered :
      (k : ℕ) (w : World Os) (a : Act Os)
      → Numbered k w
      → k + 1 < 2 ^ 64
      → Numbered (k + 1) (act w a)
  unfolding act stop_guard
  act-Numbered k w (start mode opts r) n small =
      started-Numbered k w (configure_guard sys true mode opts r w.state) n small
        (configure_guard-Post (generation_of w) mode opts r w.state refl)
  act-Numbered k w stop n small =
      let next = next_generation_lem (generation_of w) k n.1 small in
      (
        All-weaken (generation_of w) (next_generation (generation_of w)) w.issued (omega arith) n.0,
        omega arith,
      )
  act-Numbered k w (restore j) n small =
      let m = restore_with-Numbered k w (nth w.issued j) n in (m.0, omega arith)
  act-Numbered k w (outside os) n small = (n.0, omega arith)

  act_all-Numbered :
      (k : ℕ) (w : World Os) (acts : List (Act Os))
      → Numbered k w
      → k + length acts < 2 ^ 64
      → Numbered (k + length acts) (act_all w acts)
  unfolding act_all
  act_all-Numbered k w [] n small = (n.0, omega arith)
  act_all-Numbered k w (a ∷ acts) n small =
      let rest =
        act_all-Numbered (k + 1) (act w a) acts (act-Numbered k w a n (omega arith))
          (omega arith) in
      (rest.0, omega arith)

  -- All guards that were started have been stopped.
  abbrev Stale : ℕ → World Os → Type 0
  Stale k w = All (λ i. i.0 < generation_of w) w.issued × (generation_of w ≤ k)

  nth-All :
      (P : ℕ × GuardConfig → Type 0) (is : List (ℕ × GuardConfig)) (n : ℕ) {i : ℕ × GuardConfig}
      → All P is
      → nth is n ≡ some i
      → P i
  unfolding nth
  nth-All P [] n all e = absurd (ground (arith, e))
  nth-All P (j ∷ is) zero {i} all e = let same : j ≡ i = cc in subst P same all.0
  nth-All P (j ∷ is) (suc n) all e = nth-All P is n all.1 e

  -- What holds after an act that starts nothing: the settings and the guards are the same, and all are stopped.
  stale_restore :
      (w : World Os) (generation : ℕ) (c : GuardConfig)
      → generation < generation_of w
      → restore_with (some (generation, c)) w ≡ w
  unfolding restore_with guard_restore
  stale_restore w generation c old =
      let differs : (generation_of w == generation) ≡ false = ground arith in rw differs refl

  Stale-weaken :
      (m n : ℕ) (is : List (ℕ × GuardConfig))
      → m ≤ n
      → All (λ i. i.0 < m) is
      → All (λ i. i.0 < n) is
  Stale-weaken m n [] le all = tt
  Stale-weaken m n (i ∷ is) le all = (omega arith, Stale-weaken m n is le all.1)

  quiet-Stale :
      (k : ℕ) (w : World Os) (a : Act Os)
      → IsQuiet a
      → Stale k w
      → k + 1 < 2 ^ 64
      → Stale (k + 1) (act w a) × ((act w a).state.os ≡ w.state.os)
  unfolding act stop_guard
  quiet-Stale k w (start mode opts r) q stale small = absurd q
  quiet-Stale k w (outside os) q stale small = absurd q
  quiet-Stale k w stop q stale small =
      let next = next_generation_lem (generation_of w) k stale.1 small in
      (
        (
          Stale-weaken (generation_of w) (next_generation (generation_of w)) w.issued (omega arith)
              stale.0,
          omega arith,
        ),
        refl,
      )
  quiet-Stale k w (restore j) q stale small =
      subst (λ v. Stale (k + 1) v × (v.state.os ≡ w.state.os)) (sym (nothing (nth w.issued j) refl))
        ((stale.0, omega arith), refl)
    where
      nothing : (o : Option (ℕ × GuardConfig)) → nth w.issued j ≡ o → restore_with o w ≡ w
      nothing none e = unfold restore_with in refl
      nothing (some (generation, c)) e =
          stale_restore w generation c (nth-All (λ i. i.0 < generation_of w) w.issued j stale.0 e)

  quiet_all :
      (k : ℕ) (w : World Os) (acts : List (Act Os))
      → All IsQuiet acts
      → Stale k w
      → k + length acts < 2 ^ 64
      → (act_all w acts).state.os ≡ w.state.os
  unfolding act_all
  quiet_all k w [] q stale small = refl
  quiet_all k w (a ∷ acts) q stale small =
      let next = quiet-Stale k w a q.0 stale (omega arith) in
      quiet_all (k + 1) (act w a) acts q.1 next.0 (omega arith) ∙ next.1

  below :
      (m n : ℕ) (is : List (ℕ × GuardConfig))
      → m < n
      → All (λ i. i.0 ≤ m) is
      → All (λ i. i.0 < n) is
  below m n [] lt all = tt
  below m n (i ∷ is) lt all = (omega arith, below m n is lt all.1)

  -- Nothing has been started yet.
  abbrev pub new_world : State Os → World Os
  new_world s = record { state = record s { guard_generation = 0 }; issued = [] }

-- Once the guard is stopped, no guard that was started before writes the settings, whatever starts, stops, restorings and
-- changes came before, and whatever stops and restorings come after, in any order; if there are fewer than 2^64 of them.
pub stopped_guard_writes_nothing :
    {Os : Type 0} (sys : ProxySystem Os) (s : State Os) (past later : List (Act Os))
    → length past + 1 + length later < 2 ^ 64
    → All (IsQuiet sys) later
    → (act_all sys (act sys (act_all sys (new_world sys s) past) stop) later).state.os
      ≡ (act_all sys (new_world sys s) past).state.os
unfolding act stop_guard
stopped_guard_writes_nothing sys s past later few quiet =
    let reached = act_all-Numbered sys 0 (new_world sys s) past (tt, omega arith) (omega arith) in
    let w = act_all sys (new_world sys s) past in
    let next =
      next_generation_lem sys w.state.guard_generation (length past) (omega arith) (omega arith) in
    quiet_all sys (length past + 1) (record w { state = stop_guard w.state }) later quiet
      (
        below sys w.state.guard_generation (next_generation w.state.guard_generation) w.issued
            (omega arith) reached.0,
        omega arith,
      )
      (omega arith)

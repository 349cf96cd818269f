-- ===== src/Sysproxy/Records/Recovery.antt =====
-- What a start of the service makes of the record of an earlier one (sysproxy_lease_store.go).
use kokorobox_service.Sysproxy.Lease.Expiry.{given_up, consult-Post}
use kokorobox_service.Common.{
  Bool-cases, ap, inr, inl, if◌then◌else◌, sym, length, subst, by_test, ltb, ◌≡◌, [], Option, false,
  true, some, none, refl, ℕ,
}
use kokorobox_service.Common.Effects.{
  bind-done, attempt_with, pure, fail, ◌>>◌, later_faults, Outcome, done, failure, Post, Post-bind,
  Post-mono, Post-catch, after, catch, attempt_with-Post, next_fault,
}
use kokorobox_service.Sysproxy.Snapshot.{GuardMode, Options, new_guard_snapshot, guard_matches}
use kokorobox_service.Sysproxy.Lease.{
  query_failed, stop_guard, runner_disable, stop_managed_proxy_recovery, clear_lease, remove_record,
  renew_lease, ProxySystem, ProxyError, Runner, Lease, State, attempt, consult, Step,
  recovery_options, managed_options, recovery_user_matches, capture_lease, replace_lease,
  runner_query, session_options, drawn,
}
use kokorobox_service.Sysproxy.Records.{
  RecordJson, ManagedProxyRecord, is_known_mode, max_record_size, record_of, write_bytes,
  write_record, persist_with, persist_managed_proxy, capture_and_persist, abandon,
  begin_managed_proxy, recover_to, recover_record, recover_decoded, recover_from,
  recover_managed_proxy, recover_or_schedule, configure_recovery,
}

-- A record that is decoded as it was encoded.
abbrev pub Decodes : RecordJson → ManagedProxyRecord → Type 0
Decodes json r = json.decode (json.encode r) ≡ some r

-- A new process on the same system, without faults.
abbrev pub restarted : {Os : Type 0} → Os → State Os → State Os
restarted os s = record s {
  os = os;
  lease = none;
  lease_generation = 0;
  path_set = false;
  recovery_generation = 0;
  recovery_timer = none;
  guard_generation = 0;
  guard_running = false;
  faults = [];
}

abandon-fails :
    {Os : Type 0} (sys : ProxySystem Os) (json : RecordJson) (r : Runner) (opts : Options)
    (e : ProxyError) (s : State Os)
    → Post (λ _ _. ⊥) (λ _ _. Unit {0}) (abandon sys json r opts e s)
unfolding abandon
abandon-fails {Os} sys json r opts e s = go (runner_disable sys r opts (clear_lease (stop_guard s)))
  where
    go :
        (o : Outcome ProxyError (State Os) (Unit {0}))
        → Post
            (λ _ _. ⊥)
            (λ _ _. Unit {0})
            (elim o as (λ _. Outcome ProxyError (State Os) (Unit {0})) [
              | done _ t ↦ failure e (after (remove_record t))
              | failure _ t ↦ failure e t
            ])
    go (done a t) = tt
    go (failure d t) = tt

module _ {Os : Type 0} (sys : ProxySystem Os) (json : RecordJson) (r : Runner) (mode : GuardMode)
    (opts options : Options) (user : Option ℕ) (os : Os) where
  abbrev captured : Lease
  captured = record {
    mode = mode;
    opts = opts;
    expected = new_guard_snapshot mode (sys.query (session_options r opts) os);
    runner = r;
    deadline = 0;
    generation = 0;
    timer = none;
  }

  -- Nothing is recorded yet.
  abbrev Ready : State Os → Type 0
  Ready t = (t.authorized_uid ≡ user) × (t.os ≡ os)

  abbrev kept : ManagedProxyRecord
  kept = record_of captured options

  abbrev Fits : Type 0
  Fits =
      (ltb max_record_size (length (json.encode kept)) ≡ false)
      × (recovery_user_matches user (managed_options options) ≡ true)

  abbrev Recorded : State Os → Type 0
  Recorded t = Fits × (t.authorized_uid ≡ user) × (t.disk ≡ some (json.encode kept))

  abbrev Whatever : ProxyError → State Os → Type 0
  Whatever e t = Unit {0}

  write_bytes-Post :
      (t : State Os)
      → Fits
      → Ready t
      → Post (λ _. Recorded) Whatever (write_bytes sys json (json.encode kept) t)
  unfolding write_bytes attempt
  write_bytes-Post t fits ready =
      Post-bind (λ _. Ready) Whatever (λ _. Recorded) _ _
        (attempt_with-Post Ready (λ _. Unit {0}) (next_fault t.faults) _ _ (drawn t) ready tt tt)
        λ _ t ready.
          Post-bind (λ _. Ready) Whatever (λ _. Recorded) _ _
            (attempt_with-Post Ready (λ _. Unit {0}) (next_fault t.faults) _ _ (drawn t) ready tt
              tt)
            λ _ t ready.
              Post-bind (λ _. Recorded) Whatever (λ _. Recorded) _ _
                (attempt_with-Post Recorded (λ _. Unit {0}) (next_fault t.faults) _ _ (drawn t)
                  (fits, ready.0, refl) tt tt)
                λ _ t rec.
                  attempt_with-Post Recorded (λ _. Unit {0}) (next_fault t.faults) _ _ (drawn t) rec
                    tt tt

  persist-Post :
      (t : State Os)
      → recovery_options opts r ≡ some options
      → Ready t
      → Post (λ _. Recorded) Whatever (persist_managed_proxy sys json captured t)
  unfolding persist_managed_proxy persist_with write_record
  persist-Post t found ready =
      by_test (Post (λ _. Recorded) Whatever) t.path_set
        (λ _.
          subst (λ o. Post (λ _. Recorded) Whatever (persist_with sys json captured o t))
            (sym found)
            (by_test (Post (λ _. Recorded) Whatever)
              (recovery_user_matches t.authorized_uid (managed_options options))
              (λ same_user.
                by_test (λ (f : Step sys (Unit {0})). Post (λ _. Recorded) Whatever (f t))
                  (ltb max_record_size (length (json.encode kept))) (λ _. tt)
                  (λ fits.
                    write_bytes-Post t
                      (
                        fits,
                        subst (λ u. recovery_user_matches u (managed_options options) ≡ true)
                            ready.0 same_user,
                      )
                      ready))
              (λ _. tt)))
        (λ _. tt)

  begin-Post :
      (s : State Os)
      → recovery_options opts r ≡ some options
      → Ready s
      → Post (λ _. Recorded) Whatever (begin_managed_proxy sys json r mode opts s)
  unfolding begin_managed_proxy capture_and_persist capture_lease runner_query consult replace_lease
      renew_lease clear_lease stop_managed_proxy_recovery
  begin-Post s found ready =
      Post-bind (λ l t. (l ≡ captured) × Recorded t) Whatever (λ _. Recorded) _ _
        (Post-catch (λ l t. (l ≡ captured) × Recorded t) Whatever Whatever _ _ s
          (Post-bind (λ l t. (l ≡ captured) × Ready t) Whatever _ _ _ capture
            (λ l t p.
              subst
                (λ l.
                  Post (λ l t. (l ≡ captured) × Recorded t) Whatever
                    ((persist_managed_proxy sys json l >> pure l) t))
                (sym p.0)
                (Post-bind (λ _. Recorded) Whatever (λ l t. (l ≡ captured) × Recorded t) _ _
                  (persist-Post t found p.1) (λ _ u rec. (refl, rec)))))
          (λ e t _. abandoned e t))
        (λ l t p. p.1)
    where
      capture : Post (λ l t. (l ≡ captured) × Ready t) Whatever (capture_lease sys mode opts r s)
      capture =
          Post-bind (λ c t. (c ≡ sys.query (session_options r opts) os) × Ready t) Whatever
            (λ l t. (l ≡ captured) × Ready t) (runner_query sys r opts s) _
            (consult-Post (λ c t. (c ≡ sys.query (session_options r opts) os) × Ready t) Whatever
              (λ t. sys.query (session_options r opts) t.os) query_failed s
              (ap (sys.query (session_options r opts)) ready.1, ready) tt)
            (λ c t p. (ap (λ c. record captured { expected = new_guard_snapshot mode c }) p.0, p.1))

      abandoned :
          (e : ProxyError) (t : State Os)
          → Post
              (λ l t. (l ≡ captured) × Recorded t)
              Whatever
              ((abandon sys json r opts e >> fail {A = Lease} e) t)
      abandoned e t =
          Post-bind (λ _ _. ⊥) Whatever _ _ _ (abandon-fails sys json r opts e t)
            (λ _ u no. absurd no)

  -- What the recovery makes of the settings that it finds.
  abbrev pub given_back : Os → Os
  given_back now =
      if guard_matches mode (new_guard_snapshot mode (sys.query (session_options r opts) os))
        (sys.query (managed_options options) now)
      then sys.disable (managed_options options) now
      else now

  recover_record_lem :
      (u : State Os)
      → u.faults ≡ []
      → recovery_user_matches u.authorized_uid (managed_options options) ≡ true
      → recover_record sys json kept u ≡ done tt (record u { os = given_back u.os })
  unfolding recover_record recover_to consult attempt attempt_with
  recover_record_lem u calm match =
      elim (Bool-cases
        (guard_matches mode captured.expected (sys.query (managed_options options) u.os))) [
          | inl same ↦ rw (match, calm, recover_to, same) refl
          | inr other ↦ rw (match, calm, recover_to, other) refl
        ]

  abbrev found_again : Os → State Os → State Os
  found_again now t = record t {
    os = now;
    lease = none;
    lease_generation = 0;
    path_set = true;
    recovery_generation = 1;
    recovery_timer = none;
    disk = some (json.encode kept);
    guard_generation = 0;
    guard_running = false;
    faults = [];
  }

  recover_managed_proxy_lem :
      (now : Os) (t : State Os)
      → Decodes json kept
      → is_known_mode mode ≡ true
      → ltb max_record_size (length (json.encode kept)) ≡ false
      → recovery_user_matches t.authorized_uid (managed_options options) ≡ true
      → recover_managed_proxy sys json (found_again now t)
        ≡ done tt (record (found_again now t) { os = given_back now; disk = none })
  unfolding recover_managed_proxy recover_from recover_decoded consult remove_record attempt
      attempt_with next_fault later_faults
  recover_managed_proxy_lem now t decodes known fits match =
      rw (fits, decodes, recover_decoded, known)
        (bind-done (recover_record sys json kept) (λ _. remove_record) (found_again now t)
          (recover_record_lem (found_again now t) refl match))

  restarted-given_back :
      (now : Os) (t : State Os)
      → Decodes json kept
      → is_known_mode mode ≡ true
      → Recorded t
      → (after (configure_recovery sys json (restarted now t))
          ≡ record (found_again now t) { os = given_back now; disk = none })
  unfolding configure_recovery recover_or_schedule catch attempt attempt_with next_fault
      later_faults stop_managed_proxy_recovery
  restarted-given_back now t decodes known rec =
      rw (rec.2, catch, recover_managed_proxy_lem now t decodes known rec.0.0 match) refl
    where
      match : recovery_user_matches t.authorized_uid (managed_options options) ≡ true
      match =
          subst (λ u. recovery_user_matches u (managed_options options) ≡ true) (sym rec.1) rec.0.1

-- The record of a lease that is taken on these settings.
abbrev pub taken :
    {Os : Type 0}
    → ProxySystem Os
    → Runner
    → GuardMode
    → Options
    → Options
    → Os
    → ManagedProxyRecord
taken sys r mode opts options os = record {
  version = 1;
  mode = mode;
  options = managed_options options;
  expected = new_guard_snapshot mode (sys.query (session_options r opts) os);
}

-- After `beginManagedProxy` has succeeded and the service has then stopped without notice, its next start takes back the
-- proxy that was set if the settings that it finds still are what they were at the beginning, and else leaves them
-- alone, and removes the record; if no call of that start fails, the record is decoded from JSON as it was encoded, its
-- mode is one of the two, and the session has options to recover with.
pub owned_proxy_recovered :
    {Os : Type 0} (sys : ProxySystem Os) (json : RecordJson) (r : Runner) (mode : GuardMode)
    (opts options : Options) (s : State Os) (found : Os)
    → Decodes json (taken sys r mode opts options s.os)
    → is_known_mode mode ≡ true
    → recovery_options opts r ≡ some options
    → Post
        (λ _ t.
          let u = after (configure_recovery sys json (restarted found t)) in
          (u.disk ≡ none)
          × (u.os
              ≡ given_up sys mode
                  (new_guard_snapshot mode (sys.query (session_options r opts) s.os))
                  (managed_options options)
                  found))
        (λ _ _. Unit {0})
        (begin_managed_proxy sys json r mode opts s)
owned_proxy_recovered sys json r mode opts options s found decodes known session =
    Post-mono _ _ _ _ (begin_managed_proxy sys json r mode opts s)
      (λ _ t rec.
        let e =
          restarted-given_back sys json r mode opts options s.authorized_uid s.os found t decodes
            known rec in
        (ap (λ u. u.disk) e, ap (λ u. u.os) e))
      (λ _ _ _. tt)
      (begin-Post sys json r mode opts options s.authorized_uid s.os s session (refl, refl))

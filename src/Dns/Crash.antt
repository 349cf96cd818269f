-- ===== src/Dns/Crash.antt =====
-- The states through which `set` and `release` of route/dnsapi/lease.go pass with a new lease.
use kokorobox_service.Common.{
  ◌≡◌, refl, sym, ◌∙◌, ap, subst, Bool, true, false, not, ◌||◌, Option, none, some, List, [], ◌∷◌,
  Text, text_eq, text_eq_refl, text_eq→eq, arith, inl, inr, ◌⊎◌, if◌then◌else◌,
}
use kokorobox_service.Dns.Lease.{
  ignore, remove_record, schedule, stop_timers, put_lease, failure, done, after, restore_all,
  keep_failed, DnsService, Servers, Entry, Lease, State, Outcome, M, texts_eq, servers_eq, get_dns,
  set_dns, persist, restore, restore_to, with_setting,
}
use kokorobox_service.Dns.Bounds.{
  Post-mono, or_else-Post, attempt-Post, consult-Post, Post, Post-bind,
}
use kokorobox_service.Dns.Operations.{
  or_else, copy_servers, new_lease, release_lease, apply_first, settle, mark_first_applied,
  install_lease, release,
}

texts_eq_refl : (ts : List Text) → texts_eq ts ts ≡ true
unfolding texts_eq
texts_eq_refl [] = refl
texts_eq_refl (t ∷ ts) = ground (arith, text_eq_refl t, texts_eq_refl ts)

servers_eq_refl : (s : Servers) → servers_eq s s ≡ true
unfolding servers_eq
servers_eq_refl none = refl
servers_eq_refl (some ts) = texts_eq_refl ts

texts_eq→eq : (ss ts : List Text) → texts_eq ss ts ≡ true → ss ≡ ts
unfolding texts_eq
texts_eq→eq [] [] h = refl
texts_eq→eq [] (t ∷ ts) h = cc
texts_eq→eq (s ∷ ss) [] h = cc
texts_eq→eq (s ∷ ss) (t ∷ ts) h =
    let head : s ≡ t = text_eq→eq s t (ground arith) in
    let tail : ss ≡ ts = texts_eq→eq ss ts (ground arith) in cc

servers_eq→eq : (s t : Servers) → servers_eq s t ≡ true → s ≡ t
unfolding servers_eq
servers_eq→eq none none h = refl
servers_eq→eq none (some ts) h = cc
servers_eq→eq (some ss) none h = cc
servers_eq→eq (some ss) (some ts) h = ap some (texts_eq→eq ss ts h)

module _ (before : Text → Servers) (service : DnsService) (original servers : Servers) where
  abbrev pub entry_of : Bool → Entry
  entry_of b = record { service = service; original = original; desired = servers; applied = b }

  -- The lease is there, with the one entry.
  abbrev pub Held : Option Lease → Type 0
  Held none = ⊥
  Held (some l) = (l.version ≡ 1) × ((b : Bool) × (l.entries ≡ entry_of b ∷ []))

  -- The setting of the service is the original one, or it is the one that was asked for and the record is there.
  abbrev pub Recoverable : State → Type 0
  Recoverable t =
      ((n : Text) → text_eq n service.name ≡ false → t.settings n ≡ before n)
      × (((t.settings service.name ≡ original) × ((t.disk ≡ none) ⊎ Held t.disk))
          ⊎ ((t.settings service.name ≡ servers) × Held t.disk))

  persisted : (s : State) → Recoverable s → Held s.lease → Recoverable (record s { disk = s.lease })
  persisted s (away, inl (o, d)) h = (away, inl (o, inr h))
  persisted s (away, inr (w, d)) h = (away, inr (w, h))

  with_setting_here :
      (v : Servers) (f : Text → Servers) → with_setting service.name v f service.name ≡ v
  unfolding with_setting
  with_setting_here v f = ground (arith, text_eq_refl service.name)

  set_to :
      (v : Servers) (s : State)
      → Recoverable s
      → Held s.disk
      → (v ≡ original) ⊎ (v ≡ servers)
      → Recoverable (record s { settings = with_setting service.name v s.settings })
  unfolding with_setting
  set_to v s (away, _) held which = (λ n other. rw other (away n other), go which)
    where
      go :
          (v ≡ original) ⊎ (v ≡ servers)
          → ((with_setting service.name v s.settings service.name ≡ original)
              × ((s.disk ≡ none) ⊎ Held s.disk))
            ⊎ ((with_setting service.name v s.settings service.name ≡ servers) × Held s.disk)
      go (inl e) = inl (with_setting_here v s.settings ∙ e, inr held)
      go (inr e) = inr (with_setting_here v s.settings ∙ e, held)

  -- What is kept while the lease is held.
  abbrev pub Holding : State → Type 0
  Holding t = Recoverable t × Held t.disk × Held t.lease

  abbrev pub Throughout : {A : Type 0} → Outcome A → Type 0
  Throughout = Post (λ _ t. Recoverable t) (λ _ t. Recoverable t)

  pub persist-Holding :
      (s : State)
      → Recoverable s
      → Held s.lease
      → Post (λ _ t. Holding t) (λ _ t. Recoverable t) (persist s)
  unfolding persist
  persist-Holding s r h =
      attempt-Post (λ _ t. Holding t) (λ _ t. Recoverable t) _ _ s (persisted s r h, h, h) r
        (persisted s r h)

  set_dns-Holding :
      (v : Servers) (s : State)
      → (v ≡ original) ⊎ (v ≡ servers)
      → Holding s
      → Post
          (λ _ t. Holding t × (t.settings service.name ≡ v))
          (λ _ t. Holding t)
          (set_dns service.name v s)
  unfolding set_dns
  set_dns-Holding v s which (r, d, l) =
      attempt-Post (λ _ t. Holding t × (t.settings service.name ≡ v)) (λ _ t. Holding t) _ _ s
        ((set_to v s r d which, d, l), with_setting_here v s.settings) (r, d, l)
        (set_to v s r d which, d, l)

  if-Post :
      {A : Type 0} (Q R : State → Type 0) (b : Bool) (m m' : M A) (s : State)
      → (b ≡ true → Post (λ _ t. Q t) (λ _ t. R t) (m s))
      → (b ≡ false → Post (λ _ t. Q t) (λ _ t. R t) (m' s))
      → Post (λ _ t. Q t) (λ _ t. R t) ((if b then m else m') s)
  if-Post Q R true m m' s h k = h refl
  if-Post Q R false m m' s h k = k refl

  untouched :
      (t : State) (current : Servers)
      → current ≡ t.settings service.name
      → Recoverable t
      → (not (servers_eq current servers) || servers_eq current original) ≡ true
      → t.settings service.name ≡ original
  untouched t current c (_, inl (o, _)) h = o
  untouched t current c (_, inr (w, _)) h =
      let asked : servers_eq current servers ≡ true =
        subst (λ x. servers_eq x servers ≡ true) (sym (c ∙ w)) (servers_eq_refl servers) in
      sym c ∙ servers_eq→eq current original (ground (arith, asked))

  pub restore-Holding :
      (b : Bool) (s : State)
      → Holding s
      → Post
          (λ _ t. Holding t × (t.settings service.name ≡ original))
          (λ _ t. Holding t)
          (restore (entry_of b) s)
  unfolding restore restore_to get_dns
  restore-Holding b s h =
      Post-bind (λ current t. (current ≡ t.settings service.name) × Holding t) (λ _ t. Holding t)
        (λ _ t. Holding t × (t.settings service.name ≡ original)) (get_dns service.name s) _
        (consult-Post _ _ _ _ s (refl, h) h)
        (λ current t (c, k).
          if-Post (λ t. Holding t × (t.settings service.name ≡ original)) Holding
            (not (servers_eq current servers) || servers_eq current original) _ _ t
            (λ e. (k, untouched t current c k.0 e)) (λ e. set_dns-Holding original t (inl refl) k))

  -- What is left to restore, and how the setting then is.
  abbrev Rest : List Entry → State → Type 0
  Rest rest t =
      Holding t
      × (((rest ≡ []) × (t.settings service.name ≡ original))
          ⊎ ((b : Bool) × (rest ≡ entry_of b ∷ [])))

  keep_failed-Rest :
      (b : Bool) (o : Outcome (Unit {0}))
      → Post (λ _ t. Holding t × (t.settings service.name ≡ original)) (λ _ t. Holding t) o
      → Post Rest (λ _ t. Recoverable t) (keep_failed (entry_of b) o (done [] (after o)))
  unfolding keep_failed
  keep_failed-Rest b (done _ t) (h, e) = (h, inl (refl, e))
  keep_failed-Rest b (failure _ t) h = (h, inr (b, refl))

  restore_all-Rest :
      (b : Bool) (s : State)
      → Holding s
      → Post Rest (λ _ t. Recoverable t) (restore_all (entry_of b ∷ []) s)
  unfolding restore_all
  restore_all-Rest b s h = keep_failed-Rest b (restore (entry_of b) s) (restore-Holding b s h)

  ended :
      (s : State)
      → Recoverable s
      → s.settings service.name ≡ original
      → Recoverable (record s { disk = none })
  ended s (away, _) o = (away, inl (o, inl refl))

  settle-Recoverable :
      (l : Lease) (rest : List Entry) (s : State)
      → l.version ≡ 1
      → Rest rest s
      → Throughout (settle l rest s)
  unfolding settle put_lease stop_timers remove_record ignore
  settle-Recoverable l [] s v ((r, d, h), inl (_, o)) =
      attempt-Post (λ _ t. Recoverable t) (λ _ t. Recoverable t) _ _
        (record s { lease = none; timer = none; watching = false }) (ended s r o) r (ended s r o)
  settle-Recoverable l [] s v (h, inr (b, e)) = cc
  settle-Recoverable l (x ∷ xs) s v (h, inl (e, _)) = cc
  settle-Recoverable l (x ∷ xs) s v ((r, d, h), inr (b, e)) =
      let t : State = record s { lease = some (record l { entries = x ∷ xs }) } in
      go (persist t) (persist-Holding t r (v, (b, e)))
    where
      go :
          (o : Outcome (Unit {0}))
          → Post (λ _ t. Holding t) (λ _ t. Recoverable t) o
          → Recoverable (after o)
      go (done _ u) k = k.0
      go (failure _ u) k = k

  release-Recoverable : (s : State) → Holding s → Throughout (release s)
  unfolding release release_lease
  release-Recoverable s (r, d, h) = go s.lease refl h
    where
      go : (l : Option Lease) → s.lease ≡ l → Held l → Throughout (release_lease l s)
      go none p h = absurd h
      go (some l) p (v, (b, e)) =
          Post-bind Rest (λ _ t. Recoverable t) (λ _ t. Recoverable t) (restore_all l.entries s) _
            (rw e (restore_all-Rest b s (r, d, rw p (v, (b, e)))))
            (λ rest t k. settle-Recoverable l rest t v k)

  pub Throughout-after : (o : Outcome (Unit {0})) → Throughout o → Recoverable (after o)
  Throughout-after (done _ t) h = h
  Throughout-after (failure _ t) h = h

  mark_first_applied-Holding :
      (s : State)
      → Holding s
      → Post (λ _ t. Holding t) (λ _ t. Recoverable t) (mark_first_applied s)
  unfolding mark_first_applied apply_first
  mark_first_applied-Holding s (r, d, h) = go s.lease refl h
    where
      go :
          (l : Option Lease)
          → s.lease ≡ l
          → Held l
          → Post (λ _ t. Holding t) (λ _ t. Recoverable t) (mark_first_applied s)
      go none p h = absurd h
      go (some l) p (v, (b, e)) =
          rw (p, mark_first_applied)
            (subst (λ es. Post (λ _ t. Holding t) (λ _ t. Recoverable t) (apply_first l es s))
              (sym e) (r, d, (v, (true, refl))))

  pub install_lease-Recoverable :
      (s : State)
      → copy_servers servers ≡ servers
      → s.settings service.name ≡ original
      → s.disk ≡ none
      → ((n : Text) → text_eq n service.name ≡ false → s.settings n ≡ before n)
      → Throughout (install_lease service original servers s)
  unfolding install_lease put_lease schedule new_lease
  install_lease-Recoverable s copies o nothing away =
      let t : State = record s { lease = some (new_lease s.now service original servers) } in
      Post-bind (λ _ t. Holding t) (λ _ t. Recoverable t) (λ _ t. Recoverable t)
        (or_else persist (put_lease none) t) _
        (or_else-Post (λ _ t. Holding t) (λ _ t. Recoverable t) (λ _ t. Recoverable t) persist
          (put_lease none) t
          (persist-Holding t (away, inl (o, inl nothing))
            (
              refl,
              (
                false,
                ap
                    (λ d.
                      record {
                        service = service;
                        original = original;
                        desired = d;
                        applied = false;
                      }
                      ∷ [])
                    copies,
              ),
            ))
          (λ _ u k. k))
        (λ _ u h.
          Post-bind (λ _ t. Holding t) (λ _ t. Recoverable t) (λ _ t. Recoverable t)
            (or_else (set_dns service.name servers) release u) _
            (or_else-Post (λ _ t. Holding t) (λ _ t. Holding t) (λ _ t. Recoverable t)
              (set_dns service.name servers) release u
              (Post-mono _ _ _ _ (set_dns service.name servers u)
                (set_dns-Holding servers u (inr refl) h) (λ _ w k. k.0) (λ _ w k. k))
              (λ _ w k. Throughout-after (release w) (release-Recoverable w k)))
            (λ _ w k.
              Post-bind (λ _ t. Holding t) (λ _ t. Recoverable t) (λ _ t. Recoverable t)
                (mark_first_applied w) _ (mark_first_applied-Holding w k)
                (λ _ x j.
                  Post-mono _ _ _ _ (persist _)
                    (persist-Holding (record x { timer = _; watching = true }) j.0 j.2)
                    (λ _ y i. i.0) (λ _ y i. i))))

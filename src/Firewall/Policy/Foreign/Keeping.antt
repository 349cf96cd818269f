-- ===== src/Firewall/Policy/Foreign/Keeping.antt =====
-- A foreign rule through the steps of `reconcile` of internal/winfirewall/policy.go.
use kokorobox_service.Common.{
  ◌≡◌, refl, sym, subst, Bool, true, false, List, [], ◌∷◌, Text, filter, if◌then◌else◌, Result, ok,
  err, >>=-eq-ok, inl, inr, Result-cases,
}
use kokorobox_service.Firewall.Policy.{
  FirewallRule, FirewallError, Store, Step, Mode, matching, in_group, is_present, check_reserved,
  check_members, is_removing, is_checking, is_invalid, preflight, and_then, lift, delete_all,
  remove_group, recreate, ensure_all, verify_all, check_modifiable, apply_mode, reconcile,
  missing_rule, bad_operation,
}
use kokorobox_service.Firewall.Policy.Foreign.{
  In, Apart, Apart-matching, check_reserved-Apart, check_members-Apart, IsLawful,
}

module _ {S : Type 0} (store : Store S) (rules : S → List FirewallRule)
    (laws : IsLawful store rules) where
  -- The rule is still there.
  abbrev Kept : {A : Type 0} → FirewallRule → S × Result FirewallError A → Type 0
  Kept r o = In r (rules o.0)

  Kept-and_then :
      {A B : Type 0} (r : FirewallRule) (o : S × Result FirewallError A) (next : A → Step S B)
      → Kept r o
      → ((a : A) (s : S) → In r (rules s) → Kept r (next a s))
      → Kept r (and_then o next)
  Kept-and_then r (s, err e) next h k = h
  Kept-and_then r (s, ok a) next h k = k a s h

  delete_all-Kept :
      (r : FirewallRule) (ds : List FirewallRule) (s : S)
      → Apart r ds
      → In r (rules s)
      → Kept r (delete_all store ds s)
  unfolding delete_all
  delete_all-Kept r [] s apart i = i
  delete_all-Kept r (d ∷ ds) s apart i =
      Kept-and_then r (store.delete_rule d.name s) _ (laws.delete_keeps s r d.name i apart.0)
        (λ _ t j. delete_all-Kept r ds t apart.1 j)

  list-Kept : (r : FirewallRule) (s : S) → In r (rules s) → Kept r (store.list s)
  list-Kept r s i = subst (In r) (sym (laws.list_keeps s)) i

  remove_group-Kept :
      (r : FirewallRule) (group : Text) (rs : List FirewallRule) (s : S)
      → Apart r (filter (in_group group) rs)
      → In r (rules s)
      → Kept r (remove_group store group rs s)
  unfolding remove_group lift
  remove_group-Kept r group rs s apart i =
      Kept-and_then r (delete_all store (filter (in_group group) rs) s) _
        (delete_all-Kept r _ s apart i)
        (λ _ t j. Kept-and_then r (store.list t) _ (list-Kept r t j) (λ _ u k. k))

  recreate-Kept :
      (r : FirewallRule) (mode : Mode) (found : List FirewallRule) (want : FirewallRule) (s : S)
      → Apart r found
      → In r (rules s)
      → Kept r (recreate store mode found want s)
  unfolding recreate
  recreate-Kept r mode found want s apart i = go (is_checking mode)
    where
      go :
          (b : Bool)
          → Kept r (
              if b
              then (s, err missing_rule)
              else and_then (delete_all store found s) (λ _. store.add want))
      go true = i
      go false =
          Kept-and_then r (delete_all store found s) _ (delete_all-Kept r found s apart i)
            (λ _ t j. laws.add_keeps t r want j)

  ensure_all-Kept :
      (r : FirewallRule) (mode : Mode) (rs desired : List FirewallRule) (s : S)
      → Apart r desired
      → In r (rules s)
      → Kept r (ensure_all store mode rs desired s)
  unfolding ensure_all
  ensure_all-Kept r mode rs [] s apart i = i
  ensure_all-Kept r mode rs (want ∷ desired) s apart i =
      go (is_present (matching rs want.name) want)
        (λ t j. ensure_all-Kept r mode rs desired t apart.1 j)
    where
      go :
          (b : Bool)
          → ((t : S) → In r (rules t) → Kept r (ensure_all store mode rs desired t))
          → Kept r (
              if b
              then ensure_all store mode rs desired s
              else and_then
                  (recreate store mode (matching rs want.name) want s)
                  (λ _. ensure_all store mode rs desired))
      go true rest = rest s i
      go false rest =
          Kept-and_then r (recreate store mode (matching rs want.name) want s) _
            (recreate-Kept r mode (matching rs want.name) want s
              (Apart-matching want.name r rs apart.0) i)
            (λ _ t j. rest t j)

  verify_all-Kept :
      (r : FirewallRule) (desired : List FirewallRule) (s : S)
      → In r (rules s)
      → Kept r (verify_all store desired s)
  unfolding verify_all lift
  verify_all-Kept r desired s i = Kept-and_then r (store.list s) _ (list-Kept r s i) (λ _ t j. j)

  check_modifiable-Kept :
      (r : FirewallRule) (mode : Mode) (s : S)
      → In r (rules s)
      → Kept r (check_modifiable store mode s)
  unfolding check_modifiable
  check_modifiable-Kept r mode s i = go (is_checking mode)
    where
      go : (b : Bool) → Kept r (if b then (s, ok tt) else store.modifiable s)
      go true = i
      go false = subst (In r) (sym (laws.modifiable_keeps s)) i

  apply_mode-Kept :
      (r : FirewallRule) (mode : Mode) (group : Text) (dup : Bool) (rs desired : List FirewallRule)
      (s : S)
      → In r rs
      → in_group group r ≡ false
      → preflight mode group dup rs desired ≡ ok tt
      → In r (rules s)
      → Kept r (apply_mode store mode group rs desired s)
  unfolding apply_mode preflight
  apply_mode-Kept r mode group dup rs desired s listed foreign h i =
      let (_, e1, h1) = >>=-eq-ok (check_reserved group dup rs desired) _ h in
      Kept-and_then r (check_modifiable store mode s) _ (check_modifiable-Kept r mode s i) (λ _ t j.
        go (is_removing mode) t (check_reserved-Apart group dup rs desired r listed foreign e1) h1
          j)
    where
      go :
          (b : Bool) (t : S)
          → Apart r desired
          → (if b then check_members group rs rs else ok tt) ≡ ok tt
          → In r (rules t)
          → Kept r (
              if b
              then remove_group store group rs t
              else and_then (ensure_all store mode rs desired t) (λ _. verify_all store desired))
      go true t apart members j =
          remove_group-Kept r group rs t (check_members-Apart group rs rs r listed foreign members)
            j
      go false t apart members j =
          Kept-and_then r (ensure_all store mode rs desired t) _
            (ensure_all-Kept r mode rs desired t apart j) (λ _ u k. verify_all-Kept r desired u k)

  checked-Kept :
      (r : FirewallRule) (mode : Mode) (group : Text) (dup : Bool) (rs desired : List FirewallRule)
      (s : S)
      → In r rs
      → in_group group r ≡ false
      → In r (rules s)
      → Kept r (
          and_then
            (s, preflight mode group dup rs desired)
            (λ _. apply_mode store mode group rs desired))
  checked-Kept r mode group dup rs desired s listed foreign i =
      elim (Result-cases (preflight mode group dup rs desired)) [
        | inl (_, passed) ↦
            rw passed (apply_mode-Kept r mode group dup rs desired s listed foreign passed i)
        | inr (e, refused) ↦ rw refused i
      ]

  -- A rule of another group stays in the firewall, whatever the mode, the rules that are wanted and the outcome, if
  -- a listing has the rules and a deletion removes rules of that name only.
  pub foreign_rules_stay :
      (s : S) (r : FirewallRule) (group : Text) (desired : List FirewallRule) (mode : Mode)
      (dup : Bool)
      → In r (rules s)
      → in_group group r ≡ false
      → In r (rules (reconcile store group desired mode dup s).0)
  unfolding reconcile lift
  foreign_rules_stay s r group desired mode dup i foreign = go (is_invalid mode)
    where
      listing :
          (o : Result FirewallError (List FirewallRule))
          → (store.list s).1 ≡ o
          → Kept r (
              and_then
                ((store.list s).0, o)
                (λ rs t.
                  and_then
                    (t, preflight mode group dup rs desired)
                    (λ _. apply_mode store mode group rs desired)))
      listing (err e) p = list-Kept r s i
      listing (ok rs) p =
          checked-Kept r mode group dup rs desired (store.list s).0
            (subst (In r) (sym (laws.list_reads s rs p)) i) foreign (list-Kept r s i)

      go :
          (b : Bool)
          → Kept r (
              if b
              then (s, err bad_operation)
              else and_then (store.list s) (λ rs t.
                and_then
                  (t, preflight mode group dup rs desired)
                  (λ _. apply_mode store mode group rs desired)))
      go true = i
      go false = listing (store.list s).1 refl

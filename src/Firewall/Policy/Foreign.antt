-- ===== src/Firewall/Policy/Foreign.antt =====
-- Foreign rules and the preflights of internal/winfirewall/policy.go, and the laws of a firewall.
pub mod Keeping
use kokorobox_service.Common.{
  ◌≡◌, refl, sym, subst, ◌∙◌, Bool, true, false, not, ◌&&◌, ◌||◌, List, [], ◌∷◌, Text, text_eq→eq,
  eq→text_eq, to_lower, equal_fold, all, filter, length, ltb, if◌then◌else◌, Result, ok, err, guard,
  >>=-eq-ok, guard-eq-ok, arith, All, Bool-cases, inl, inr, ◌⊎◌, Result-cases,
}
use kokorobox_service.Firewall.Policy.{
  FirewallRule, FirewallError, Store, Step, Mode, matching, in_group, is_present, check_reserved,
  check_members, is_removing, is_checking, is_invalid, preflight, and_then, lift, delete_all,
  remove_group, recreate, ensure_all, verify_all, check_modifiable, apply_mode, reconcile,
  foreign_rule, duplicate_rule, missing_rule, bad_operation,
}

abbrev pub In : FirewallRule → List FirewallRule → Type 0
In r [] = ⊥
In r (x ∷ xs) = (r ≡ x) ⊎ In r xs

-- What the firewall does: a listing has the rules, a deletion removes rules of that name only.
pub record IsLawful {S : Type 0} (store : Store S) (rules : S → List FirewallRule) : Type 0 where
  pub list_reads : (s : S) (rs : List FirewallRule) → (store.list s).1 ≡ ok rs → rs ≡ rules s
  pub list_keeps : (s : S) → rules (store.list s).0 ≡ rules s
  pub modifiable_keeps : (s : S) → rules (store.modifiable s).0 ≡ rules s
  pub add_keeps : (s : S) (r w : FirewallRule) → In r (rules s) → In r (rules (store.add w s).0)
  pub delete_keeps :
      (s : S) (r : FirewallRule) (name : Text)
      → In r (rules s)
      → equal_fold r.name name ≡ false
      → In r (rules (store.delete_rule name s).0)

equal_fold_trans :
    (a b c : Text) → equal_fold a b ≡ true → equal_fold b c ≡ true → equal_fold a c ≡ true
unfolding equal_fold
equal_fold_trans a b c h k =
    eq→text_eq (to_lower a) (to_lower c)
      (text_eq→eq (to_lower a) (to_lower b) h ∙ text_eq→eq (to_lower b) (to_lower c) k)

matching-In :
    (group name : Text) (r : FirewallRule) (rs : List FirewallRule)
    → In r rs
    → equal_fold r.name name ≡ true
    → all (in_group group) (matching rs name) ≡ true
    → in_group group r ≡ true
unfolding matching filter all
matching-In group name r [] i n h = absurd i
matching-In group name r (x ∷ xs) (inl e) n h =
    rw e (go (subst (λ y. equal_fold y.name name ≡ true) e n))
  where
    go : equal_fold x.name name ≡ true → in_group group x ≡ true
    go m = ground (arith, m)
matching-In group name r (x ∷ xs) (inr i) n h = matching-In group name r xs i n (ground arith)

-- None of the rules has the name of this one.
abbrev pub Apart : FirewallRule → List FirewallRule → Type 0
Apart r = All (λ d. equal_fold r.name d.name ≡ false)

other_name :
    (a b c : Text) → equal_fold b c ≡ true → equal_fold a c ≡ false → equal_fold a b ≡ false
other_name a b c h k = elim (Bool-cases (equal_fold a b)) [
  | inl same ↦ cc (equal_fold_trans a b c same h, k)
  | inr apart ↦ apart
]

-- Rules whose names are all equal to a name that this one does not have.
pub Apart-matching :
    (name : Text) (r : FirewallRule) (rs : List FirewallRule)
    → equal_fold r.name name ≡ false
    → Apart r (matching rs name)
unfolding matching filter
Apart-matching name r [] h = tt
Apart-matching name r (x ∷ xs) h = elim (Bool-cases (equal_fold x.name name)) [
  | inr other ↦ rw other (Apart-matching name r xs h)
  | inl named ↦ rw named (other_name r.name x.name name named h, Apart-matching name r xs h)
]

-- A foreign rule has none of the names that the preflights have looked at.
foreign_name :
    (group name : Text) (r : FirewallRule) (rs : List FirewallRule)
    → In r rs
    → in_group group r ≡ false
    → all (in_group group) (matching rs name) ≡ true
    → equal_fold r.name name ≡ false
foreign_name group name r rs i foreign h = elim (Bool-cases (equal_fold r.name name)) [
  | inl same ↦ cc (matching-In group name r rs i same h, foreign)
  | inr apart ↦ apart
]

-- The wanted rules are apart from it, by the first preflight.
pub check_reserved-Apart :
    (group : Text) (dup : Bool) (rules desired : List FirewallRule) (r : FirewallRule)
    → In r rules
    → in_group group r ≡ false
    → check_reserved group dup rules desired ≡ ok tt
    → Apart r desired
unfolding check_reserved
check_reserved-Apart group dup rules [] r i foreign h = tt
check_reserved-Apart group dup rules (want ∷ desired) r i foreign h =
    let (_, e1, h1) =
      >>=-eq-ok (guard (all (in_group group) (matching rules want.name)) foreign_rule) _ h in
    let (_, e2, h2) =
      >>=-eq-ok (guard (not (ltb 1 (length (matching rules want.name)) && not dup)) duplicate_rule)
        _ h1 in
    (
      foreign_name group want.name r rules i foreign (guard-eq-ok _ foreign_rule e1),
      check_reserved-Apart group dup rules desired r i foreign h2,
    )

-- The members of the group are apart from it, by the second.
pub check_members-Apart :
    (group : Text) (rules members : List FirewallRule) (r : FirewallRule)
    → In r rules
    → in_group group r ≡ false
    → check_members group rules members ≡ ok tt
    → Apart r (filter (in_group group) members)
unfolding check_members filter
check_members-Apart group rules [] r i foreign h = tt
check_members-Apart group rules (m ∷ members) r i foreign h =
    let (_, e1, h1) =
      >>=-eq-ok
        (guard (not (in_group group m) || all (in_group group) (matching rules m.name))
          foreign_rule)
        _ h in
    elim (Bool-cases (in_group group m)) [
      | inr out ↦ rw out (check_members-Apart group rules members r i foreign h1)
      | inl member ↦ rw member (
        foreign_name group m.name r rules i foreign
            (ground (arith, guard-eq-ok _ foreign_rule e1, member)),
        check_members-Apart group rules members r i foreign h1,
      )
    ]

-- ===== src/Firewall/Examples.antt =====
-- A concrete firewall, which keeps its rules in a list.
use kokorobox_service.Common.{
  ◌≡◌, refl, Bool, true, false, not, List, [], ◌∷◌, ◌++◌, Text, codes, equal_fold, filter, ok, inl,
  inr, Bool-cases, to_lower, lower_char, text_eq,
}
use kokorobox_service.Common.Ints.{pos}
use kokorobox_service.Firewall.Policy.{inbound, FirewallRule, Store, removing, reconcile, in_group}
use kokorobox_service.Firewall.Policy.Foreign.{In, IsLawful}
use kokorobox_service.Firewall.Policy.Foreign.Keeping.{foreign_rules_stay}

abbrev memory : Store (List FirewallRule)
memory = record {
  list = λ s. (s, ok s);
  modifiable = λ s. (s, ok tt);
  add = λ w s. (s ++ w ∷ [], ok tt);
  delete_rule = λ name s. (filter (λ r. not (equal_fold r.name name)) s, ok tt);
}

In-append : (r w : FirewallRule) (rs : List FirewallRule) → In r rs → In r (rs ++ w ∷ [])
In-append r w [] i = absurd i
In-append r w (x ∷ xs) (inl e) = inl e
In-append r w (x ∷ xs) (inr i) = inr (In-append r w xs i)

In-filter :
    (r : FirewallRule) (p : FirewallRule → Bool) (rs : List FirewallRule)
    → In r rs
    → p r ≡ true
    → In r (filter p rs)
unfolding filter
In-filter r p [] i h = absurd i
In-filter r p (x ∷ xs) (inl e) h = let kept : p x ≡ true = cc (e, h) in rw kept (inl e)
In-filter r p (x ∷ xs) (inr i) h = elim (Bool-cases (p x)) [
  | inl kept ↦ rw kept (inr (In-filter r p xs i h))
  | inr dropped ↦ rw dropped (In-filter r p xs i h)
]

memory-IsLawful : IsLawful memory (λ s. s)
memory-IsLawful = record {
  list_reads = λ s rs h. cc;
  list_keeps = λ s. refl;
  modifiable_keeps = λ s. refl;
  add_keeps = λ s r w i. In-append r w s i;
  delete_keeps = λ s r name i h. In-filter r (λ d. not (equal_fold d.name name)) s i (rw h refl);
}

abbrev rule_of : Text → Text → FirewallRule
unfolding inbound
rule_of name group = inbound name group (codes "a.exe") (pos 6) (codes "80")

abbrev foreign : FirewallRule
foreign = rule_of (codes "f") (codes "other")

abbrev own : FirewallRule
own = rule_of (codes "o") (codes "ours")

foreign_rules_stay_example :
    In foreign (reconcile memory (codes "ours") (own ∷ []) removing false (own ∷ foreign ∷ [])).0
unfolding in_group equal_fold to_lower lower_char text_eq rule_of
foreign_rules_stay_example =
    foreign_rules_stay memory (λ s. s) memory-IsLawful (own ∷ foreign ∷ []) foreign (codes "ours")
      (own ∷ []) removing false (inr (inl refl)) refl

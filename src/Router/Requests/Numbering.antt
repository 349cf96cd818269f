-- ===== src/Router/Requests/Numbering.antt =====
-- The loop of `normalizeRulesRequest`: what the rules that it numbers have passed.
use kokorobox_service.Common.{
  ℕ, suc, ◌+◌, ◌≤◌, ◌≡◌, refl, sym, ap, subst, true, false, not, ◌&&◌, ◌||◌, List, [], ◌∷◌, Text,
  text_eq, is_empty, length, any, ltb, Result, ok, ◌>>=◌, ◌>>◌, guard, >>=-eq-ok, guard-eq-ok,
  arith, All, equal_fold,
}
use kokorobox_service.Common.Ints.{ℤ, pos, leb_ℤ, eq_ℤ}
use kokorobox_service.Router.Patterns.{is_protected_process_pattern}
use kokorobox_service.Router.Requests.{
  Rule, Seen, RouterError, validate_rule, rule_name, linux_name, windows_name, identifier, path_key,
  with_match_kind, check_rule, note_rule, number_rules, max_rules, valid_protocol, valid_action,
  match_executable_path, duplicate_id, duplicate_path, duplicate_priority, paths_too_large, bad_id,
  name_mismatch, protected_program, bad_protocol, bad_action, bad_priority,
}

-- What `validateRule` has found of a rule.
pub record IsAllowed (r : Rule) (platform : Text) : Type 0 where
  pub id_fits : not (is_empty r.id || ltb 128 (length r.id)) ≡ true
  pub name : Text
  pub named : rule_name r platform ≡ ok name
  pub consistent :
      not (
        text_eq r.match_kind match_executable_path
        && (is_empty name || not (equal_fold name r.executable_name)))
      ≡ true
  pub unprotected : not (is_protected_process_pattern name) ≡ true
  pub protocol : valid_protocol r.protocol ≡ true
  pub action : valid_action r.action ≡ true
  pub priority : (leb_ℤ (pos 1) r.priority && leb_ℤ r.priority (pos max_rules)) ≡ true

pub validate_rule-IsAllowed :
    (r : Rule) (platform : Text) → validate_rule r platform ≡ ok tt → IsAllowed r platform
unfolding validate_rule
validate_rule-IsAllowed r platform h =
    let (_, e1, h1) = >>=-eq-ok (guard (not (is_empty r.id || ltb 128 (length r.id))) bad_id) _ h in
    let (name, e2, h2) = >>=-eq-ok (rule_name r platform) _ h1 in
    let (_, e3, h3) =
      >>=-eq-ok
        (guard
          (not (
            text_eq r.match_kind match_executable_path
            && (is_empty name || not (equal_fold name r.executable_name))))
          name_mismatch)
        _ h2 in
    let (_, e4, h4) =
      >>=-eq-ok (guard (not (is_protected_process_pattern name)) protected_program) _ h3 in
    let (_, e5, h5) = >>=-eq-ok (guard (valid_protocol r.protocol) bad_protocol) _ h4 in
    let (_, e6, h6) = >>=-eq-ok (guard (valid_action r.action) bad_action) _ h5 in
    record {
      id_fits = guard-eq-ok _ bad_id e1;
      name = name;
      named = e2;
      consistent = guard-eq-ok _ name_mismatch e3;
      unprotected = guard-eq-ok _ protected_program e4;
      protocol = guard-eq-ok _ bad_protocol e5;
      action = guard-eq-ok _ bad_action e6;
      priority = guard-eq-ok _ bad_priority h6;
    }

IsAllowed-validate_rule :
    (r : Rule) (platform : Text) → IsAllowed r platform → validate_rule r platform ≡ ok tt
unfolding validate_rule
IsAllowed-validate_rule r platform a =
    rw (a.id_fits, a.named)
      (rw (a.consistent, a.unprotected, a.protocol, a.action) (rw a.priority refl))

-- The number of a rule in place of its priority.
abbrev pub numbered : ℕ → Rule → Rule
numbered k r = record r { priority = pos k }

validate_rule-numbered :
    (r : Rule) (platform : Text) (k : ℕ)
    → 1 ≤ k
    → k ≤ max_rules
    → validate_rule r platform ≡ ok tt
    → validate_rule (numbered k r) platform ≡ ok tt
unfolding rule_name linux_name windows_name
validate_rule-numbered r platform k low high h =
    let a = validate_rule-IsAllowed r platform h in
    IsAllowed-validate_rule (numbered k r) platform (record {
      id_fits = a.id_fits;
      name = a.name;
      named = a.named;
      consistent = a.consistent;
      unprotected = a.unprotected;
      protocol = a.protocol;
      action = a.action;
      priority = ground arith;
    })

-- The rules from an index on, after some ids, keys of paths and bytes of paths: valid, numbered in their order,
-- with no id and no path twice, and not too large.
abbrev pub Numbered : Text → ℕ → List Text → List Text → ℕ → List Rule → Type 0
Numbered platform index ids paths bytes [] = Unit
Numbered platform index ids paths bytes (r ∷ rs) =
    (r.priority ≡ pos (suc index))
    × (is_empty r.match_kind ≡ false)
    × (validate_rule r platform ≡ ok tt)
    × (any (text_eq r.id) ids ≡ false)
    × (any (text_eq (path_key platform r)) paths ≡ false)
    × (bytes + (length (identifier r) + 1) ≤ 30000)
    × Numbered platform (suc index) (r.id ∷ ids) (path_key platform r ∷ paths)
        (bytes + (length (identifier r) + 1)) rs

-- What `check_rule` has found.
check_rule_ok :
    (platform : Text) (r : Rule) (seen : Seen)
    → check_rule platform r seen ≡ ok tt
    → (validate_rule r platform ≡ ok tt)
      × (any (text_eq r.id) seen.ids ≡ false)
      × (any (text_eq (path_key platform r)) seen.paths ≡ false)
      × (seen.path_bytes + (length (identifier r) + 1) ≤ 30000)
unfolding check_rule
check_rule_ok platform r seen h =
    let (_, e1, h1) = >>=-eq-ok (validate_rule r platform) _ h in
    let (_, e2, h2) = >>=-eq-ok (guard (not (any (text_eq r.id) seen.ids)) duplicate_id) _ h1 in
    let (_, e3, h3) =
      >>=-eq-ok (guard (not (any (text_eq (path_key platform r)) seen.paths)) duplicate_path) _
        h2 in
    let (_, e4, h4) =
      >>=-eq-ok (guard (not (any (eq_ℤ r.priority) seen.priorities)) duplicate_priority) _ h3 in
    (
      e1,
      ground (arith, guard-eq-ok _ duplicate_id e2),
      ground (arith, guard-eq-ok _ duplicate_path e3),
      ground (arith, guard-eq-ok _ paths_too_large h4),
    )

with_match_kind_lem : (r : Rule) → is_empty (with_match_kind r).match_kind ≡ false
unfolding with_match_kind
with_match_kind_lem r = ground arith

ok_injective : {A : Type 0} (a b : A) → ◌≡◌ {A = Result RouterError A} (ok a) (ok b) → a ≡ b
ok_injective a b h = cc

pub number_rules-Numbered :
    (platform : Text) (index : ℕ) (seen : Seen) (rs : List Rule) {out : List Rule}
    → index + length rs ≤ max_rules
    → number_rules platform index seen rs ≡ ok out
    → Numbered platform index seen.ids seen.paths seen.path_bytes out × (length out ≡ length rs)
unfolding number_rules note_rule path_key identifier
number_rules-Numbered platform index seen [] {out} small h =
    subst (λ o. Numbered platform index seen.ids seen.paths seen.path_bytes o × (length o ≡ 0))
      (ok_injective [] out h) (tt, refl)
number_rules-Numbered platform index seen (r ∷ rs) {out} small h =
    let rule = with_match_kind r in
    let (_, e1, h1) = >>=-eq-ok (check_rule platform rule seen) _ h in
    let (rest, e2, h2) =
      >>=-eq-ok (number_rules platform (suc index) (note_rule platform rule seen) rs) _ h1 in
    let (valid, id, path, bytes) = check_rule_ok platform rule seen e1 in
    let (later, len) =
      number_rules-Numbered platform (suc index) (note_rule platform rule seen) rs {out = rest}
        (omega arith) e2 in
    subst
      (λ o.
        Numbered platform index seen.ids seen.paths seen.path_bytes o
        × (length o ≡ length (r ∷ rs)))
      (ok_injective (numbered (suc index) rule ∷ rest) out h2)
      (
        (
          refl,
          with_match_kind_lem r,
          validate_rule-numbered rule platform (suc index) (omega arith) (omega arith) valid,
          id,
          path,
          bytes,
          later,
        ),
        omega arith,
      )

-- No priority so far is above the index.
abbrev pub Below : ℕ → List ℤ → Type 0
Below index = All (λ p. leb_ℤ p (pos index) ≡ true)

Below-suc : (index : ℕ) (ps : List ℤ) → Below index ps → Below (suc index) ps
Below-suc index [] b = tt
Below-suc index (p ∷ ps) b = (ground (arith, b.0), Below-suc index ps b.1)

Below-fresh : (index : ℕ) (ps : List ℤ) → Below index ps → any (eq_ℤ (pos (suc index))) ps ≡ false
unfolding any
Below-fresh index [] b = refl
Below-fresh index (p ∷ ps) b = ground (arith, b.0, Below-fresh index ps b.1)

with_match_kind_same : (r : Rule) → is_empty r.match_kind ≡ false → with_match_kind r ≡ r
unfolding with_match_kind
with_match_kind_same r h = rw h refl

check_rule_passes :
    (platform : Text) (r : Rule) (seen : Seen)
    → validate_rule r platform ≡ ok tt
    → any (text_eq r.id) seen.ids ≡ false
    → any (text_eq (path_key platform r)) seen.paths ≡ false
    → any (eq_ℤ r.priority) seen.priorities ≡ false
    → seen.path_bytes + (length (identifier r) + 1) ≤ 30000
    → check_rule platform r seen ≡ ok tt
unfolding check_rule
check_rule_passes platform r seen valid id path fresh bytes =
    rw (valid, id, path, fresh) (ground arith)

numbered_same : (k : ℕ) (r : Rule) → r.priority ≡ pos k → numbered k r ≡ r
numbered_same k r h = ap (λ p. record r { priority = p }) (sym h)

-- Rules that are numbered already pass the loop unchanged.
pub Numbered-number_rules :
    (platform : Text) (index : ℕ) (seen : Seen) (rs : List Rule)
    → Below index seen.priorities
    → Numbered platform index seen.ids seen.paths seen.path_bytes rs
    → number_rules platform index seen rs ≡ ok rs
unfolding number_rules note_rule
Numbered-number_rules platform index seen [] below n = refl
Numbered-number_rules platform index seen (r ∷ rs) below
      (number, kind, valid, id, path, bytes, later) =
    let fresh : any (eq_ℤ r.priority) seen.priorities ≡ false =
      subst (λ p. any (eq_ℤ p) seen.priorities ≡ false) (sym number)
        (Below-fresh index seen.priorities below) in
    let checked : check_rule platform r seen ≡ ok tt =
      check_rule_passes platform r seen valid id path fresh bytes in
    let rest : number_rules platform (suc index) (note_rule platform r seen) rs ≡ ok rs =
      Numbered-number_rules platform (suc index) (note_rule platform r seen) rs
        (
          subst (λ p. leb_ℤ p (pos (suc index)) ≡ true) (sym number) (ground arith),
          Below-suc index seen.priorities below,
        )
        later in
    subst
      (λ x.
        (check_rule platform x seen
          >> (number_rules platform (suc index) (note_rule platform x seen) rs
              >>= (λ rest. ok (numbered (suc index) x ∷ rest))))
        ≡ ok (r ∷ rs))
      (sym (with_match_kind_same r kind))
      (rw (checked, rest) (ap (λ x. ok (x ∷ rs)) (numbered_same (suc index) r number)))

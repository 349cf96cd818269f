-- ===== src/Router/Requests/Normal.antt =====
-- What `normalizeRulesRequest` promises of a request that it accepts.
use kokorobox_service.Common.{
  text_eq→eq, Bool-cases, ◌⊎◌, codes, is_empty, false, inr, inl, le→leb, ℕ, suc, ◌≤◌, ◌≡◌, refl, ap,
  ◌∙◌, subst, Bool, true, List, [], ◌∷◌, Text, text_eq, length, leb, Result, ok, guard, >>=-eq-ok,
  guard-eq-ok, arith,
}
use kokorobox_service.Common.Ints.{ℤ, eq_ℤ→eq, pos, eq_ℤ}
use kokorobox_service.Router.Requests.{
  linux, windows, valid_action, valid_protocol, Rule, RulesRequest, RouterError, is_platform,
  expected_port, max_rules, platform_or, normalize_rules_request, number_rules, nothing_seen,
  sort_rules, insert_rule, bad_version, bad_platform, bad_port, not_fail_closed, too_many_rules,
}
use kokorobox_service.Router.Requests.Numbering.{
  validate_rule-IsAllowed, Numbered, number_rules-Numbered, Numbered-number_rules,
}
use kokorobox_service.Router.Requests.Distinct.{Apart, Numbered-Pairs, Pairs}

-- What the checks of `normalizeRulesRequest` leave of a request, in their own terms.
pub record IsSettled (r : RulesRequest) : Type 0 where
  pub version : eq_ℤ r.version (pos 1) ≡ true
  pub known : is_platform r.platform ≡ true
  pub port : eq_ℤ r.proxy_port (expected_port r.platform) ≡ true
  pub closed : r.fail_closed ≡ true
  pub small : length r.rules ≤ max_rules
  pub numbered : Numbered r.platform 0 [] [] 0 r.rules

length-insert_rule : (r : Rule) (rs : List Rule) → length (insert_rule r rs) ≡ suc (length rs)
unfolding insert_rule
length-insert_rule r [] = refl
length-insert_rule r (x ∷ xs) = ground (arith, length-insert_rule r xs)

length-sort_rules : (rs : List Rule) → length (sort_rules rs) ≡ length rs
unfolding sort_rules
length-sort_rules [] = refl
length-sort_rules (r ∷ rs) =
    omega (arith, length-insert_rule r (sort_rules rs), length-sort_rules rs)

insert_first :
    (r : Rule) (platform : Text) (index : ℕ) (ids paths : List Text) (bytes : ℕ) (rs : List Rule)
    → r.priority ≡ pos index
    → Numbered platform index ids paths bytes rs
    → insert_rule r rs ≡ r ∷ rs
unfolding insert_rule
insert_first r platform index ids paths bytes [] p n = refl
insert_first r platform index ids paths bytes (x ∷ xs) p n = ground (arith, p, n.0)

sort_Numbered :
    (platform : Text) (index : ℕ) (ids paths : List Text) (bytes : ℕ) (rs : List Rule)
    → Numbered platform index ids paths bytes rs
    → sort_rules rs ≡ rs
unfolding sort_rules
sort_Numbered platform index ids paths bytes [] n = refl
sort_Numbered platform index ids paths bytes (r ∷ rs) (number, _, _, _, _, _, later) =
    ap (insert_rule r) (sort_Numbered platform (suc index) _ _ _ rs later)
    ∙ insert_first r platform (suc index) _ _ _ rs number later

pub normalize-IsSettled :
    (goos : Text) (request : RulesRequest) {out : RulesRequest}
    → normalize_rules_request goos request ≡ ok out
    → IsSettled out
unfolding normalize_rules_request
normalize-IsSettled goos request {out} h =
    let platform = platform_or goos request.platform in
    let (_, e1, h1) = >>=-eq-ok (guard (eq_ℤ request.version (pos 1)) bad_version) _ h in
    let (_, e2, h2) = >>=-eq-ok (guard (is_platform platform) bad_platform) _ h1 in
    let (_, e3, h3) =
      >>=-eq-ok (guard (eq_ℤ request.proxy_port (expected_port platform)) bad_port) _ h2 in
    let (_, e4, h4) = >>=-eq-ok (guard request.fail_closed not_fail_closed) _ h3 in
    let (_, e5, h5) =
      >>=-eq-ok (guard (leb (length request.rules) max_rules) too_many_rules) _ h4 in
    let (rules, e6, h6) =
      >>=-eq-ok (number_rules platform 0 nothing_seen (sort_rules request.rules)) _ h5 in
    let few : length request.rules ≤ max_rules = ground (arith, guard-eq-ok _ too_many_rules e5) in
    let (numbered, len) =
      number_rules-Numbered platform 0 nothing_seen (sort_rules request.rules) {out = rules}
        (omega (arith, length-sort_rules request.rules)) e6 in
    subst IsSettled (injective (record request { platform = platform; rules = rules }) out h6)
      (record {
        version = guard-eq-ok _ bad_version e1;
        known = guard-eq-ok _ bad_platform e2;
        port = guard-eq-ok _ bad_port e3;
        closed = guard-eq-ok _ not_fail_closed e4;
        small = omega (arith, length-sort_rules request.rules);
        numbered = numbered;
      })
  where
    injective :
        (a b : RulesRequest) → ◌≡◌ {A = Result RouterError RulesRequest} (ok a) (ok b) → a ≡ b
    injective a b h = cc

platform_or_known :
    (goos platform : Text) → is_platform platform ≡ true → platform_or goos platform ≡ platform
unfolding platform_or is_platform text_eq
platform_or_known goos [] h = cc
platform_or_known goos (c ∷ p) h = refl

guard_passes :
    (b : Bool) (e : RouterError)
    → b ≡ true
    → ◌≡◌ {A = Result RouterError (Unit {0})} (guard b e) (ok tt)
guard_passes b e h = ground arith

IsSettled-normalize :
    (goos : Text) (r : RulesRequest) → IsSettled r → normalize_rules_request goos r ≡ ok r
unfolding normalize_rules_request
IsSettled-normalize goos r n = rw (platform_or_known goos r.platform n.known) (
    rw (n.version, n.known, n.port)
      (rw
        (
          guard_passes r.fail_closed not_fail_closed n.closed,
          le→leb (length r.rules) max_rules n.small,
          sort_Numbered r.platform 0 [] [] 0 r.rules n.numbered,
        )
        (rw (Numbered-number_rules r.platform 0 nothing_seen r.rules tt n.numbered) refl)))

valid_protocol-Known :
    (p : Text)
    → valid_protocol p ≡ true
    → (p ≡ codes "tcp") ⊎ (p ≡ codes "udp") ⊎ (p ≡ codes "both")
unfolding valid_protocol
valid_protocol-Known p h = elim (Bool-cases (text_eq p (codes "tcp"))) [
  | inl e ↦ inl (text_eq→eq p _ e)
  | inr a ↦ elim (Bool-cases (text_eq p (codes "udp"))) [
    | inl e ↦ inr (inl (text_eq→eq p _ e))
    | inr b ↦ inr (inr (text_eq→eq p _ (ground (arith, h, a, b))))
  ]
]

valid_action-Known :
    (a : Text)
    → valid_action a ≡ true
    → (a ≡ codes "proxy") ⊎ (a ≡ codes "direct") ⊎ (a ≡ codes "block")
unfolding valid_action
valid_action-Known p h = elim (Bool-cases (text_eq p (codes "proxy"))) [
  | inl e ↦ inl (text_eq→eq p _ e)
  | inr a ↦ elim (Bool-cases (text_eq p (codes "direct"))) [
    | inl e ↦ inr (inl (text_eq→eq p _ e))
    | inr b ↦ inr (inr (text_eq→eq p _ (ground (arith, h, a, b))))
  ]
]

-- The rules from an index on are numbered in their order, and each has an id, a protocol and an action in their ranges.
abbrev pub Ranged : ℕ → List Rule → Type 0
Ranged index [] = Unit {0}
Ranged index (r ∷ rs) =
    (r.priority ≡ pos (suc index))
    × (1 ≤ length r.id)
    × (length r.id ≤ 128)
    × ((r.protocol ≡ codes "tcp") ⊎ (r.protocol ≡ codes "udp") ⊎ (r.protocol ≡ codes "both"))
    × ((r.action ≡ codes "proxy") ⊎ (r.action ≡ codes "direct") ⊎ (r.action ≡ codes "block"))
    × Ranged (suc index) rs

some_length : (s : Text) → is_empty s ≡ false → 1 ≤ length s
some_length [] h = ground (arith, h)
some_length (c ∷ s) h = omega arith

Numbered-Ranged :
    (platform : Text) (index : ℕ) (ids paths : List Text) (bytes : ℕ) (rs : List Rule)
    → Numbered platform index ids paths bytes rs
    → Ranged index rs
Numbered-Ranged platform index ids paths bytes [] n = tt
Numbered-Ranged platform index ids paths bytes (r ∷ rs) (number, _, valid, _, _, _, later) =
    let a = validate_rule-IsAllowed r platform valid in
    (
      number,
      some_length r.id (ground (arith, a.id_fits)),
      ground (arith, a.id_fits),
      valid_protocol-Known r.protocol a.protocol,
      valid_action-Known r.action a.action,
      Numbered-Ranged platform (suc index) _ _ _ rs later,
    )

-- What a request that is accepted is, in terms of its fields.
pub record IsNormal (r : RulesRequest) : Type 0 where
  pub version : r.version ≡ pos 1
  pub port :
      ((r.platform ≡ windows) × (r.proxy_port ≡ pos 7891))
      ⊎ ((r.platform ≡ linux) × (r.proxy_port ≡ pos 7894))
  pub closed : r.fail_closed ≡ true
  pub small : length r.rules ≤ 256
  pub ranged : Ranged 0 r.rules
  pub apart : Pairs (Apart r.platform) r.rules

port_of :
    (platform : Text) (port : ℤ)
    → is_platform platform ≡ true
    → eq_ℤ port (expected_port platform) ≡ true
    → ((platform ≡ windows) × (port ≡ pos 7891)) ⊎ ((platform ≡ linux) × (port ≡ pos 7894))
unfolding is_platform expected_port text_eq
port_of platform port known h = elim (Bool-cases (text_eq platform windows)) [
  | inl e ↦
      let same = text_eq→eq platform windows e in
      inl (same, eq_ℤ→eq port _ (subst (λ p. eq_ℤ port (expected_port p) ≡ true) same h))
  | inr e ↦
      let same = text_eq→eq platform linux (ground (arith, known, e)) in
      inr (same, eq_ℤ→eq port _ (subst (λ p. eq_ℤ port (expected_port p) ≡ true) same h))
]

-- A request that is accepted is for version 1 and for Windows or Linux with its port, fails closed, and has at most 256
-- rules, with the priorities 1, 2 and so on in their order, with ids of 1 to 128 bytes, with known protocols and
-- actions, no id twice, and no two rules for the same program: on Windows none with the same path, whatever the case of
-- its letters; on Linux none that match the same path and none that match the same name.
pub normalize-IsNormal :
    (goos : Text) (request : RulesRequest) {out : RulesRequest}
    → normalize_rules_request goos request ≡ ok out
    → IsNormal out
normalize-IsNormal goos request {out} h =
    let settled = normalize-IsSettled goos request {out = out} h in
    record {
      version = eq_ℤ→eq _ _ settled.version;
      port = port_of out.platform out.proxy_port settled.known settled.port;
      closed = settled.closed;
      small = settled.small;
      ranged = Numbered-Ranged out.platform 0 [] [] 0 out.rules settled.numbered;
      apart = Numbered-Pairs out.platform 0 [] [] 0 out.rules settled.numbered;
    }

-- A request that was accepted is accepted again as it is, on every platform of the service.
pub normalize_idempotent :
    (goos goos' : Text) (request : RulesRequest) {out : RulesRequest}
    → normalize_rules_request goos request ≡ ok out
    → normalize_rules_request goos' out ≡ ok out
normalize_idempotent goos goos' request {out} h =
    IsSettled-normalize goos' out (normalize-IsSettled goos request {out = out} h)

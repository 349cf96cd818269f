-- ===== src/Router/Requests/Distinct.antt =====
-- Which rules the loop of `normalizeRulesRequest` of processrouter/types.go takes for rules of the same program.
use kokorobox_service.Common.{
  lower_char, ap, ◌++◌, guard-eq-ok, text_eq→eq, ◌∙◌, guard, sym, >>=-eq-ok, subst, text_eq_refl,
  ◌⊎◌, ok, ◌≡◌, text_eq, ℕ, All, ◌≢◌, Text, List, to_lower, any, ◌∷◌, [], false, true, inr, inl,
  suc, refl, arith,
}
use kokorobox_service.Router.Requests.{
  bad_match_kind, match_process_name, match_executable_path, windows_name, validate_rule, path_key,
  rule_name, identifier, Rule, linux, windows,
}
use kokorobox_service.Router.Requests.Numbering.{Numbered, validate_rule-IsAllowed}

-- Two rules of a platform match by the same path or by the same name.
abbrev pub SameProgram : Text → Rule → Rule → Type 0
SameProgram platform a b =
    ((platform ≡ windows) × (to_lower a.executable_path ≡ to_lower b.executable_path))
    ⊎ ((platform ≡ linux)
        × (a.match_kind ≡ match_executable_path)
        × (b.match_kind ≡ match_executable_path)
        × (a.executable_path ≡ b.executable_path))
    ⊎ ((platform ≡ linux)
        × (a.match_kind ≡ match_process_name)
        × (b.match_kind ≡ match_process_name)
        × (a.executable_name ≡ b.executable_name))

-- Two rules have different ids and are for different programs.
abbrev pub Apart : Text → Rule → Rule → Type 0
Apart platform a b = (a.id ≢ b.id) × (¬ SameProgram platform a b)

-- Each element stands in the relation to each that follows it.
abbrev pub Pairs : (Rule → Rule → Type 0) → List Rule → Type 0
Pairs R [] = Unit {0}
Pairs R (r ∷ rs) = All (R r) rs × Pairs R rs

to_lower-append : (a b c : Text) → to_lower b ≡ to_lower c → to_lower (a ++ b) ≡ to_lower (a ++ c)
unfolding to_lower
to_lower-append [] b c h = h
to_lower-append (x ∷ a) b c h = ap (λ s. lower_char x ∷ s) (to_lower-append a b c h)

identifier_path :
    (r : Rule) → r.match_kind ≡ match_executable_path → identifier r ≡ r.executable_path
unfolding identifier text_eq
identifier_path r h = rw h refl

identifier_name : (r : Rule) → r.match_kind ≡ match_process_name → identifier r ≡ r.executable_name
unfolding identifier text_eq
identifier_name r h = rw h refl

windows_kind : (r : Rule) → validate_rule r windows ≡ ok tt → r.match_kind ≡ match_executable_path
unfolding rule_name windows_name text_eq
windows_kind r valid =
    let a = validate_rule-IsAllowed r windows valid in
    let (_, e, _) =
      >>=-eq-ok (guard (text_eq r.match_kind match_executable_path) bad_match_kind) _ a.named in
    text_eq→eq r.match_kind match_executable_path (guard-eq-ok _ bad_match_kind e)

same_windows :
    (a b : Rule)
    → a.match_kind ≡ match_executable_path
    → b.match_kind ≡ match_executable_path
    → to_lower a.executable_path ≡ to_lower b.executable_path
    → path_key windows a ≡ path_key windows b
unfolding path_key text_eq
same_windows a b ka kb same =
    rw (identifier_path a ka, identifier_path b kb, ka, kb)
      (to_lower-append (match_executable_path ++ (0 ∷ [])) a.executable_path b.executable_path same)

same_linux :
    (a b : Rule)
    → a.match_kind ≡ b.match_kind
    → identifier a ≡ identifier b
    → path_key linux a ≡ path_key linux b
unfolding path_key text_eq
same_linux a b kind same = rw (same, kind) refl

same_key :
    (platform : Text) (a b : Rule)
    → validate_rule a platform ≡ ok tt
    → validate_rule b platform ≡ ok tt
    → SameProgram platform a b
    → path_key platform a ≡ path_key platform b
same_key platform a b va vb (inl (p, same)) =
    subst (λ q. path_key q a ≡ path_key q b) (sym p)
      (same_windows a b (windows_kind a (subst (λ q. validate_rule a q ≡ ok tt) p va))
        (windows_kind b (subst (λ q. validate_rule b q ≡ ok tt) p vb)) same)
same_key platform a b va vb (inr (inl (p, ka, kb, same))) =
    subst (λ q. path_key q a ≡ path_key q b) (sym p)
      (same_linux a b (ka ∙ sym kb) (identifier_path a ka ∙ same ∙ sym (identifier_path b kb)))
same_key platform a b va vb (inr (inr (p, ka, kb, same))) =
    subst (λ q. path_key q a ≡ path_key q b) (sym p)
      (same_linux a b (ka ∙ sym kb) (identifier_name a ka ∙ same ∙ sym (identifier_name b kb)))

-- The text is one of the list.
abbrev Among : Text → List Text → Type 0
Among x [] = ⊥
Among x (y ∷ ys) = (x ≡ y) ⊎ Among x ys

Among-fresh : (x y : Text) (ys : List Text) → any (text_eq y) ys ≡ false → Among x ys → x ≢ y
unfolding any
Among-fresh x y [] h m = absurd m
Among-fresh x y (z ∷ ys) h (inl e) = λ q. absurd (
    ground (arith, h, text_eq_refl y, subst (λ w. text_eq y w ≡ true) (sym q ∙ e) (text_eq_refl y)))
Among-fresh x y (z ∷ ys) h (inr m) = Among-fresh x y ys (ground (arith, h)) m

Numbered-Apart :
    (platform : Text) (a : Rule) (index : ℕ) (ids paths : List Text) (bytes : ℕ) (rs : List Rule)
    → validate_rule a platform ≡ ok tt
    → Among a.id ids
    → Among (path_key platform a) paths
    → Numbered platform index ids paths bytes rs
    → All (Apart platform a) rs
Numbered-Apart platform a index ids paths bytes [] va id path n = tt
Numbered-Apart platform a index ids paths bytes (b ∷ rs) va id path
      (_, _, vb, new_id, new_path, _, later) =
    (
      (
        Among-fresh a.id b.id ids new_id id,
        λ same.
            Among-fresh (path_key platform a) (path_key platform b) paths new_path path
              (same_key platform a b va vb same),
      ),
      Numbered-Apart platform a (suc index) _ _ _ rs va (inr id) (inr path) later,
    )

pub Numbered-Pairs :
    (platform : Text) (index : ℕ) (ids paths : List Text) (bytes : ℕ) (rs : List Rule)
    → Numbered platform index ids paths bytes rs
    → Pairs (Apart platform) rs
Numbered-Pairs platform index ids paths bytes [] n = tt
Numbered-Pairs platform index ids paths bytes (r ∷ rs) (_, _, valid, _, _, _, later) = (
  Numbered-Apart platform r (suc index) _ _ _ rs valid (inl refl) (inl refl) later,
  Numbered-Pairs platform (suc index) _ _ _ rs later,
)

-- ===== src/Auth/Requests/Canonical.antt =====
-- What a signature of the canonical form of route/auth/middleware.go covers.
use kokorobox_service.Common.{
  Free-of_all, Bool-cases, all, ◌≡◌, refl, sym, ap, ◌∙◌, [], ◌∷◌, some, Text, All, arith, inl, inr,
  text_eq, to_upper, is_empty, codes, if◌then◌else◌, split_on, join, Option-cases,
}
use kokorobox_service.Common.Splits.{Free, split_on-join}
use kokorobox_service.Auth.Requests.{
  Url, Request, canonical_domain, canonicalize_query, canonical_lines, build_canonical_request,
}

domain-Free : (version d : Text) → canonical_domain version ≡ some d → Free b'\n' d
unfolding canonical_domain all
domain-Free version d h = elim (Bool-cases (text_eq version (codes "2"))) [
  | inl two ↦
      let e : codes "SPARKLE-AUTH-V2" ≡ d = ground (arith, two) in
      rw (← e) (Free-of_all b'\n' (codes "SPARKLE-AUTH-V2") refl)
  | inr other ↦ elim (Bool-cases (text_eq version (codes "3"))) [
    | inl three ↦
        let e : codes "KOKOROBOX-AUTH-V3" ≡ d = ground (arith, other, three) in
        rw (← e) (Free-of_all b'\n' (codes "KOKOROBOX-AUTH-V3") refl)
    | inr neither ↦ ground (arith, other, neither)
  ]
]

-- The path as the canonical form has it.
abbrev pub path_line : Request → Text
path_line r = if is_empty r.escaped_path then codes "/" else r.escaped_path

path-Free : (path : Text) → Free b'\n' path → Free b'\n' (if is_empty path then codes "/" else path)
path-Free [] f = (refl, tt)
path-Free (c ∷ s) f = f

module _ (u : Url) where
  -- No part of the canonical form holds a line feed.
  pub record IsOneLine (r : Request) (body_hash : Text) : Type 0 where
    pub timestamp : Free b'\n' r.timestamp
    pub nonce : Free b'\n' r.nonce
    pub key_id : Free b'\n' r.key_id
    pub method : Free b'\n' (to_upper r.method)
    pub path : Free b'\n' r.escaped_path
    pub query : (q : Text) → canonicalize_query u r.raw_query ≡ some q → Free b'\n' q
    pub hash : Free b'\n' body_hash

  lines-Free :
      (r : Request) (hash version domain query : Text)
      → IsOneLine r hash
      → canonical_domain version ≡ some domain
      → canonicalize_query u r.raw_query ≡ some query
      → All (Free b'\n') (canonical_lines u r hash domain query)
  unfolding canonical_lines
  lines-Free r hash version domain query one d q = (
    domain-Free version domain d,
    (
      one.timestamp,
      (
        one.nonce,
        (
          one.key_id,
          (one.method, (path-Free r.escaped_path one.path, (one.query query q, (one.hash, tt)))),
        ),
      ),
    ),
  )

  -- The parts that a canonical form is made of.
  build_canonical_request_parts :
      (r : Request) (hash version form : Text)
      → build_canonical_request u r hash version ≡ some form
      → (domain : Text) × (query : Text) × (canonical_domain version ≡ some domain)
        × (canonicalize_query u r.raw_query ≡ some query)
        × (form ≡ join b'\n' (canonical_lines u r hash domain query))
  unfolding build_canonical_request
  build_canonical_request_parts r hash version form h =
      elim (Option-cases (canonical_domain version)) [
        | inl e ↦ ground (arith, e)
        | inr (domain, e) ↦ elim (Option-cases (canonicalize_query u r.raw_query)) [
          | inl e' ↦ ground (arith, e, e')
          | inr (query, e') ↦ (domain, query, e, e', ground (arith, e, e'))
        ]
      ]

  split-lines :
      (r : Request) (hash version domain query : Text)
      → IsOneLine r hash
      → canonical_domain version ≡ some domain
      → canonicalize_query u r.raw_query ≡ some query
      → split_on b'\n' (join b'\n' (canonical_lines u r hash domain query))
        ≡ canonical_lines u r hash domain query
  unfolding canonical_lines
  split-lines r hash version domain query one d q =
      split_on-join b'\n' domain _ (lines-Free r hash version domain query one d q)

  -- Two requests with the same canonical form, made of parts that hold no line feed, agree in everything that
  -- the form is to cover: the domain of their version, the timestamp, the nonce, the key id, the method up to
  -- case, the path, the canonical query and the digest of the body.
  pub canonical_covers :
      (r r' : Request) (hash hash' version version' form : Text)
      → IsOneLine r hash
      → IsOneLine r' hash'
      → build_canonical_request u r hash version ≡ some form
      → build_canonical_request u r' hash' version' ≡ some form
      → (canonical_domain version ≡ canonical_domain version')
        × (r.timestamp ≡ r'.timestamp)
        × (r.nonce ≡ r'.nonce)
        × (r.key_id ≡ r'.key_id)
        × (to_upper r.method ≡ to_upper r'.method)
        × (path_line r ≡ path_line r')
        × (canonicalize_query u r.raw_query ≡ canonicalize_query u r'.raw_query)
        × (hash ≡ hash')
  unfolding canonical_lines
  canonical_covers r r' hash hash' version version' form one one' h h' =
      let (d, q, ed, eq, ef) = build_canonical_request_parts r hash version form h in
      let (d', q', ed', eq', ef') = build_canonical_request_parts r' hash' version' form h' in
      let same : canonical_lines u r hash d q ≡ canonical_lines u r' hash' d' q' =
        sym (split-lines r hash version d q one ed eq)
        ∙ ap (split_on b'\n') (sym ef ∙ ef')
        ∙ split-lines r' hash' version' d' q' one' ed' eq' in
      (cc, cc, cc, cc, cc, cc, cc, cc)

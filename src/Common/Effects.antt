-- ===== src/Common/Effects.antt =====
-- Steps on a state that may fail, with the state that they leave either way, and what holds after them.
use mathlib.Core.Path.{◌≡◌, refl}
use mathlib.Core.List.{List, [], ◌∷◌}

pub data Outcome (E S A : Type 0) : Type 0 where
  done : A → S → Outcome E S A
  failure : E → S → Outcome E S A

infixl 5 ◌>>=◌ ◌>>◌
abbrev pub ◌>>=◌ :
    {E S A B : Type 0} → (S → Outcome E S A) → (A → S → Outcome E S B) → S → Outcome E S B
◌>>=◌ m f s = elim (m s) [ done a t ↦ f a t | failure e t ↦ failure e t ]

abbrev pub ◌>>◌ :
    {E S B : Type 0} → (S → Outcome E S (Unit {0})) → (S → Outcome E S B) → S → Outcome E S B
m >> k = m >>= λ _. k

abbrev pub pure : {E S A : Type 0} → A → S → Outcome E S A
pure a s = done a s

abbrev pub fail : {E S A : Type 0} → E → S → Outcome E S A
fail e s = failure e s

-- A step that cannot fail.
abbrev pub modify : {E S : Type 0} → (S → S) → S → Outcome E S (Unit {0})
modify f s = done tt (f s)

-- The state after a step, whether or not it failed.
abbrev pub after : {E S A : Type 0} → Outcome E S A → S
after (done a t) = t
after (failure e t) = t

-- An error that is dropped: `_ = m()`.
unfoldable pub ignore : {E S : Type 0} → (S → Outcome E S (Unit {0})) → S → Outcome E S (Unit {0})
ignore m s = done tt (after (m s))

-- `if err := m(); err != nil { return handler(err) }`.
unfoldable pub catch :
    {E S A : Type 0} → (S → Outcome E S A) → (E → S → Outcome E S A) → S → Outcome E S A
catch m handler s = elim (m s) [ done a t ↦ done a t | failure e t ↦ handler e t ]

pub bind-done :
    {E S A B : Type 0} (m : S → Outcome E S A) (f : A → S → Outcome E S B) (s : S) {a : A} {t : S}
    → m s ≡ done a t
    → (m >>= f) s ≡ f a t
bind-done m f s e = rw (e, ◌>>=◌) refl

-- What holds after a step, by how it ended.
abbrev pub Post : {E S A : Type 0} → (A → S → Type 0) → (E → S → Type 0) → Outcome E S A → Type 0
Post P Q (done a t) = P a t
Post P Q (failure e t) = Q e t

module _ {E S : Type 0} where
  pub Post-bind :
      {A B : Type 0} (P : A → S → Type 0) (Q : E → S → Type 0) (R : B → S → Type 0)
      (o : Outcome E S A) (f : A → S → Outcome E S B)
      → Post P Q o
      → ((a : A) (t : S) → P a t → Post R Q (f a t))
      → Post R Q (elim o [ done a t ↦ f a t | failure e t ↦ failure e t ])
  Post-bind P Q R (done a t) f p k = k a t p
  Post-bind P Q R (failure e t) f p k = p

  pub Post-after :
      {A : Type 0} (P : S → Type 0) (o : Outcome E S A) → Post (λ _. P) (λ _. P) o → P (after o)
  Post-after P (done a t) p = p
  Post-after P (failure e t) p = p

  pub Post-catch :
      {A : Type 0} (P : A → S → Type 0) (Q R : E → S → Type 0) (m : S → Outcome E S A)
      (h : E → S → Outcome E S A) (s : S)
      → Post P Q (m s)
      → ((e : E) (t : S) → Q e t → Post P R (h e t))
      → Post P R (catch m h s)
  unfolding catch
  Post-catch P Q R m h s p k = go (m s) p
    where
      go :
          (o : Outcome E S _)
          → Post P Q o
          → Post P R (elim o [ done a t ↦ done a t | failure e t ↦ h e t ])
      go (done a t) p = p
      go (failure e t) p = k e t p

  pub Post-mono :
      {A : Type 0} (P P' : A → S → Type 0) (Q Q' : E → S → Type 0) (o : Outcome E S A)
      → ((a : A) (t : S) → P a t → P' a t)
      → ((e : E) (t : S) → Q e t → Q' e t)
      → Post P Q o
      → Post P' Q' o
  Post-mono P P' Q Q' (done a t) f g p = f a t p
  Post-mono P P' Q Q' (failure e t) f g p = g e t p

-- How a call of the system turns out, for each call the next of a list. One that fails late has taken effect.
pub data Fault : Type 0 where
  works fails fails_late : Fault

unfoldable pub next_fault : List Fault → Fault
next_fault [] = works
next_fault (f ∷ fs) = f

unfoldable pub later_faults : List Fault → List Fault
later_faults [] = []
later_faults (f ∷ fs) = fs

unfoldable pub attempt_with : {E S : Type 0} → Fault → (S → S) → E → S → Outcome E S (Unit {0})
attempt_with works effect e s = done tt (effect s)
attempt_with fails effect e s = failure e s
attempt_with fails_late effect e s = failure e (effect s)

pub attempt_with-Post :
    {E S : Type 0} (P Q : S → Type 0) (f : Fault) (effect : S → S) (e : E) (s : S)
    → P (effect s)
    → Q s
    → Q (effect s)
    → Post (λ _. P) (λ _. Q) (attempt_with f effect e s)
unfolding attempt_with
attempt_with-Post P Q works effect e s p q r = p
attempt_with-Post P Q fails effect e s p q r = q
attempt_with-Post P Q fails_late effect e s p q r = r

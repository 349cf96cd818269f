-- ===== src/Core/LogWriter/Bound.antt =====
-- The steps of the writer of core/log_writer.go keep the log a part of what it was, and within its limit.
use kokorobox_service.Common.Effects.{
  ◌>>◌, Post-mono, Post-after, done, failure, Post, Post-bind, Post-catch, catch, ignore,
}
use kokorobox_service.Core.LogWriter.{
  Fault, LogWriter, call, put, put_content, logged, with_file, next_fault, open_file,
  open_with_access, reopen_locked, read_log_tail, write_file, reopen_and_fail, shrink,
  from_line_start, drawn, works, fails, partly,
}
use kokorobox_service.Core.LogWriter.Tail.{
  length-Within, Suffix-drop, Suffix-trans, Suffix-refl, from_line_start-Suffix, Within-take,
  Within-Suffix, Within-trans, Suffix, Within,
}
use kokorobox_service.Common.{
  leb→le, length-drop, Bool-cases, ◌<◌, inr, inl, ◌-◌, ◌++◌, ap, arith, ◌∷◌, [], drop, ◌∙◌, ◌≤◌,
  take, text_eq_refl, ◌≡◌, leb, length, ℕ, Text, false, true, suc, zero, refl,
}

-- The log is this text, under this limit.
abbrev pub At : ℕ → Text → LogWriter → Type 0
At n b w = (w.max_bytes ≡ n) × (logged w ≡ b)

-- It is a part of this text.
abbrev pub Part : ℕ → Text → LogWriter → Type 0
Part n b w = (w.max_bytes ≡ n) × Within (logged w) b

-- It is an end of this text, within the limit, and open.
abbrev pub Cut : ℕ → Text → LogWriter → Type 0
Cut n b w = (w.max_bytes ≡ n) × Suffix (logged w) b × (length (logged w) ≤ n) × (w.is_open ≡ true)

pub At-Part : (n : ℕ) (b : Text) (w : LogWriter) → At n b w → Part n b w
At-Part n b w at = (at.0, rw at.1 (Within-Suffix b b (Suffix-refl b)))

At-Part-cut : (n : ℕ) (b c : Text) (w : LogWriter) → At n c w → Suffix c b → Part n b w
At-Part-cut n b c w at cut = (at.0, rw at.1 (Within-Suffix c b cut))

leb-false : (a b : ℕ) → leb a b ≡ false → b < a
leb-false a b h = ground arith

pub logged-put_content : (s : Text) (w : LogWriter) → logged (put_content s w) ≡ s
unfolding with_file
logged-put_content s w = rw (text_eq_refl w.path) refl

pub call-Post :
    (P Q : LogWriter → Type 0) (m : Text) (w : LogWriter)
    → P (drawn w)
    → Q (drawn w)
    → Post (λ _. P) (λ _. Q) (call m w)
unfolding call
call-Post P Q m w p q = go (next_fault w.faults)
  where
    go :
        (f : Fault)
        → Post
            (λ _. P)
            (λ _. Q)
            (elim f [
              | works ↦ done tt (drawn w)
              | fails os ↦ failure (m ++ os) (drawn w)
              | partly k os ↦ failure (m ++ os) (drawn w)
            ])
    go works = p
    go (fails os) = q
    go (partly k os) = q

pub call-At :
    (n : ℕ) (b : Text) (m : Text) (w : LogWriter)
    → At n b w
    → Post (λ _. At n b) (λ _. At n b) (call m w)
call-At n b m w at = call-Post (At n b) (At n b) m w at at

-- A call that writes, by what holds when it is done, when it has not begun and when it stops.
pub put-Post :
    (P Q : LogWriter → Type 0) (all : LogWriter → LogWriter) (part : ℕ → LogWriter → LogWriter)
    (m : Text) (w : LogWriter)
    → P (all (drawn w))
    → Q (drawn w)
    → ((k : ℕ) → Q (part k (drawn w)))
    → Post (λ _ t. P t) (λ _ t. Q t) (put all part m w)
unfolding put
put-Post P Q all part m w p q r = go (next_fault w.faults)
  where
    go :
        (f : Fault)
        → Post
            (λ _ t. P t)
            (λ _ t. Q t)
            (elim f [
              | works ↦ done tt (all (drawn w))
              | fails os ↦ failure (m ++ os) (drawn w)
              | partly k os ↦ failure (m ++ os) (part k (drawn w))
            ])
    go works = p
    go (fails os) = q
    go (partly k os) = r k

pub open_with_access-At :
    (n : ℕ) (b m : Text) (w : LogWriter)
    → At n b w
    → Post (λ _ t. At n b t × (t.is_open ≡ true)) (λ _ t. At n b t) (open_with_access m w)
unfolding open_with_access open_file
open_with_access-At n b m w at =
    Post-bind (λ _. At n b) (λ _. At n b) (λ _ t. At n b t × (t.is_open ≡ true)) _ _
      (put-Post (At n b) (At n b) _ _ m w (at.0, logged-put_content (logged w) (drawn w) ∙ at.1) at
        (λ k. at))
      (λ _ t at_t.
        Post-bind (λ _. At n b) (λ _. At n b) (λ _ t. At n b t × (t.is_open ≡ true)) _ _
          (call-At n b [] t at_t) (λ _ u at_u. (at_u, refl)))

reopen_and_fail-Post :
    {A : Type 0} (P : A → LogWriter → Type 0) (n : ℕ) (b m : Text) (w : LogWriter)
    → At n b w
    → Post P (λ _. At n b) (reopen_and_fail {A = A} m w)
unfolding reopen_and_fail reopen_locked ignore
reopen_and_fail-Post P n b m w at = Post-after (At n b) (reopen_locked w) (
    unfold reopen_locked in
    Post-mono (λ _ t. At n b t × (t.is_open ≡ true)) (λ _. At n b) (λ _. At n b) (λ _. At n b) _
      (λ _ t p. p.0) (λ _ t p. p) (open_with_access-At n b _ w at))

take_all : (n : ℕ) (s : Text) → length s ≤ n → take n s ≡ s
take_all zero [] h = refl
take_all (suc n) [] h = refl
take_all zero (c ∷ s) h = absurd (omega arith)
take_all (suc n) (c ∷ s) h = ap (◌∷◌ c) (take_all n s (omega arith))

tail_lem :
    (target : ℕ) (s : Text)
    → leb (length s) target ≡ false
    → Suffix (from_line_start (take target (drop (length s - target) s))) s
      × (length (from_line_start (take target (drop (length s - target) s))) ≤ target)
tail_lem target s long =
    let len : length (drop (length s - target) s) ≡ target =
      omega (arith, length-drop (length s - target) s, leb-false (length s) target long) in
    let all = take_all target (drop (length s - target) s) (omega arith) in
    let line = from_line_start-Suffix (drop (length s - target) s) in
    rw all (
      Suffix-trans _ _ s line (Suffix-drop (length s - target) s),
      omega (arith, length-Within _ _ (Within-Suffix _ _ line)),
    )

read_log_tail-Post :
    (target n : ℕ) (b : Text) (w : LogWriter)
    → At n b w
    → Post
        (λ c t. At n b t × Suffix c b × (length c ≤ target))
        (λ _. At n b)
        (read_log_tail (length b) target w)
unfolding read_log_tail
read_log_tail-Post target n b w at = elim (Bool-cases (leb (length b) target)) [
  | inl small ↦ rw small (
      Post-bind (λ _. At n b) (λ _. At n b) _ _ _ (call-At n b _ w at)
        (λ _ t at_t. (at_t, rw at.1 (Suffix-refl b), rw at.1 (leb→le (length b) target small))))
  | inr large ↦ rw large (
      Post-bind (λ _. At n b) (λ _. At n b) _ _ _ (call-At n b _ w at)
        (λ _ t at_t.
          Post-bind (λ _. At n b) (λ _. At n b) _ _ _ (call-At n b _ t at_t)
            (λ _ u at_u.
              (at_u, rw at.1 (tail_lem target b large).0, rw at.1 (tail_lem target b large).1))))
]

write_file-Post :
    (n : ℕ) (b c : Text) (w : LogWriter)
    → At n b w
    → Suffix c b
    → Post (λ _. At n c) (λ _. Part n b) (write_file c w)
unfolding write_file
write_file-Post n b c w at cut =
    put-Post (At n c) (Part n b) _ _ _ w (at.0, logged-put_content c (drawn w))
      (At-Part n b (drawn w) at)
      (λ k. (
        at.0,
        rw (logged-put_content (take k c) (drawn w))
            (Within-trans _ _ b (Within-take k c) (Within-Suffix c b cut)),
      ))

-- The end of `shrink`, in which a failure reopens the file.
failing-Part :
    {A : Type 0} (P : A → LogWriter → Type 0) (n : ℕ) (b m : Text) (w : LogWriter)
    → Part n b w
    → Post P (λ _. Part n b) (reopen_and_fail {A = A} m w)
failing-Part P n b m w part =
    Post-mono P P (λ _. At n (logged w)) (λ _. Part n b) _ (λ _ t p. p)
      (λ _ t at. (at.0, rw at.1 part.1)) (reopen_and_fail-Post P n (logged w) m w (part.0, refl))

pub shrink-Post :
    (target n : ℕ) (b : Text) (w : LogWriter)
    → At n b w
    → target ≤ n
    → Post (λ _. Cut n b) (λ _. Part n b) (shrink (length b) target w)
unfolding shrink
shrink-Post target n b w at le =
    Post-bind (λ _. At n b) (λ _. Part n b) _ _ _
      (Post-mono (λ _. At n b) (λ _. At n b) (λ _. At n b) (λ _. Part n b) _ (λ _ t p. p)
        (λ _ t p. At-Part n b t p) (call-At n b _ _ at))
      (λ _ t at_t.
        Post-bind (λ c t. At n b t × Suffix c b × (length c ≤ target)) (λ _. Part n b) _ _ _
          (Post-catch _ (λ _. At n b) (λ _. Part n b) _ _ t (read_log_tail-Post target n b t at_t)
            (λ e u at_u. failing-Part _ n b e u (At-Part n b u at_u)))
          (λ c u tail. rewrite c u tail.0 tail.1 tail.2))
  where
    finish :
        (c : Text) (v : LogWriter)
        → At n c v
        → Suffix c b
        → length c ≤ target
        → Post (λ _. Cut n b) (λ _. Part n b) ((catch (call []) reopen_and_fail >> reopen_locked) v)
    finish c v at_v cut short =
        let keeps = λ (t : LogWriter) (p : At n c t). At-Part-cut n b c t p cut in
        Post-bind (λ _. At n c) (λ _. Part n b) _ _ _
          (Post-catch (λ _. At n c) (λ _. At n c) (λ _. Part n b) _ _ v (call-At n c _ v at_v)
            (λ e x at_x. failing-Part _ n b e x (keeps x at_x)))
          (λ _ x at_x.
            unfold reopen_locked in
            Post-mono (λ _ t. At n c t × (t.is_open ≡ true)) (λ _. Cut n b) (λ _. At n c)
              (λ _. Part n b) _ (λ _ t p. (p.0.0, rw p.0.1 cut, rw p.0.1 (omega arith), p.1))
              (λ _ t p. keeps t p) (open_with_access-At n c _ x at_x))

    rewrite :
        (c : Text) (u : LogWriter)
        → At n b u
        → Suffix c b
        → length c ≤ target
        → Post
            (λ _. Cut n b)
            (λ _. Part n b)
            ((catch (write_file c) reopen_and_fail
                >> (catch (call []) reopen_and_fail >> reopen_locked))
              u)
    rewrite c u at_u cut short =
        Post-bind (λ _. At n c) (λ _. Part n b) _ _ _
          (Post-catch (λ _. At n c) (λ _. Part n b) (λ _. Part n b) _ _ u
            (write_file-Post n b c u at_u cut) (λ e v part. failing-Part _ n b e v part))
          (λ _ v at_v. finish c v at_v cut short)

-- ===== src/Sse/Buffer/Chunks.antt =====
-- How the bytes of a stream are cut into chunks has no influence on what reaches `parseFrame`.
use agentchat_take_home.Base.{
  ℕ, zero, suc, ◌≤◌, Text, List, [], ◌∷◌, ◌++◌, append-nil, append_assoc, none, length, ◌≡◌, refl,
  sym, ap, ◌∙◌, ◌≢◌, ◌⊎◌, arith, Option-cases, inl, inr, ◌==◌, nat_eq, Bool-cases,
}
use agentchat_take_home.Sse.Lines.{normalize}
use agentchat_take_home.Sse.Buffer.{cut, Drained, with_raw, drain, feed, feed_all, start}
use agentchat_take_home.Sse.Buffer.Cut.{
  blank, cut-eq, cut-append, length-cut, drain-cut, drain_on-none, drain_on-total, cut-nil,
}

-- The text that arrives in all.
abbrev pub concat : List Text → Text
concat [] = []
concat (chunk ∷ chunks) = chunk ++ concat chunks

-- No carriage return follows a carriage return. (Behind "\r\r\n" the buffer is replaced twice.)
abbrev pub NoDoubleCr : Text → Type 0
NoDoubleCr [] = Unit
NoDoubleCr (c ∷ []) = Unit
NoDoubleCr (c ∷ d ∷ s) = ((c ≢ b'\r') ⊎ (d ≢ b'\r')) × NoDoubleCr (d ∷ s)

-- No CRLF is left.
abbrev IsNormal : Text → Type 0
IsNormal [] = Unit
IsNormal (c ∷ []) = Unit
IsNormal (c ∷ d ∷ s) = ((c ≢ b'\r') ⊎ (d ≢ b'\n')) × IsNormal (d ∷ s)

NoDoubleCr-left : (t u : Text) → NoDoubleCr (t ++ u) → NoDoubleCr t
NoDoubleCr-left [] u h = tt
NoDoubleCr-left (c ∷ []) u h = tt
NoDoubleCr-left (c ∷ d ∷ t) u (p, h) = (p, NoDoubleCr-left (d ∷ t) u h)

NoDoubleCr-tail : (c : ℕ) (s : Text) → NoDoubleCr (c ∷ s) → NoDoubleCr s
NoDoubleCr-tail c [] h = tt
NoDoubleCr-tail c (d ∷ s) (p, h) = h

IsNormal-tail : (c : ℕ) (s : Text) → IsNormal (c ∷ s) → IsNormal s
IsNormal-tail c [] h = tt
IsNormal-tail c (d ∷ s) (p, h) = h

IsNormal-right : (s t : Text) → IsNormal (s ++ t) → IsNormal t
IsNormal-right [] t h = h
IsNormal-right (c ∷ s) t h = IsNormal-right s t (IsNormal-tail c (s ++ t) h)

IsNormal-blank : (s : Text) → IsNormal (blank s) → IsNormal s
IsNormal-blank s h = IsNormal-tail b'\n' s (IsNormal-tail b'\n' (b'\n' ∷ s) h)

normalize-cons : (c : ℕ) (s : Text) → c ≢ b'\r' → normalize (c ∷ s) ≡ c ∷ normalize s
unfolding normalize
normalize-cons c [] h = refl
normalize-cons c (d ∷ s) h = ground arith

normalize-cons_ne : (c d : ℕ) (s : Text) → d ≢ b'\n' → normalize (c ∷ d ∷ s) ≡ c ∷ normalize (d ∷ s)
unfolding normalize
normalize-cons_ne c d s h = ground arith

normalize_crlf : (s : Text) → normalize (b'\r' ∷ b'\n' ∷ s) ≡ b'\n' ∷ normalize s
unfolding normalize
normalize_crlf s = refl

IsNormal-cons : (c : ℕ) (s : Text) → c ≢ b'\r' → IsNormal s → IsNormal (c ∷ s)
IsNormal-cons c [] p h = tt
IsNormal-cons c (d ∷ s) p h = (inl p, h)

-- At the head of a text: a CRLF, a carriage return with something else behind it, or neither.
data Head (c d : ℕ) : Type 0 where
  crlf : c ≡ b'\r' → d ≡ b'\n' → Head c d
  cr : c ≡ b'\r' → d ≢ b'\n' → d ≢ b'\r' → Head c d
  other : c ≢ b'\r' → Head c d

first_unit : (c d : ℕ) → (c ≢ b'\r') ⊎ (d ≢ b'\r') → Head c d
first_unit c d p = elim (Bool-cases (c == b'\r')) [
  | inl same ↦ elim (Bool-cases (d == b'\n')) [
    | inl newline ↦ crlf (ground arith) (ground arith)
    | inr e ↦ cr (ground arith) (ground arith) (ground arith)
  ]
  | inr e ↦ other (ground arith)
]

normalize-IsNormal : (t : Text) → NoDoubleCr t → IsNormal (normalize t)
normalize-IsNormal [] h = unfold normalize in tt
normalize-IsNormal (c ∷ []) h = unfold normalize in tt
normalize-IsNormal (c ∷ d ∷ s) (p, h) =
    go (first_unit c d p) (normalize-IsNormal s (NoDoubleCr-tail d s h))
      (normalize-IsNormal (d ∷ s) h)
  where
    go :
        Head c d
        → IsNormal (normalize s)
        → IsNormal (normalize (d ∷ s))
        → IsNormal (normalize (c ∷ d ∷ s))
    go (crlf e f) far near = rw (e, f) (rw normalize_crlf (IsNormal-cons b'\n' _ (omega arith) far))
    go (cr e f g) far near =
        rw (normalize-cons_ne c d s f, normalize-cons d s g)
          (inr f, rw (normalize-cons d s g) at near)
    go (other e) far near = rw (normalize-cons c (d ∷ s) e) (IsNormal-cons c _ e near)

-- What was normalised before is not changed by normalising again with more text behind it.
normalize-append :
    (t u : Text) → NoDoubleCr (t ++ u) → normalize (normalize t ++ u) ≡ normalize (t ++ u)
normalize-append [] u h = unfold normalize in refl
normalize-append (c ∷ []) u h = unfold normalize in refl
normalize-append (c ∷ d ∷ s) u (p, h) =
    go (first_unit c d p) (normalize-append s u (NoDoubleCr-tail d (s ++ u) h))
      (normalize-append (d ∷ s) u h)
  where
    go :
        Head c d
        → normalize (normalize s ++ u) ≡ normalize (s ++ u)
        → normalize (normalize (d ∷ s) ++ u) ≡ normalize (d ∷ s ++ u)
        → normalize (normalize (c ∷ d ∷ s) ++ u) ≡ normalize (c ∷ d ∷ s ++ u)
    go (crlf e f) far near =
        rw (e, f)
          (rw (normalize_crlf s, normalize_crlf (s ++ u))
            (normalize-cons b'\n' _ (omega arith) ∙ ap (◌∷◌ b'\n') far))
    go (cr e f g) far near =
        rw (normalize-cons_ne c d s f, normalize-cons d s g, normalize-cons_ne c d (s ++ u) f)
          (normalize-cons_ne c d _ f ∙ ap (◌∷◌ c) (rw (normalize-cons d s g) at near))
    go (other e) far near =
        rw (normalize-cons c (d ∷ s) e, normalize-cons c (d ∷ s ++ u) e)
          (normalize-cons c _ e ∙ ap (◌∷◌ c) near)

normalize-cons_or :
    (c d : ℕ) (s : Text) → (c ≢ b'\r') ⊎ (d ≢ b'\n') → normalize (c ∷ d ∷ s) ≡ c ∷ normalize (d ∷ s)
normalize-cons_or c d s (inl p) = normalize-cons c (d ∷ s) p
normalize-cons_or c d s (inr p) = normalize-cons_ne c d s p

normalize-blank :
    (a b x : Text) → IsNormal (a ++ blank b) → normalize (a ++ blank x) ≡ a ++ blank (normalize x)
normalize-blank [] b x h =
    normalize-cons b'\n' _ (omega arith) ∙ ap (◌∷◌ b'\n') (normalize-cons b'\n' x (omega arith))
normalize-blank (c ∷ []) b x (p, h) =
    normalize-cons_or c b'\n' _ p ∙ ap (◌∷◌ c) (normalize-blank [] b x h)
normalize-blank (c ∷ d ∷ a) b x (p, h) =
    normalize-cons_or c d _ p ∙ ap (◌∷◌ c) (normalize-blank (d ∷ a) b x h)

start-drain : start ≡ drain (normalize [])
unfolding normalize
start-drain = sym (drain_on-none zero [] cut-nil)

feed-with_raw : (raw u : Text) (d : Drained) → feed (with_raw raw d) u ≡ with_raw raw (feed d u)
unfolding feed
feed-with_raw raw u d = refl

feed-none : (t u : Text) → cut t ≡ none → feed (drain t) u ≡ drain (normalize (t ++ u))
unfolding feed
feed-none t u h = rw (drain_on-none (length t) t h)

-- Draining, then one more chunk, is draining the longer text.
feed-drain :
    (fuel : ℕ) (t u : Text)
    → length t ≤ fuel
    → IsNormal t
    → feed (drain t) u ≡ drain (normalize (t ++ u))
feed-drain zero [] u h n = feed-none [] u cut-nil
feed-drain zero (c ∷ t) u h n = elim h [ ]
feed-drain (suc fuel) t u h n = elim (Option-cases (cut t)) [
  | inl missing ↦ feed-none t u missing
  | inr ((raw, rest), found) ↦
      let parts = cut-eq t raw rest found in
      let clean : IsNormal (raw ++ blank rest) = rw parts at n in
      let longer : normalize (t ++ u) ≡ raw ++ blank (normalize (rest ++ u)) =
        ap (λ x. normalize (x ++ u)) parts
        ∙ ap normalize (append_assoc raw (blank rest) u)
        ∙ normalize-blank raw rest (rest ++ u) clean in
      ap (λ d. feed d u) (drain-cut t raw rest found)
      ∙ feed-with_raw raw u (drain rest)
      ∙ ap (with_raw raw) (
          feed-drain fuel rest u (omega (arith, length-cut t raw rest found))
            (IsNormal-blank rest (IsNormal-right raw (blank rest) clean)))
      ∙ sym (drain-cut _ raw _ (cut-append t raw rest _ found))
      ∙ ap drain (sym longer)
]

-- The texts that reach `parseFrame`, and what stays in the buffer, are those of the whole text,
-- however it is cut into chunks.
pub feed_all-concat :
    (t : Text) (chunks : List Text)
    → NoDoubleCr (t ++ concat chunks)
    → feed_all (drain (normalize t)) chunks ≡ drain (normalize (t ++ concat chunks))
unfolding feed_all
feed_all-concat t [] h = rw append-nil
feed_all-concat t (u ∷ chunks) h =
    let h' : NoDoubleCr ((t ++ u) ++ concat chunks) = rw append_assoc h in
    let left = NoDoubleCr-left (t ++ u) (concat chunks) h' in
    let clean = normalize-IsNormal t (NoDoubleCr-left t u left) in
    ap (λ d. feed_all d chunks)
      (feed-drain (length (normalize t)) (normalize t) u (omega arith) clean
        ∙ ap drain (normalize-append t u left))
    ∙ feed_all-concat (t ++ u) chunks h'
    ∙ ap (λ x. drain (normalize x)) (append_assoc t u (concat chunks))

-- The same from the start of a stream: what reaches `parseFrame` is a function of the text that
-- arrives, and a blank line never stays in the buffer.
pub feed_all-start :
    (chunks : List Text)
    → NoDoubleCr (concat chunks)
    → (feed_all start chunks ≡ drain (normalize (concat chunks)))
      × (cut (feed_all start chunks).buffer ≡ none)
feed_all-start chunks h =
    let whole = ap (λ d. feed_all d chunks) start-drain ∙ feed_all-concat [] chunks h in
    (whole, rw whole (drain_on-total (length (normalize (concat chunks))) _ (omega arith)))

-- ===== src/Sse/Buffer/Cut.antt =====
-- Where the buffer is cut, and that the inner loop has enough fuel.
use agentchat_take_home.Base.{
  ℕ, zero, suc, ◌≤◌, ◌<◌, Text, [], ◌∷◌, ◌++◌, none, some, take, drop, length, ◌≡◌, refl, arith,
  take-length-append, length-append, Option-cases, inl, inr, nat_eq, ap, ◌∙◌, sym,
}
use agentchat_take_home.Sse.Lines.{index_of_blank}
use agentchat_take_home.Sse.Buffer.{cut, with_raw, drain_on, drain}

abbrev pub blank : Text → Text
blank s = b'\n' ∷ b'\n' ∷ s

index_of_blank-take :
    (t : Text) (i : ℕ) → index_of_blank t ≡ some i → (t ≡ take i t ++ blank (drop (suc (suc i)) t))
unfolding index_of_blank
index_of_blank-take [] i h = ground arith
index_of_blank-take (c ∷ []) i h = ground arith
index_of_blank-take (c ∷ d ∷ t) zero h = ground arith
index_of_blank-take (c ∷ d ∷ t) (suc i) h = ground (arith, index_of_blank-take (d ∷ t) i)

index_of_blank-append :
    (t x : Text) (i : ℕ) → index_of_blank t ≡ some i → index_of_blank (take i t ++ blank x) ≡ some i
unfolding index_of_blank
index_of_blank-append [] x i h = ground arith
index_of_blank-append (c ∷ []) x i h = ground arith
index_of_blank-append (c ∷ d ∷ t) x zero h = ground arith
index_of_blank-append (c ∷ d ∷ t) x (suc zero) h =
    ground (arith, index_of_blank-append (d ∷ t) x zero)
index_of_blank-append (c ∷ d ∷ t) x (suc (suc i)) h =
    ground (arith, index_of_blank-append (d ∷ t) x (suc i))

length-take-index_of_blank : (t : Text) (i : ℕ) → index_of_blank t ≡ some i → length (take i t) ≡ i
unfolding index_of_blank
length-take-index_of_blank [] i h = ground arith
length-take-index_of_blank (c ∷ []) i h = ground arith
length-take-index_of_blank (c ∷ d ∷ t) zero h = refl
length-take-index_of_blank (c ∷ d ∷ t) (suc i) h =
    ground (arith, length-take-index_of_blank (d ∷ t) i)

drop_past_blank : (s x : Text) → drop (suc (suc (length s))) (s ++ blank x) ≡ x
drop_past_blank [] x = refl
drop_past_blank (c ∷ s) x = drop_past_blank s x

-- A cut takes the buffer apart at a blank line.
pub cut-eq : (t raw rest : Text) → cut t ≡ some (raw, rest) → t ≡ raw ++ blank rest
unfolding cut
cut-eq t raw rest h = elim (Option-cases (index_of_blank t)) [
  | inl missing ↦ ground arith
  | inr (i, found) ↦ ground (arith, index_of_blank-take t i found)
]

-- A cut at the first blank line.
pub cut-blank :
    (raw x : Text)
    → index_of_blank (raw ++ blank x) ≡ some (length raw)
    → cut (raw ++ blank x) ≡ some (raw, x)
unfolding cut
cut-blank raw x h = rw (h, cut) (rw (take-length-append raw (blank x), drop_past_blank raw x))

-- What stands behind the blank line has no influence on the cut.
pub cut-append :
    (t raw rest x : Text) → cut t ≡ some (raw, rest) → cut (raw ++ blank x) ≡ some (raw, x)
unfolding cut
cut-append t raw rest x h = elim (Option-cases (index_of_blank t)) [
  | inl missing ↦ ground arith
  | inr (i, found) ↦
      let same : raw ≡ take i t = ground arith in
      let len : length raw ≡ i = rw same (length-take-index_of_blank t i found) in
      let again : index_of_blank (raw ++ blank x) ≡ some i =
        rw same (index_of_blank-append t x i found) in
      cut-blank raw x (again ∙ ap some (sym len))
]

pub length-cut : (t raw rest : Text) → cut t ≡ some (raw, rest) → length rest < length t
length-cut t raw rest h =
    omega (arith, ap length (cut-eq t raw rest h), length-append raw (blank rest))

pub drain_on-none :
    (fuel : ℕ) (t : Text) → cut t ≡ none → drain_on fuel t ≡ record { raws = []; buffer = t }
unfolding drain_on
drain_on-none zero t h = refl
drain_on-none (suc fuel) t h = rw (h, drain_on)

drain_on-suc :
    (fuel : ℕ) (t raw rest : Text)
    → cut t ≡ some (raw, rest)
    → drain_on (suc fuel) t ≡ with_raw raw (drain_on fuel rest)
unfolding drain_on
drain_on-suc fuel t raw rest h = rw (h, drain_on)

pub cut-nil : cut [] ≡ none
unfolding cut index_of_blank
cut-nil = refl

-- With fuel for every code unit the inner loop stops because no blank line is left.
pub drain_on-total : (fuel : ℕ) (t : Text) → length t ≤ fuel → cut (drain_on fuel t).buffer ≡ none
drain_on-total zero [] h = rw (drain_on-none zero [] cut-nil) cut-nil
drain_on-total zero (c ∷ t) h = elim h [ ]
drain_on-total (suc fuel) t h = elim (Option-cases (cut t)) [
  | inl missing ↦ rw (drain_on-none (suc fuel) t missing) missing
  | inr ((raw, rest), found) ↦
      rw (drain_on-suc fuel t raw rest found)
        (drain_on-total fuel rest (omega (arith, length-cut t raw rest found)))
]

-- More fuel changes nothing.
drain_on-fuel : (f g : ℕ) (t : Text) → length t ≤ f → length t ≤ g → drain_on f t ≡ drain_on g t
drain_on-fuel zero g [] h k = drain_on-none zero [] cut-nil ∙ sym (drain_on-none g [] cut-nil)
drain_on-fuel zero g (c ∷ t) h k = elim h [ ]
drain_on-fuel (suc f) zero [] h k =
    drain_on-none (suc f) [] cut-nil ∙ sym (drain_on-none zero [] cut-nil)
drain_on-fuel (suc f) zero (c ∷ t) h k = elim k [ ]
drain_on-fuel (suc f) (suc g) t h k = elim (Option-cases (cut t)) [
  | inl missing ↦ drain_on-none (suc f) t missing ∙ sym (drain_on-none (suc g) t missing)
  | inr ((raw, rest), found) ↦
      let less = length-cut t raw rest found in
      drain_on-suc f t raw rest found
      ∙ ap (with_raw raw) (drain_on-fuel f g rest (omega (arith, less)) (omega (arith, less)))
      ∙ sym (drain_on-suc g t raw rest found)
]

-- The inner loop, one cut at a time.
pub drain-cut : (t raw rest : Text) → cut t ≡ some (raw, rest) → drain t ≡ with_raw raw (drain rest)
drain-cut [] raw rest h = absurd (ground (arith, cut-nil))
drain-cut (c ∷ t) raw rest h =
    drain_on-suc (length t) (c ∷ t) raw rest h
    ∙ ap (with_raw raw) (
        drain_on-fuel (length t) (length rest) rest (omega (arith, length-cut (c ∷ t) raw rest h))
          (omega arith))

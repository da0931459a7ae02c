-- ===== src/Sse/Buffer/Blocks.antt =====
-- Where the buffer is cut if it holds lines that are joined, and a blank line behind them.
use mathlib.Core.Option
use agentchat_take_home.Base.{
  ℕ, suc, ◌+◌, Text, List, [], ◌∷◌, ◌++◌, append_assoc, some, ◌≡◌, refl, ap, ◌∙◌, ◌≢◌, arith, All,
  length, length-append, nat_eq,
}
use agentchat_take_home.Sse.Lines.{join, index_of_blank}
use agentchat_take_home.Sse.Buffer.{with_raw, drain}
use agentchat_take_home.Sse.Buffer.Cut.{blank, cut-blank, drain-cut}
use agentchat_take_home.Sse.Frame.Print.{Without, join-push}

-- A line that is not empty.
abbrev pub IsFilled : Text → Type 0
IsFilled l = (l ≢ []) × Without b'\n' l

index_of_blank-cons :
    (c : ℕ) (s : Text) → c ≢ b'\n' → index_of_blank (c ∷ s) ≡ Option.map suc (index_of_blank s)
unfolding index_of_blank
index_of_blank-cons c [] h = refl
index_of_blank-cons c (d ∷ s) h = ground arith

index_of_blank-newline :
    (d : ℕ) (s : Text)
    → d ≢ b'\n'
    → index_of_blank (b'\n' ∷ d ∷ s) ≡ Option.map suc (index_of_blank (d ∷ s))
unfolding index_of_blank
index_of_blank-newline d s h = ground arith

index_of_blank-append_line :
    (l s : Text) (i : ℕ)
    → Without b'\n' l
    → index_of_blank s ≡ some i
    → index_of_blank (l ++ s) ≡ some (length l + i)
index_of_blank-append_line [] s i w h = h ∙ ap some (omega arith)
index_of_blank-append_line (c ∷ l) s i (p, w) h =
    index_of_blank-cons c (l ++ s) p
    ∙ ap (Option.map suc) (index_of_blank-append_line l s i w h)
    ∙ ap some (omega arith)

index_of_blank-blank : (x : Text) → index_of_blank (blank x) ≡ some 0
unfolding index_of_blank
index_of_blank-blank x = refl

join-cons : (l m : Text) (ls : List Text) → join (l ∷ m ∷ ls) ≡ l ++ (b'\n' ∷ join (m ∷ ls))
unfolding join
join-cons l m ls = refl

join_one : (l : Text) → join (l ∷ []) ≡ l
unfolding join
join_one l = refl

index_of_blank-next :
    (c i : ℕ) (m : Text) (ls : List Text) (x : Text)
    → c ≢ b'\n'
    → index_of_blank (join ((c ∷ m) ∷ ls) ++ blank x) ≡ some i
    → index_of_blank (b'\n' ∷ join ((c ∷ m) ∷ ls) ++ blank x) ≡ some (suc i)
index_of_blank-next c i m ls x p h =
    let parts = join-push c m ls in
    let from : index_of_blank (c ∷ join (m ∷ ls) ++ blank x) ≡ some i = rw parts at h in
    rw parts (index_of_blank-newline c (join (m ∷ ls) ++ blank x) p ∙ ap (Option.map suc) from)

-- The first blank line stands behind the lines.
index_of_blank-join :
    (l : Text) (ls : List Text) (x : Text)
    → All IsFilled (l ∷ ls)
    → index_of_blank (join (l ∷ ls) ++ blank x) ≡ some (length (join (l ∷ ls)))
index_of_blank-join l [] x ((_, w), h) =
    rw join_one
      (index_of_blank-append_line l (blank x) 0 w (index_of_blank-blank x) ∙ ap some (omega arith))
index_of_blank-join l ([] ∷ ls) x (_, ((p, _), _)) = absurd (p refl)
index_of_blank-join l ((c ∷ m) ∷ ls) x ((_, w), ((e, (p, v)), h)) =
    let rest = join ((c ∷ m) ∷ ls) in
    let near = index_of_blank-join (c ∷ m) ls x ((e, (p, v)), h) in
    ap index_of_blank
      (ap (λ t. t ++ blank x) (join-cons l (c ∷ m) ls) ∙ append_assoc l (b'\n' ∷ rest) (blank x))
    ∙ index_of_blank-append_line l (b'\n' ∷ rest ++ blank x) (suc (length rest)) w
        (index_of_blank-next c (length rest) m ls x p near)
    ∙ ap some (omega (arith, length-append l (b'\n' ∷ rest), ap length (join-cons l (c ∷ m) ls)))

-- The inner loop takes off lines with a blank line behind them as they were joined.
pub drain-join :
    (ls : List Text) (x : Text)
    → ls ≢ []
    → All IsFilled ls
    → drain (join ls ++ blank x) ≡ with_raw (join ls) (drain x)
drain-join [] x ne h = absurd (ne refl)
drain-join (l ∷ ls) x ne h =
    drain-cut _ (join (l ∷ ls)) x (cut-blank (join (l ∷ ls)) x (index_of_blank-join l ls x h))

-- ===== src/Sse/Frame/Print.antt =====
-- Frames as the server writes them, and texts split into lines and joined again.
use agentchat_take_home.Base.{
  Text, codes, ℕ, List, [], ◌∷◌, ◌++◌, map, Option, none, some, ◌≡◌, refl, sym, ap, ap₂, ◌∙◌, ◌≢◌,
  arith, All, All-append, ◌==◌, ==_false, nat_eq, nat_beq_iff, text_beq, Bool-cases, inl, inr, true,
  false,
}
use agentchat_take_home.Types.Event.{
  SseEventType, message_start, message_append, message_end, message_abort, agent_joined, agent_left,
  event_name, event_of,
}
use agentchat_take_home.Sse.Lines.{normalize, split, join, push}

-- A code unit that does not occur in a text.
abbrev pub Without : ℕ → Text → Type 0
Without c = All (λ d. d ≢ c)

-- The line of an id, if the server writes one.
abbrev pub id_lines : Option Text → List Text
id_lines none = []
id_lines (some id) = (codes "id: " ++ id) ∷ []

-- The lines of a frame: comments, the id, the event, and a line for each line of the payload.
abbrev pub frame_lines : List Text → Option Text → Text → Text → List Text
frame_lines comments id name payload =
    map (◌∷◌ b':') comments
    ++ (id_lines id ++ ((codes "event: " ++ name) ∷ map (◌++◌ (codes "data: ")) (split payload)))

abbrev pub print_frame : List Text → Option Text → Text → Text → Text
print_frame comments id name payload = join (frame_lines comments id name payload)

pub event_of-event_name : (e : SseEventType) → event_of (event_name e) ≡ some e
unfolding event_of text_beq
event_of-event_name message_start = refl
event_of-event_name message_append = refl
event_of-event_name message_end = refl
event_of-event_name message_abort = refl
event_of-event_name agent_joined = refl
event_of-event_name agent_left = refl

pub normalize_of_Without : (s : Text) → Without b'\r' s → normalize s ≡ s
unfolding normalize
normalize_of_Without [] h = refl
normalize_of_Without (c ∷ []) h = refl
normalize_of_Without (c ∷ d ∷ s) (p, h) = ground (arith, normalize_of_Without (d ∷ s) h)

pub split-append : (l s : Text) → Without b'\n' l → split (l ++ (b'\n' ∷ s)) ≡ l ∷ split s
unfolding split
split-append [] s h = refl
split-append (c ∷ l) s (p, h) = rw (==_false c b'\n' p, split-append l s h)

split_of_Without : (l : Text) → Without b'\n' l → split l ≡ l ∷ []
unfolding split
split_of_Without [] h = refl
split_of_Without (c ∷ l) (p, h) = rw (==_false c b'\n' p, split_of_Without l h)

pub split-join :
    (l : Text) (ls : List Text) → All (Without b'\n') (l ∷ ls) → split (join (l ∷ ls)) ≡ l ∷ ls
unfolding join
split-join l [] (p, h) = split_of_Without l p
split-join l (m ∷ ls) (p, h) = split-append l _ p ∙ ap (◌∷◌ l) (split-join m ls h)

pub join-push : (c : ℕ) (l : Text) (ls : List Text) → join (push c (l ∷ ls)) ≡ c ∷ join (l ∷ ls)
unfolding join
join-push c l [] = refl
join-push c l (m ∷ ls) = refl

-- `split` gives at least one part.
pub split-cons : (s : Text) → (l : Text) × (ls : List Text) × (split s ≡ l ∷ ls)
unfolding split
split-cons [] = ([], [], refl)
split-cons (c ∷ s) =
    let (l, ls, e) = split-cons s in
    elim (Bool-cases (c == b'\n')) [
      | inl same ↦ ([], split s, rw same)
      | inr other ↦ (c ∷ l, ls, rw other (ap (push c) e))
    ]

join-split_newline : (s : Text) → join ([] ∷ split s) ≡ b'\n' ∷ join (split s)
unfolding join
join-split_newline s = let (l, ls, e) = split-cons s in rw e

join-split-push : (c : ℕ) (s : Text) → join (push c (split s)) ≡ c ∷ join (split s)
join-split-push c s = let (l, ls, e) = split-cons s in rw e (join-push c l ls)

split_newline : (c : ℕ) (s : Text) → (c == b'\n') ≡ true → split (c ∷ s) ≡ [] ∷ split s
unfolding split
split_newline c s h = rw h

split-push : (c : ℕ) (s : Text) → (c == b'\n') ≡ false → split (c ∷ s) ≡ push c (split s)
unfolding split
split-push c s h = rw h

pub join-split : (s : Text) → join (split s) ≡ s
join-split [] = unfold join split in refl
join-split (c ∷ s) = elim (Bool-cases (c == b'\n')) [
  | inl same ↦
      ap join (split_newline c s same)
      ∙ join-split_newline s
      ∙ ap₂ ◌∷◌ (sym ((nat_beq_iff c b'\n').0 same)) (join-split s)
  | inr other ↦ ap join (split-push c s other) ∙ join-split-push c s ∙ ap (◌∷◌ c) (join-split s)
]

-- A text with no line break of either kind.
abbrev pub IsLine : Text → Type 0
IsLine s = Without b'\n' s × Without b'\r' s

All-push : (c : ℕ) (ls : List Text) → c ≢ b'\n' → c ≢ b'\r' → All IsLine ls → All IsLine (push c ls)
All-push c [] p q h = (((p, tt), (q, tt)), tt)
All-push c (l ∷ ls) p q ((a, b), h) = (((p, a), (q, b)), h)

pub split-IsLine : (s : Text) → Without b'\r' s → All IsLine (split s)
unfolding split
split-IsLine [] h = ((tt, tt), tt)
split-IsLine (c ∷ s) (p, h) = elim (Bool-cases (c == b'\n')) [
  | inl same ↦ rw same ((tt, tt), split-IsLine s h)
  | inr other ↦ rw other (All-push c (split s) (ground arith) p (split-IsLine s h))
]

pub All-newline : (ls : List Text) → All IsLine ls → All (Without b'\n') ls
All-newline [] h = tt
All-newline (l ∷ ls) ((a, b), h) = (a, All-newline ls h)

pub join-Without : (ls : List Text) → All IsLine ls → Without b'\r' (join ls)
unfolding join
join-Without [] h = tt
join-Without (l ∷ []) ((a, b), h) = b
join-Without (l ∷ m ∷ ls) ((a, b), h) =
    All-append (λ d. d ≢ b'\r') l _ b (omega arith, join-Without (m ∷ ls) h)

pub append-IsLine : (s t : Text) → IsLine s → IsLine t → IsLine (s ++ t)
append-IsLine s t (a, b) (c, d) =
    (All-append (λ u. u ≢ b'\n') s t a c, All-append (λ u. u ≢ b'\r') s t b d)

pub comments-IsLine : (ls : List Text) → All IsLine ls → All IsLine (map (◌∷◌ b':') ls)
comments-IsLine [] h = tt
comments-IsLine (l ∷ ls) (p, h) =
    (append-IsLine (b':' ∷ []) l (omega arith) p, comments-IsLine ls h)

pub data-IsLine : (ls : List Text) → All IsLine ls → All IsLine (map (◌++◌ (codes "data: ")) ls)
data-IsLine [] h = tt
data-IsLine (l ∷ ls) (p, h) = (append-IsLine (codes "data: ") l (omega arith) p, data-IsLine ls h)

pub event_name-IsLine : (e : SseEventType) → IsLine (event_name e)
event_name-IsLine message_start = omega arith
event_name-IsLine message_append = omega arith
event_name-IsLine message_end = omega arith
event_name-IsLine message_abort = omega arith
event_name-IsLine agent_joined = omega arith
event_name-IsLine agent_left = omega arith

pub append-ne : (a b : List Text) → b ≢ [] → a ++ b ≢ []
append-ne [] b h = h
append-ne (l ∷ a) b h = λ e. cc

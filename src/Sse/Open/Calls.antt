-- ===== src/Sse/Open/Calls.antt =====
-- The calls of `onFrame` in `openConversationStream`: which one throws, and what is behind it.
use agentchat_take_home.Base.{
  ℕ, suc, text_eq, Bool, true, false, List, [], ◌∷◌, ◌++◌, append-nil, Option, none, some, ◌≡◌,
  refl, subst, Option-cases, inl, inr, ap, ◌∙◌, sym, arith, All, All-append,
}
use agentchat_take_home.Types.Event.{SseFrame}
use agentchat_take_home.Sse.Open.{
  Callback, on_open, on_frame, on_error, Handled, returned, thrown, handle_frame, Delivered, went,
  threw, before, and_then, continue, StreamRun, deliver,
}
use agentchat_take_home.Sse.Open.Delivery.{event_name-ne-error}

-- How many times `onError` runs.
abbrev pub errors : List Callback → ℕ
errors [] = 0
errors (on_error e ∷ cs) = suc (errors cs)
errors (on_open ∷ cs) = errors cs
errors (on_frame f ∷ cs) = errors cs

-- The first call of `onFrame` that throws, where it is called with these frames, and whether it
-- throws an abort.
abbrev pub first_thrown : List SseFrame → List Handled → Option Bool
first_thrown [] handled = none
first_thrown (f ∷ fs) [] = none
first_thrown (f ∷ fs) (returned ∷ handled) = first_thrown fs handled
first_thrown (f ∷ fs) (thrown aborted ∷ handled) = some aborted

-- Behind a call that throws nothing of the reader counts.
abbrev pub thrown_errors : Option Bool → ℕ → ℕ
thrown_errors none n = n
thrown_errors (some true) n = 0
thrown_errors (some false) n = 1

abbrev pub IsFrame : Callback → Type 0
IsFrame (on_frame f) = Unit
IsFrame _ = ⊥

errors-append : (a b : List Callback) → All IsFrame a → errors (a ++ b) ≡ errors b
errors-append [] b h = refl
errors-append (on_frame f ∷ a) b (p, h) = errors-append a b h
errors-append (on_open ∷ a) b (p, h) = absurd p
errors-append (on_error e ∷ a) b (p, h) = absurd p

errors-frames : (a : List Callback) → All IsFrame a → errors a ≡ 0
errors-frames a h = ap errors (sym (append-nil a)) ∙ errors-append a [] h

-- The calls that are still to come behind those with these frames.
abbrev pub rest_of : List SseFrame → List Handled → List Handled
rest_of [] handled = handled
rest_of (f ∷ fs) [] = []
rest_of (f ∷ fs) (h ∷ handled) = rest_of fs handled

-- What the calls with these frames do.
abbrev pub OnCalls : List SseFrame → List Handled → Delivered → Type 0
OnCalls fs handled (went cs rest) =
    All IsFrame cs × (first_thrown fs handled ≡ none) × (rest ≡ rest_of fs handled)
OnCalls fs handled (threw cs aborted) = All IsFrame cs × (first_thrown fs handled ≡ some aborted)

handle_frame-OnCalls :
    (f : SseFrame) (handled : List Handled) → OnCalls (f ∷ []) handled (handle_frame f handled)
handle_frame-OnCalls f [] = ((tt, tt), refl, refl)
handle_frame-OnCalls f (returned ∷ handled) = ((tt, tt), refl, refl)
handle_frame-OnCalls f (thrown aborted ∷ handled) = ((tt, tt), refl)

abbrev pub frame_of : Option SseFrame → List SseFrame
frame_of none = []
frame_of (some f) = f ∷ []

pub deliver-OnCalls :
    (o : Option SseFrame) (handled : List Handled)
    → OnCalls (frame_of o) handled (deliver o handled)
unfolding deliver
deliver-OnCalls none handled = (tt, refl, refl)
deliver-OnCalls (some f) handled = rw (event_name-ne-error f.event) (handle_frame-OnCalls f handled)

first_thrown_nil : (fs : List SseFrame) → first_thrown fs [] ≡ none
first_thrown_nil [] = refl
first_thrown_nil (f ∷ fs) = refl

first_thrown-append :
    (fs gs : List SseFrame) (handled : List Handled)
    → first_thrown fs handled ≡ none
    → first_thrown (fs ++ gs) handled ≡ first_thrown gs (rest_of fs handled)
first_thrown-append [] gs handled h = refl
first_thrown-append (f ∷ fs) gs [] h = sym (first_thrown_nil gs)
first_thrown-append (f ∷ fs) gs (returned ∷ handled) h = first_thrown-append fs gs handled h
first_thrown-append (f ∷ fs) gs (thrown aborted ∷ handled) h = ground arith

rest_of_nil : (fs : List SseFrame) → rest_of fs [] ≡ []
rest_of_nil [] = refl
rest_of_nil (f ∷ fs) = refl

rest_of-append :
    (fs gs : List SseFrame) (handled : List Handled)
    → rest_of (fs ++ gs) handled ≡ rest_of gs (rest_of fs handled)
rest_of-append [] gs handled = refl
rest_of-append (f ∷ fs) gs [] = sym (rest_of_nil gs)
rest_of-append (f ∷ fs) gs (h ∷ handled) = rest_of-append fs gs handled

first_thrown_stop :
    (fs gs : List SseFrame) (handled : List Handled) (aborted : Bool)
    → first_thrown fs handled ≡ some aborted
    → first_thrown (fs ++ gs) handled ≡ some aborted
first_thrown_stop [] gs handled aborted h = ground arith
first_thrown_stop (f ∷ fs) gs [] aborted h = ground arith
first_thrown_stop (f ∷ fs) gs (returned ∷ handled) aborted h =
    first_thrown_stop fs gs handled aborted h
first_thrown_stop (f ∷ fs) gs (thrown a ∷ handled) aborted h = h

before-OnCalls :
    (fs gs : List SseFrame) (handled : List Handled) (cs : List Callback) (d : Delivered)
    → All IsFrame cs
    → first_thrown fs handled ≡ none
    → OnCalls gs (rest_of fs handled) d
    → OnCalls (fs ++ gs) handled (before cs d)
before-OnCalls fs gs handled cs (went ds rest) p h (q, k, e) = (
  All-append IsFrame cs ds p q,
  first_thrown-append fs gs handled h ∙ k,
  e ∙ sym (rest_of-append fs gs handled),
)
before-OnCalls fs gs handled cs (threw ds aborted) p h (q, k) =
    (All-append IsFrame cs ds p q, first_thrown-append fs gs handled h ∙ k)

pub and_then-OnCalls :
    (fs gs : List SseFrame) (handled : List Handled) (d : Delivered) (k : List Handled → Delivered)
    → OnCalls fs handled d
    → ((rest : List Handled) → OnCalls gs rest (k rest))
    → OnCalls (fs ++ gs) handled (and_then d k)
and_then-OnCalls fs gs handled (went cs rest) k (p, h, e) later =
    before-OnCalls fs gs handled cs (k rest) p h (subst (λ r. OnCalls gs r (k rest)) e (later rest))
and_then-OnCalls fs gs handled (threw cs aborted) k (p, h) later =
    (p, first_thrown_stop fs gs handled aborted h)

-- What is behind the calls counts where none of them throws.
pub errors-continue :
    (fs : List SseFrame) (handled : List Handled) (d : Delivered) (k : List Handled → StreamRun)
    → OnCalls fs handled d
    → errors (continue d k).callbacks
      ≡ thrown_errors (first_thrown fs handled) (errors (k (rest_of fs handled)).callbacks)
errors-continue fs handled (went cs rest) k (p, h, e) =
    errors-append cs (k rest).callbacks p
    ∙ ap (λ r. errors (k r).callbacks) e
    ∙ sym (ap (λ o. thrown_errors o (errors (k (rest_of fs handled)).callbacks)) h)
errors-continue fs handled (threw cs true) k (p, h) =
    errors-frames cs p
    ∙ sym (ap (λ o. thrown_errors o (errors (k (rest_of fs handled)).callbacks)) h)
errors-continue fs handled (threw cs false) k (p, h) =
    errors-append cs _ p
    ∙ sym (ap (λ o. thrown_errors o (errors (k (rest_of fs handled)).callbacks)) h)

pub thrown_errors-append :
    (fs gs : List SseFrame) (handled : List Handled) (n : ℕ)
    → thrown_errors (first_thrown (fs ++ gs) handled) n
      ≡ thrown_errors
          (first_thrown fs handled)
          (thrown_errors (first_thrown gs (rest_of fs handled)) n)
thrown_errors-append fs gs handled n =
    let later = thrown_errors (first_thrown gs (rest_of fs handled)) n in
    elim (Option-cases (first_thrown fs handled)) [
      | inl fine ↦
          ap (λ o. thrown_errors o n) (first_thrown-append fs gs handled fine)
          ∙ sym (ap (λ o. thrown_errors o later) fine)
      | inr (true, stopped) ↦
          ap (λ o. thrown_errors o n) (first_thrown_stop fs gs handled true stopped)
          ∙ sym (ap (λ o. thrown_errors o later) stopped)
      | inr (false, stopped) ↦
          ap (λ o. thrown_errors o n) (first_thrown_stop fs gs handled false stopped)
          ∙ sym (ap (λ o. thrown_errors o later) stopped)
    ]

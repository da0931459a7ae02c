-- ===== src/App/Agents/Known.antt =====
-- Every agent that the components need is there, once.
use agentchat_take_home.Base.{
  Text, Bool, true, false, not, List, [], ◌∷◌, ◌++◌, map, Option, ◌==◌, ==_refl, text_eq, text_beq,
  text_beq_iff, if-both, any, select, ◌≡◌, refl, ap, arith, All, Bool-cases, inl, inr,
}
use agentchat_take_home.Types.Ui.{Date, Agent, Message, SystemEvent, Conversation}
use agentchat_take_home.Types.Adapters.{synth_agent}
use agentchat_take_home.App.Heads.{add}
use agentchat_take_home.App.Agents.{
  add_all, add_truthy, add_truthy_all, members, agent_ids, agent_of, agents,
}

abbrev pub has_id : Text → List Text → Bool
has_id k ids = any (λ i. i == k) ids

has_id-append : (k : Text) (xs ys : List Text) → has_id k xs ≡ true → has_id k (xs ++ ys) ≡ true
has_id-append k [] ys h = ground arith
has_id-append k (x ∷ xs) ys h = ground (arith, has_id-append k xs ys)

has_id-append_last : (k : Text) (xs : List Text) → has_id k (xs ++ k ∷ []) ≡ true
has_id-append_last k [] = rw (==_refl k)
has_id-append_last k (x ∷ xs) = ground (arith, has_id-append_last k xs)

add-in : (k : Text) (ids : List Text) → has_id k (add k ids) ≡ true
add-in k ids =
    if-both (λ l. has_id k l ≡ true) (has_id k ids) (λ h. h) (λ _. has_id-append_last k ids)

add-keeps : (k j : Text) (ids : List Text) → has_id k ids ≡ true → has_id k (add j ids) ≡ true
add-keeps k j ids h =
    if-both (λ l. has_id k l ≡ true) (has_id j ids) (λ _. h) (λ _. has_id-append k ids (j ∷ []) h)

add_truthy-keeps :
    (k j : Text) (ids : List Text) → has_id k ids ≡ true → has_id k (add_truthy j ids) ≡ true
add_truthy-keeps k [] ids h = h
add_truthy-keeps k (c ∷ t) ids h = add-keeps k (c ∷ t) ids h

add_truthy_all-keeps :
    (k : Text) (more ids : List Text)
    → has_id k ids ≡ true
    → has_id k (add_truthy_all more ids) ≡ true
add_truthy_all-keeps k [] ids h = h
add_truthy_all-keeps k (j ∷ more) ids h =
    add_truthy_all-keeps k more (add_truthy j ids) (add_truthy-keeps k j ids h)

add_truthy-in :
    (k : Text) (ids : List Text) → (k == []) ≡ false → has_id k (add_truthy k ids) ≡ true
unfolding text_beq
add_truthy-in [] ids h = ground arith
add_truthy-in (c ∷ t) ids h = add-in (c ∷ t) ids

add_truthy_all-in :
    {A : Type 0} (key : A → Text) (more : List A) (ids : List Text)
    → All
        (λ a. has_id (key a) (add_truthy_all (map key more) ids) ≡ true)
        (select (λ a. not (key a == [])) more)
add_truthy_all-in key [] ids = tt
add_truthy_all-in key (a ∷ more) ids = elim (Bool-cases (key a == [])) [
  | inl empty ↦ rw empty (add_truthy_all-in key more (add_truthy (key a) ids))
  | inr full ↦ rw full (
    add_truthy_all-keeps (key a) (map key more) (add_truthy (key a) ids)
        (add_truthy-in (key a) ids full),
    add_truthy_all-in key more (add_truthy (key a) ids),
  )
]

add_all-in :
    (more ids : List Text) (k : Text) → has_id k ids ≡ true → has_id k (add_all more ids) ≡ true
add_all-in [] ids k h = h
add_all-in (j ∷ more) ids k h = add_all-in more (add j ids) k (add-keeps k j ids h)

add_all-members : (more ids : List Text) → All (λ k. has_id k (add_all more ids) ≡ true) more
add_all-members [] ids = tt
add_all-members (j ∷ more) ids =
    (add_all-in more (add j ids) j (add-in j ids), add_all-members more (add j ids))

-- No id stands twice.
abbrev pub IsUnique : List Text → Type 0
IsUnique [] = Unit
IsUnique (k ∷ ids) = (has_id k ids ≡ false) × IsUnique ids

has_id-append_none :
    (j : Text) (ids : List Text) (k : Text)
    → has_id j ids ≡ false
    → (k == j) ≡ false
    → has_id j (ids ++ k ∷ []) ≡ false
has_id-append_none j [] k h n = ground arith
has_id-append_none j (i ∷ ids) k h n = ground (arith, has_id-append_none j ids k)

==_flip : (k j : Text) → (j == k) ≡ false → (k == j) ≡ false
==_flip k j h = ground (arith, text_beq_iff k j, text_beq_iff j k)

IsUnique-append_last :
    (k : Text) (ids : List Text) → IsUnique ids → has_id k ids ≡ false → IsUnique (ids ++ k ∷ [])
IsUnique-append_last k [] u h = (refl, tt)
IsUnique-append_last k (j ∷ ids) (f, u) h = (
  has_id-append_none j ids k f (==_flip k j (ground (arith, h))),
  IsUnique-append_last k ids u (ground (arith, h)),
)

add-IsUnique : (k : Text) (ids : List Text) → IsUnique ids → IsUnique (add k ids)
add-IsUnique k ids u =
    if-both IsUnique (has_id k ids) (λ _. u) (λ h. IsUnique-append_last k ids u h)

add_all-IsUnique : (more ids : List Text) → IsUnique ids → IsUnique (add_all more ids)
add_all-IsUnique [] ids u = u
add_all-IsUnique (k ∷ more) ids u = add_all-IsUnique more (add k ids) (add-IsUnique k ids u)

add_truthy_all-IsUnique : (more ids : List Text) → IsUnique ids → IsUnique (add_truthy_all more ids)
add_truthy_all-IsUnique [] ids u = u
add_truthy_all-IsUnique ([] ∷ more) ids u = add_truthy_all-IsUnique more ids u
add_truthy_all-IsUnique ((c ∷ t) ∷ more) ids u =
    add_truthy_all-IsUnique more (add (c ∷ t) ids) (add-IsUnique (c ∷ t) ids u)

All-keeps {ℓ} :
    {A : Type ℓ} (key : A → Text) (more ids : List Text) (xs : List A)
    → All (λ a. has_id (key a) ids ≡ true) xs
    → All (λ a. has_id (key a) (add_truthy_all more ids) ≡ true) xs
All-keeps key more ids [] h = tt
All-keeps key more ids (a ∷ xs) (p, h) =
    (add_truthy_all-keeps (key a) more ids p, All-keeps key more ids xs h)

module _ (now : Date) (resident my_agent_id : Option Text) (live : List Message) where
  ids-agent_of :
      (ids : List Text)
      → map (λ (a : Agent). a.id) (map (agent_of now resident my_agent_id live) ids) ≡ ids
  unfolding synth_agent
  ids-agent_of [] = refl
  ids-agent_of (id ∷ ids) = ap (◌∷◌ id) (ids-agent_of ids)

  -- The components get each agent once: the members of the conversation that is shown, the author
  -- of every message and the agent of every system event, where its id is not empty.
  pub agents_lem :
      (active : Option Conversation) (messages : List Message) (events : List SystemEvent)
      → let ids =
          map (λ (a : Agent). a.id) (agents now resident my_agent_id active messages live events) in
        IsUnique ids
        × All (λ k. has_id k ids ≡ true) (members active)
        × All
            (λ (m : Message). has_id m.agent_id ids ≡ true)
            (select (λ (m : Message). not (m.agent_id == [])) messages)
        × All
            (λ (e : SystemEvent). has_id e.agent_id ids ≡ true)
            (select (λ (e : SystemEvent). not (e.agent_id == [])) events)
  unfolding agents
  agents_lem active messages events =
      let authors = map (λ (m : Message). m.agent_id) messages in
      let subjects = map (λ (e : SystemEvent). e.agent_id) events in
      let first = add_all (members active) [] in
      let second = add_truthy_all authors first in
      rw (ids-agent_of (agent_ids active messages events)) (
        add_truthy_all-IsUnique subjects second
            (add_truthy_all-IsUnique authors first (add_all-IsUnique (members active) [] tt)),
        All-keeps (λ k. k) subjects second (members active)
            (All-keeps (λ k. k) authors first (members active)
              (add_all-members (members active) [])),
        All-keeps (λ (m : Message). m.agent_id) subjects second _
            (add_truthy_all-in (λ (m : Message). m.agent_id) messages first),
        add_truthy_all-in (λ (e : SystemEvent). e.agent_id) events second,
      )

-- ===== src/AgentId/Overlap/Requests.antt =====
-- Calls of `ensureAgentId` that overlap send no request once one of them has an identity.
use agentchat_take_home.Base.{
  ℕ, Text, Bool, true, false, ◌||◌, List, [], ◌∷◌, ◌++◌, Option, none, some, ◌≡◌, refl, sym, subst,
  ap, ◌∙◌, ◌⊎◌, inl, inr, arith, any, if-both, text_beq, codes,
}
use agentchat_take_home.Types.Json.{Json, string, null, boolean, number, array, object, property}
use agentchat_take_home.AgentId.{
  Storage, Fetched, Bootstrap, BootstrapError, identified, refused, network, failed, invalid_body,
  missing_agent_id, ok, get_agent_id, set_agent_id, read_id, read_body, bootstrap,
}
use agentchat_take_home.AgentId.Overlap.{
  Run, waiting, settled, Calls, no_calls, begin_from, begin, answer, IsTextAnswer, IsTextId,
  IsTextBody, Step, begins, answers, Steps, here, next,
}

abbrev pub is_identified : Run → Bool
is_identified (settled (identified id)) = true
is_identified _ = false

-- The storage holds an identity that is not empty.
abbrev IsStored : Storage → Type 0
IsStored s = (x : ℕ) × (id : Text) × (get_agent_id s ≡ some (x ∷ id))

-- The storage works, and it holds an identity if any call has one.
record IsKnown (c : Calls) : Type 0 where
  can_read : c.storage.can_read ≡ true
  can_write : c.storage.can_write ≡ true
  known : any is_identified c.runs ≡ true → IsStored c.storage

-- The storage works and holds an identity.
abbrev pub IsReady : Storage → Type 0
IsReady s = (s.can_read ≡ true) × (s.can_write ≡ true) × IsStored s

begin_from-storage : (o : Option Text) (c : Calls) → (begin_from o c).storage ≡ c.storage
begin_from-storage none c = refl
begin_from-storage (some []) c = refl
begin_from-storage (some (x ∷ id)) c = refl

any-append {ℓ} :
    {A : Type ℓ} (p : A → Bool) (xs : List A) (y : A)
    → p y ≡ false
    → any p (xs ++ y ∷ []) ≡ any p xs
any-append p [] y h = rw h refl
any-append p (x ∷ xs) y h = ap (◌||◌ (p x)) (any-append p xs y h)

any-swap {ℓ} :
    {A : Type ℓ} (p : A → Bool) (before : List A) (y z : A) (after : List A)
    → p y ≡ p z
    → any p (before ++ y ∷ after) ≡ any p (before ++ z ∷ after)
any-swap p [] y z after h = ap (λ b. b || any p after) h
any-swap p (x ∷ before) y z after h = ap (◌||◌ (p x)) (any-swap p before y z after h)

-- How the rest of a call may end: with an identity that is stored, or with the storage as it was.
abbrev Ends : Storage → Bootstrap → Type 0
Ends s b = IsReady b.storage ⊎ ((b.storage ≡ s) × (is_identified (settled b.settled) ≡ false))

refused-Ends : (e : BootstrapError) (s : Storage) → Ends s (refused e s)
refused-Ends e s = inr (refl, refl)

set_agent_id-IsStored :
    (x : ℕ) (id : Text) (s : Storage)
    → s.can_read ≡ true
    → s.can_write ≡ true
    → let t = set_agent_id (x ∷ id) s in
      (t.can_read ≡ true) × (t.can_write ≡ true) × (get_agent_id t ≡ some (x ∷ id))
unfolding set_agent_id get_agent_id
set_agent_id-IsStored x id s r w = ground arith

module _ (show : Json → Text) (shown : (t : Text) → show (string t) ≡ t) where
  read_id-text :
      (x : ℕ) (t : Text) (s : Storage)
      → read_id show (some (string (x ∷ t))) s
        ≡ record { requests = 1; settled = identified (x ∷ t); storage = set_agent_id (x ∷ t) s }
  unfolding text_beq
  read_id-text x t s =
      ap (λ u. record { requests = 1; settled = identified u; storage = set_agent_id u s })
        (shown (x ∷ t))

  read_id-Ends :
      (o : Option Json) (s : Storage)
      → IsTextId o
      → s.can_read ≡ true
      → s.can_write ≡ true
      → Ends s (read_id show o s)
  unfolding text_beq
  read_id-Ends none s h r w = refused-Ends missing_agent_id s
  read_id-Ends (some null) s h r w = refused-Ends missing_agent_id s
  read_id-Ends (some (string [])) s h r w = refused-Ends missing_agent_id s
  read_id-Ends (some (string (x ∷ t))) s h r w =
      let (a, b, c) = set_agent_id-IsStored x t s r w in
      subst (Ends s) (sym (read_id-text x t s)) (inl (a, b, (x, t, c)))
  read_id-Ends (some (boolean _)) s h r w = absurd h
  read_id-Ends (some (number _)) s h r w = absurd h
  read_id-Ends (some (array _)) s h r w = absurd h
  read_id-Ends (some (object _)) s h r w = absurd h

  read_body-Ends :
      (o : Option Json) (s : Storage)
      → IsTextBody o
      → s.can_read ≡ true
      → s.can_write ≡ true
      → Ends s (read_body show o s)
  read_body-Ends none s h r w = refused-Ends invalid_body s
  read_body-Ends (some body) s h r w = read_id-Ends (property (codes "agent_id") body) s h r w

  bootstrap-Ends :
      (fetched : Fetched) (s : Storage)
      → IsTextAnswer fetched
      → s.can_read ≡ true
      → s.can_write ≡ true
      → Ends s (bootstrap show fetched s)
  bootstrap-Ends none s h r w = refused-Ends network s
  bootstrap-Ends (some a) s h r w =
      if-both (Ends s) (ok a) (λ _. read_body-Ends a.json s h r w)
        (λ _. refused-Ends (failed a.status) s)

  begin_from-IsKnown :
      (o : Option Text) (c : Calls)
      → get_agent_id c.storage ≡ o
      → IsKnown c
      → IsKnown (begin_from o c)
  begin_from-IsKnown none c e k = record {
    can_read = k.can_read;
    can_write = k.can_write;
    known = λ h. k.known (sym (any-append is_identified c.runs waiting refl) ∙ h);
  }
  begin_from-IsKnown (some []) c e k = record {
    can_read = k.can_read;
    can_write = k.can_write;
    known = λ h. k.known (sym (any-append is_identified c.runs waiting refl) ∙ h);
  }
  begin_from-IsKnown (some (x ∷ id)) c e k = record {
    can_read = k.can_read;
    can_write = k.can_write;
    known = λ h. (x, id, e);
  }

  answered-IsKnown :
      (c : Calls) (before after : List Run) (b : Bootstrap)
      → c.runs ≡ before ++ waiting ∷ after
      → IsKnown c
      → Ends c.storage b
      → IsKnown (record c { storage = b.storage; runs = before ++ settled b.settled ∷ after })
  answered-IsKnown c before after b e k (inl (r, w, stored)) = record {
    can_read = r;
    can_write = w;
    known = λ h. stored;
  }
  answered-IsKnown c before after b e k (inr (same, refusal)) = record {
    can_read = ap (λ (s : Storage). s.can_read) same ∙ k.can_read;
    can_write = ap (λ (s : Storage). s.can_write) same ∙ k.can_write;
    known = λ h. subst IsStored (sym same) (
        k.known (
          ap (any is_identified) e
          ∙ any-swap is_identified before waiting (settled b.settled) after (sym refusal)
          ∙ h));
  }

  Step-IsKnown : {c d : Calls} → Step show c d → IsKnown c → IsKnown d
  unfolding begin answer
  Step-IsKnown {c} begins k = begin_from-IsKnown (get_agent_id c.storage) c refl k
  Step-IsKnown {c} (answers fetched before after text e) k =
      answered-IsKnown c before after (bootstrap show fetched c.storage) e k
        (bootstrap-Ends fetched c.storage text k.can_read k.can_write)

  Steps-IsKnown : {c d : Calls} → Steps show c d → IsKnown c → IsKnown d
  Steps-IsKnown here k = k
  Steps-IsKnown (next path step) k = Step-IsKnown step (Steps-IsKnown path k)

  Step-IsReady : {c d : Calls} → Step show c d → IsReady c.storage → IsReady d.storage
  unfolding begin answer
  Step-IsReady {c} begins k = subst IsReady (sym (begin_from-storage (get_agent_id c.storage) c)) k
  Step-IsReady {c} (answers fetched before after text e) (r, w, stored) =
      go (bootstrap-Ends fetched c.storage text r w)
    where
      go :
          Ends c.storage (bootstrap show fetched c.storage)
          → IsReady (bootstrap show fetched c.storage).storage
      go (inl ready) = ready
      go (inr (same, refusal)) = subst IsReady (sym same) (r, w, stored)

  Step-requests : {c d : Calls} → Step show c d → IsReady c.storage → d.requests ≡ c.requests
  unfolding begin answer
  Step-requests {c} begins (r, w, (x, id, e)) = ap (λ o. (begin_from o c).requests) e
  Step-requests {c} (answers fetched before after text e) k = refl

  Steps-requests :
      {c d : Calls}
      → Steps show c d
      → IsReady c.storage
      → (d.requests ≡ c.requests) × IsReady d.storage
  Steps-requests here k = (refl, k)
  Steps-requests (next path step) k =
      let (same, ready) = Steps-requests path k in
      (Step-requests step ready ∙ same, Step-IsReady step ready)

  -- Calls of `ensureAgentId` that overlap in any way, on a storage that works, where the ids that
  -- the server answers are strings, and `String` leaves a string as it is: once one of the calls
  -- has an identity, no call sends a request any more, and the storage keeps holding an identity.
  pub Steps-once :
      (s : Storage) {c d : Calls}
      → s.can_read ≡ true
      → s.can_write ≡ true
      → Steps show (no_calls s) c
      → any is_identified c.runs ≡ true
      → Steps show c d
      → (d.requests ≡ c.requests) × IsReady d.storage
  Steps-once s {c} r w path found more =
      let k =
        Steps-IsKnown path (record { can_read = r; can_write = w; known = λ h. ground arith }) in
      Steps-requests more (k.can_read, k.can_write, k.known found)

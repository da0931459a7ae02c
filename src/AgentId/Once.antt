-- ===== src/AgentId/Once.antt =====
-- `ensureAgentId` asks for an identity until it has one.
use agentchat_take_home.Base.{
  ℕ, Text, List, [], ◌∷◌, Option, none, some, true, ◌≡◌, refl, arith, All, ap, sym, subst,
}
use agentchat_take_home.Types.Json.{Json}
use agentchat_take_home.AgentId.{
  Storage, Fetched, Bootstrap, identified, get_agent_id, set_agent_id, ensure_agent_id, ensure_all,
  ensure_from, bootstrap,
}

module _ (show : Json → Text) where
  bootstrap-stored :
      (fetched : Fetched) (s : Storage) (id : Text)
      → s.can_read ≡ true
      → s.can_write ≡ true
      → (bootstrap show fetched s).settled ≡ identified id
      → get_agent_id (bootstrap show fetched s).storage ≡ some id
  unfolding get_agent_id set_agent_id
  bootstrap-stored fetched s id r w h = ground arith

  ensure_agent_id-known :
      (fetched : Fetched) (s : Storage) (c : ℕ) (id : Text)
      → get_agent_id s ≡ some (c ∷ id)
      → ensure_agent_id show fetched s
        ≡ record { requests = 0; settled = identified (c ∷ id); storage = s }
  unfolding ensure_agent_id
  ensure_agent_id-known fetched s c id h = ap (λ o. ensure_from show o fetched s) h

  ensure_from-stored :
      (o : Option Text) (fetched : Fetched) (s : Storage) (id : Text)
      → get_agent_id s ≡ o
      → s.can_read ≡ true
      → s.can_write ≡ true
      → (ensure_from show o fetched s).settled ≡ identified id
      → get_agent_id (ensure_from show o fetched s).storage ≡ some id
  ensure_from-stored none fetched s id p r w h = bootstrap-stored fetched s id r w h
  ensure_from-stored (some []) fetched s id p r w h = bootstrap-stored fetched s id r w h
  ensure_from-stored (some (c ∷ t)) fetched s id p r w h = ground (arith, p)

  known-always :
      (answers : List Fetched) (s : Storage) (c : ℕ) (id : Text)
      → get_agent_id s ≡ some (c ∷ id)
      → All (λ b. (b.requests ≡ 0) × (b.settled ≡ identified (c ∷ id))) (ensure_all show answers s)
  known-always [] s c id h = tt
  known-always (fetched ∷ answers) s c id h =
      let e = ensure_agent_id-known fetched s c id h in
      (
        (ap (λ (b : Bootstrap). b.requests) e, ap (λ (b : Bootstrap). b.settled) e),
        subst
            (λ (b : Bootstrap).
              All (λ b. (b.requests ≡ 0) × (b.settled ≡ identified (c ∷ id)))
                (ensure_all show answers b.storage))
            (sym e) (known-always answers s c id h),
      )

  -- Where the storage works: once a run is settled with an identity that is not empty, every later
  -- run is settled with the same one and sends no request, whatever the server would answer.
  pub ensure_agent_id-once :
      (fetched : Fetched) (answers : List Fetched) (s : Storage) (c : ℕ) (id : Text)
      → s.can_read ≡ true
      → s.can_write ≡ true
      → (ensure_agent_id show fetched s).settled ≡ identified (c ∷ id)
      → All
          (λ b. (b.requests ≡ 0) × (b.settled ≡ identified (c ∷ id)))
          (ensure_all show answers (ensure_agent_id show fetched s).storage)
  unfolding ensure_agent_id
  ensure_agent_id-once fetched answers s c id r w h =
      known-always answers (ensure_agent_id show fetched s).storage c id
        (ensure_from-stored (get_agent_id s) fetched s (c ∷ id) refl r w h)

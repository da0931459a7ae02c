-- ===== src/Api/Envelope.antt =====
-- How `request` is settled, and what `createAgent` leaves behind.
use mathlib.Core.Option
use agentchat_take_home.Base.{
  ℕ, Text, codes, true, false, not, ◌∷◌, ◌++◌, ◌⊎◌, inl, inr, Option, none, some, ◌≡◌, ap, ◌∙◌,
  ◌==◌, arith, if◌then◌else◌, text_beq, nat_eq,
}
use agentchat_take_home.Types.Json.{Json, null, string, object, field, end}
use agentchat_take_home.AgentId.{Storage, Response, Fetched, ok, get_agent_id, set_agent_id}
use agentchat_take_home.Api.{
  rejected, api_request_error, settle, settle_ok, error_of, create_agent, request, Call, call,
  truthy, prepare,
}
use agentchat_take_home.Api.Headers.{acts, agent_header, request-call}

-- The body that the server writes for an error.
abbrev pub envelope : Text → Text → Json
envelope code message = object (
    field (codes "error")
      (object (field (codes "code") (string code) (field (codes "message") (string message) end)))
      end)

-- The answer that the server gives to `createAgent`.
abbrev pub created_response : ℕ → Text → Text → Response
created_response status status_text id = record {
  status = status;
  status_text = status_text;
  json = some (object (field (codes "agent_id") (string id) end));
}

module _ (show : ℕ → Text) (template : Json → Text) where
  settle_failed :
      (r : Response)
      → ok r ≡ false
      → settle show template (some r) ≡ rejected (error_of show template r)
  unfolding settle
  settle_failed r h =
      ap (λ b. if not b then rejected (error_of show template r) else settle_ok show template r) h

  error_of-envelope :
      (status : ℕ) (status_text code message : Text)
      → ((t : Text) → template (string t) ≡ t)
      → error_of show template (record {
        status = status;
        status_text = status_text;
        json = some (envelope code message);
      })
        ≡ api_request_error (string code) (string message) (code ++ codes ": " ++ message) status
  unfolding error_of text_beq
  error_of-envelope status status_text code message t = rw (t code, t message)

  error_of-absent :
      (status : ℕ) (status_text : Text) (body : Option Json)
      → ((t : Text) → template (string t) ≡ t)
      → (body ≡ none) ⊎ (body ≡ some null)
      → error_of show template (record { status = status; status_text = status_text; json = body })
        ≡ api_request_error
            (string (codes "http_" ++ show status))
            (string status_text)
            ((codes "http_" ++ show status) ++ codes ": " ++ status_text)
            status
  unfolding error_of
  error_of-absent status status_text body t (inl h) =
      rw h (rw (t (codes "http_" ++ show status), t status_text))
  error_of-absent status status_text body t (inr h) =
      rw h (rw (t (codes "http_" ++ show status), t status_text))

  -- A response whose status is not 2xx rejects the promise with its status: with the code and the
  -- message of the server's envelope, or, where the body is not JSON or is null, with those made
  -- of the status. The text of the error is the code, a colon and the message. Strings are taken
  -- to be what they are in a template literal.
  pub settle-envelope :
      (status : ℕ) (status_text code message : Text) (body : Option Json)
      → ok (record { status = status; status_text = status_text; json = body }) ≡ false
      → ((t : Text) → template (string t) ≡ t)
      → (body ≡ none) ⊎ (body ≡ some null)
      → (settle show template (
            some (record {
              status = status;
              status_text = status_text;
              json = some (envelope code message);
            }))
          ≡ rejected (
              api_request_error
                (string code)
                (string message)
                (code ++ codes ": " ++ message)
                status))
        × (settle show template
              (some (record { status = status; status_text = status_text; json = body }))
            ≡ rejected (
                api_request_error
                  (string (codes "http_" ++ show status))
                  (string status_text)
                  ((codes "http_" ++ show status) ++ codes ": " ++ status_text)
                  status))
  settle-envelope status status_text code message body h t absent = (
    settle_failed _ h ∙ ap rejected (error_of-envelope status status_text code message t),
    settle_failed _ h ∙ ap rejected (error_of-absent status status_text body t absent),
  )

  create_agent-stored :
      (item : Option Json → Text) (api_base : Text) (status : ℕ) (status_text : Text) (c : ℕ)
      (id : Text) (s : Storage)
      → s.can_read ≡ true
      → s.can_write ≡ true
      → ok (created_response status status_text (c ∷ id)) ≡ true
      → (status == 204) ≡ false
      → item (some (string (c ∷ id))) ≡ c ∷ id
      → get_agent_id
          (create_agent show template item api_base
            (some (created_response status status_text (c ∷ id)))
            s).2
        ≡ some (c ∷ id)
  unfolding create_agent request prepare settle get_agent_id set_agent_id text_beq
  create_agent-stored item api_base status status_text c id s r w fine content h =
      rw (fine, content) (ap (λ (t : Text). get_agent_id (set_agent_id t s)) h ∙ ground arith)

  -- Where the storage works: once `createAgent` is answered with a status that is ok and not 204 and
  -- an identity that is not empty, every call that acts for the agent is sent with this identity.
  pub create_agent-call :
      (stringify : Json → Text) (encode : Text → Text) (item : Option Json → Text) (status : ℕ)
      (status_text : Text) (c : ℕ) (id : Text) (s : Storage) (api_base : Text) (fetched : Fetched)
      (next : Call)
      → s.can_read ≡ true
      → s.can_write ≡ true
      → ok (created_response status status_text (c ∷ id)) ≡ true
      → (status == 204) ≡ false
      → item (some (string (c ∷ id))) ≡ c ∷ id
      → acts next ≡ true
      → Option.map agent_header
          (request show template api_base
            (get_agent_id
              (create_agent show template item api_base
                (some (created_response status status_text (c ∷ id)))
                s).2)
            fetched
            (call show stringify encode next).0
            (call show stringify encode next).1).0
        ≡ some (some (c ∷ id))
  create_agent-call stringify encode item status status_text c id s api_base fetched next r w fine
        content h a =
      let created =
        create_agent show template item api_base
          (some (created_response status status_text (c ∷ id))) s in
      request-call show template stringify encode api_base _ fetched next
      ∙ ap (λ b. if b then Option.map some (truthy (get_agent_id created.2)) else some none) a
      ∙ ap (λ o. Option.map some (truthy o))
          (create_agent-stored item api_base status status_text c id s r w fine content h)

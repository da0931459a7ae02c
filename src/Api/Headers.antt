-- ===== src/Api/Headers.antt =====
-- Which requests carry the identity, and which are never sent.
use mathlib.Core.Option
use agentchat_take_home.Base.{
  ℕ, Text, codes, Bool, true, false, [], ◌∷◌, Option, none, some, ◌≡◌, refl, ap, ◌∙◌, Bool-cases,
  inl, inr, if◌then◌else◌, text_eq, text_beq,
}
use agentchat_take_home.JsMap
use agentchat_take_home.JsMap.{Map}
use agentchat_take_home.JsMap.Laws.{get-set, get-set_self}
use agentchat_take_home.Types.Json.{Json}
use agentchat_take_home.AgentId.{Fetched}
use agentchat_take_home.Api.{
  RequestInit, HttpRequest, prepare, send, request, truthy, authorize, with_headers,
  add_content_type, Call, call, health, create_agent_post, get_resident_agent, list_conversations,
  list_all_conversations, create_conversation, list_unread, invite, leave, get_history,
  get_observer_history, ack,
}

abbrev pub agent_header : HttpRequest → Option Text
agent_header r = JsMap.get (codes "x-agent-id") r.headers

get-add_content_type :
    (body : Option Text) (headers : Map Text Text)
    → JsMap.get (codes "x-agent-id") (add_content_type body headers)
      ≡ JsMap.get (codes "x-agent-id") headers
unfolding text_beq
get-add_content_type none headers = refl
get-add_content_type (some t) headers =
    elim (Bool-cases (JsMap.has (codes "content-type") headers)) [
      | inl there ↦ rw there
      | inr missing ↦
          rw missing
            (get-set (codes "content-type") (codes "x-agent-id") (codes "application/json") headers)
    ]

module _ (api_base : Text) (agent_id : Option Text) (path : Text) (init : RequestInit) where
  with_headers-agent_header :
      (headers : Option (Map Text Text))
      → Option.map agent_header (with_headers api_base path init headers)
        ≡ Option.map (JsMap.get (codes "x-agent-id")) headers
  with_headers-agent_header none = refl
  with_headers-agent_header (some headers) =
      ap some (get-add_content_type (truthy init.body) headers)

  authorize-agent_id :
      (skip : Bool) (id : Option Text)
      → Option.map (JsMap.get (codes "x-agent-id")) (authorize skip id init.headers) ≡ (
          if skip
          then some (JsMap.get (codes "x-agent-id") init.headers)
          else Option.map some (truthy id))
  authorize-agent_id true id = refl
  authorize-agent_id false none = refl
  authorize-agent_id false (some []) = refl
  authorize-agent_id false (some (c ∷ t)) =
      ap some (get-set_self (codes "x-agent-id") (c ∷ t) init.headers)

  pub prepare-agent_header : Option.map agent_header (prepare api_base agent_id path init) ≡ (
      if init.skip_auth
      then some (JsMap.get (codes "x-agent-id") init.headers)
      else Option.map some (truthy agent_id))
  unfolding prepare
  prepare-agent_header =
      with_headers-agent_header (authorize init.skip_auth agent_id init.headers)
      ∙ authorize-agent_id init.skip_auth agent_id

-- The calls that act for the agent of the browser; the others are the liveness probe, the
-- bootstrap, the resident's id and the two reads of an observer.
abbrev pub acts : Call → Bool
acts health = false
acts create_agent_post = false
acts get_resident_agent = false
acts list_all_conversations = false
acts (get_observer_history cid opts) = false
acts _ = true

module _ (show : ℕ → Text) (template stringify : Json → Text) (encode : Text → Text) where
  call-skip_auth :
      (c : Call) (agent_id : Option Text)
      → (if (call show stringify encode c).1.skip_auth
          then some (JsMap.get (codes "x-agent-id") (call show stringify encode c).1.headers)
          else Option.map some (truthy agent_id))
        ≡ (if acts c then Option.map some (truthy agent_id) else some none)
  unfolding call JsMap.get
  call-skip_auth health agent_id = refl
  call-skip_auth create_agent_post agent_id = refl
  call-skip_auth get_resident_agent agent_id = refl
  call-skip_auth list_all_conversations agent_id = refl
  call-skip_auth (get_observer_history cid opts) agent_id = refl
  call-skip_auth list_conversations agent_id = refl
  call-skip_auth create_conversation agent_id = refl
  call-skip_auth list_unread agent_id = refl
  call-skip_auth (invite cid id) agent_id = refl
  call-skip_auth (leave cid) agent_id = refl
  call-skip_auth (get_history cid opts) agent_id = refl
  call-skip_auth (ack cid seq) agent_id = refl

  send-sent : (fetched : Fetched) (r : Option HttpRequest) → (send show template fetched r).0 ≡ r
  send-sent fetched none = refl
  send-sent fetched (some r) = refl

  request-sent :
      (api_base : Text) (agent_id : Option Text) (fetched : Fetched) (path : Text)
      (init : RequestInit)
      → (request show template api_base agent_id fetched path init).0
        ≡ prepare api_base agent_id path init
  unfolding request
  request-sent api_base agent_id fetched path init =
      send-sent fetched (prepare api_base agent_id path init)

  -- A call that acts for the agent is sent with the stored id, and not at all where the id is
  -- missing or empty; every other call is sent, and carries no id.
  pub request-call :
      (api_base : Text) (agent_id : Option Text) (fetched : Fetched) (c : Call)
      → Option.map agent_header
          (request show template api_base agent_id fetched
            (call show stringify encode c).0
            (call show stringify encode c).1).0
        ≡ (if acts c then Option.map some (truthy agent_id) else some none)
  request-call api_base agent_id fetched c =
      let (path, init) = call show stringify encode c in
      ap (Option.map agent_header) (request-sent api_base agent_id fetched path init)
      ∙ prepare-agent_header api_base agent_id path init
      ∙ call-skip_auth c agent_id

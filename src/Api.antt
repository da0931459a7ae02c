-- ===== src/Api.antt =====
-- artifacts/agentmail-ui/src/lib/api.ts: `request`, on the identity that is stored and on what
-- `fetch` answers, and the functions that call it. Names of headers are in lower case, as Headers
-- keeps them. `String`, `JSON.stringify` and `encodeURIComponent` are parameters.
use agentchat_take_home.Base.{
  ℕ, Text, codes, Bool, true, false, not, ◌&&◌, List, [], ◌∷◌, ◌++◌, Option, none, some, ◌==◌,
  nat_eq, text_eq, if◌then◌else◌,
}
use agentchat_take_home.JsMap
use agentchat_take_home.JsMap.{Map}
use agentchat_take_home.Types.Json.{
  Json, null, string, number, object, field, end, finite, property,
}
use agentchat_take_home.AgentId.{Storage, Response, Fetched, ok, get_agent_id, set_agent_id}
pub mod Headers
pub mod Envelope

-- `RequestInitEx`
pub record RequestInit : Type 0 where
  pub method : Option Text
  pub headers : Map Text Text
  pub body : Option Text
  pub skip_auth : Bool

abbrev get : RequestInit
get = record { method = none; headers = []; body = none; skip_auth = false }

abbrev post : RequestInit
post = record get { method = some (codes "POST") }

abbrev skip_auth : RequestInit → RequestInit
skip_auth init = record init { skip_auth = true }

-- What `fetch` is called with.
pub record HttpRequest : Type 0 where
  pub url : Text
  pub method : Option Text
  pub headers : Map Text Text
  pub body : Option Text

-- An error of `request`. `code` and `message` are values of the body, or texts made of the status.
pub data RequestError : Type 0 where
  no_agent_id : RequestError
  network : RequestError
  api_request_error : (code message : Json) (text : Text) (status : ℕ) → RequestError
  invalid_json : RequestError
  not_an_object : RequestError

-- How a promise is settled; `none` is undefined.
pub data Settled : Type 0 where
  resolved : Option Json → Settled
  rejected : RequestError → Settled

-- An id that is missing or empty is falsy.
abbrev pub truthy : Option Text → Option Text
truthy none = none
truthy (some []) = none
truthy (some (c ∷ t)) = some (c ∷ t)

abbrev add_agent_id : Option Text → Map Text Text → Option (Map Text Text)
add_agent_id none headers = none
add_agent_id (some id) headers = some (JsMap.set (codes "x-agent-id") id headers)

-- The headers as far as the id goes; `none` where the function throws.
abbrev pub authorize : Bool → Option Text → Map Text Text → Option (Map Text Text)
authorize true agent_id headers = some headers
authorize false agent_id headers = add_agent_id (truthy agent_id) headers

abbrev pub add_content_type : Option Text → Map Text Text → Map Text Text
add_content_type none headers = headers
add_content_type (some body) headers =
    if JsMap.has (codes "content-type") headers
    then headers
    else JsMap.set (codes "content-type") (codes "application/json") headers

abbrev pub with_headers : Text → Text → RequestInit → Option (Map Text Text) → Option HttpRequest
with_headers api_base path init none = none
with_headers api_base path init (some headers) = some (record {
  url = api_base ++ path;
  method = init.method;
  headers = add_content_type (truthy init.body) headers;
  body = init.body;
})

-- What `request` does before it waits; `none` where it throws.
unfoldable pub prepare : Text → Option Text → Text → RequestInit → Option HttpRequest
prepare api_base agent_id path init =
    with_headers api_base path init (authorize init.skip_auth agent_id init.headers)

-- `a ?? b`
abbrev pub coalesce : Option Json → Json → Json
coalesce none d = d
coalesce (some null) d = d
coalesce (some v) d = v

-- `v?.[k]`
abbrev pub optional : Text → Option Json → Option Json
optional k none = none
optional k (some v) = property k v

-- `show` is `String` on a number, `template` what a value is in a template literal.
module _ (show : ℕ → Text) (template : Json → Text) where
  abbrev pub request_error : Response → Json → Json → RequestError
  request_error r code message =
      api_request_error code message (template code ++ codes ": " ++ template message) r.status

  -- The error of a response that is not ok.
  unfoldable pub error_of : Response → RequestError
  error_of r =
      let error = optional (codes "error") r.json in
      request_error r
        (coalesce (optional (codes "code") error) (string (codes "http_" ++ show r.status)))
        (coalesce (optional (codes "message") error) (string r.status_text))

  abbrev json_of : Option Json → Settled
  json_of none = rejected invalid_json
  json_of (some v) = resolved (some v)

  abbrev pub settle_ok : Response → Settled
  settle_ok r = if r.status == 204 then resolved none else json_of r.json

  unfoldable pub settle : Fetched → Settled
  settle none = rejected network
  settle (some r) = if not (ok r) then rejected (error_of r) else settle_ok r

  -- What is sent, if anything, and how the promise is settled.
  abbrev pub send : Fetched → Option HttpRequest → Option HttpRequest × Settled
  send fetched none = (none, rejected no_agent_id)
  send fetched (some sent) = (some sent, settle fetched)

  unfoldable pub request :
      Text → Option Text → Fetched → Text → RequestInit → Option HttpRequest × Settled
  request api_base agent_id fetched path init = send fetched (prepare api_base agent_id path init)

  -- What `createAgent` does with the answer of its request: the id is stored.
  abbrev store_identity : (Option Json → Text) → Settled → Storage → Settled × Storage
  store_identity item (rejected e) s = (rejected e, s)
  store_identity item (resolved none) s = (rejected not_an_object, s)
  store_identity item (resolved (some null)) s = (rejected not_an_object, s)
  store_identity item (resolved (some resp)) s =
      (resolved (some resp), set_agent_id (item (property (codes "agent_id") resp)) s)

  -- `createAgent`: what is sent, how the promise is settled, and the storage behind it. `item` is
  -- the text that `localStorage` keeps of a value.
  unfoldable pub create_agent :
      (Option Json → Text) → Text → Fetched → Storage → Option HttpRequest × Settled × Storage
  create_agent item api_base fetched s =
      let answer = request api_base (get_agent_id s) fetched (codes "/agents") (skip_auth post) in
      let stored = store_identity item answer.1 s in (answer.0, stored.0, stored.1)

pub record GetHistoryOpts : Type 0 where
  pub before : Option ℕ
  pub limit : Option ℕ

-- The functions of the module, as far as they call `request`.
pub data Call : Type 0 where
  health create_agent_post get_resident_agent list_conversations : Call
  list_all_conversations create_conversation list_unread : Call
  invite : (cid agent_id : Text) → Call
  leave : (cid : Text) → Call
  get_history get_observer_history : (cid : Text) → GetHistoryOpts → Call
  ack : (cid : Text) (seq : ℕ) → Call

abbrev param : (ℕ → Text) → Text → Option ℕ → List Text
param show name none = []
param show name (some n) = (name ++ codes "=" ++ show n) ∷ []

abbrev ampersands : List Text → Text
ampersands [] = []
ampersands (p ∷ []) = p
ampersands (p ∷ q ∷ ps) = p ++ codes "&" ++ ampersands (q ∷ ps)

-- The query with its question mark; digits need no escaping.
abbrev pub query : (ℕ → Text) → GetHistoryOpts → Text
query show opts =
    let qs =
      ampersands
        (param show (codes "before") opts.before ++ param show (codes "limit") opts.limit) in
    if qs == [] then [] else codes "?" ++ qs

module _ (show : ℕ → Text) (stringify : Json → Text) (encode : Text → Text) where
  -- The path and the init that each function passes to `request`.
  unfoldable pub call : Call → Text × RequestInit
  call health = (codes "/health", skip_auth get)
  call create_agent_post = (codes "/agents", skip_auth post)
  call get_resident_agent = (codes "/agents/resident", skip_auth get)
  call list_conversations = (codes "/conversations", get)
  call list_all_conversations = (codes "/observer/conversations", skip_auth get)
  call create_conversation = (codes "/conversations", post)
  call list_unread = (codes "/agents/me/unread", get)
  call (invite cid agent_id) = (
    codes "/conversations/" ++ encode cid ++ codes "/invite",
    record post {
      body = some (stringify (object (field (codes "agent_id") (string agent_id) end)));
    },
  )
  call (leave cid) = (codes "/conversations/" ++ encode cid ++ codes "/leave", post)
  call (get_history cid opts) =
      (codes "/conversations/" ++ encode cid ++ codes "/messages" ++ query show opts, get)
  call (get_observer_history cid opts) = (
    codes "/observer/conversations/" ++ encode cid ++ codes "/messages" ++ query show opts,
    skip_auth get,
  )
  call (ack cid seq) = (
    codes "/conversations/" ++ encode cid ++ codes "/ack",
    record post {
      body = some (stringify (object (field (codes "seq") (number (finite seq)) end)));
    },
  )

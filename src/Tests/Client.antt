-- ===== src/Tests/Client.antt =====
-- The client of the backend and the identity of the browser at concrete inputs.
use mathlib.Core.Option
use agentchat_take_home.Base.{
  ℕ, Text, codes, true, [], ◌∷◌, ◌++◌, Option, none, some, ◌≡◌, refl, inl, text_beq,
}
use agentchat_take_home.Types.Json.{Json, string, object, field, end}
use agentchat_take_home.AgentId.{Storage, Fetched, identified, ensure_agent_id, get_agent_id}
use agentchat_take_home.Api.{
  call, invite, ack, request, settle, rejected, api_request_error, create_agent,
}
use agentchat_take_home.Api.Headers.{agent_header, request-call}
use agentchat_take_home.Api.Envelope.{
  envelope, settle-envelope, create_agent-call, created_response,
}

-- A value is shown as its string, and as nothing where it is none.
abbrev show_json : Json → Text
show_json (string t) = t
show_json _ = []

abbrev show_item : Option Json → Text
show_item none = codes "undefined"
show_item (some v) = show_json v

abbrev show : ℕ → Text
show n = n ∷ []

abbrev encode : Text → Text
encode t = t

abbrev empty_storage : Storage
empty_storage = record { item = none; can_read = true; can_write = true }

abbrev identity : Json
identity = object (field (codes "agent_id") (string (codes "a1")) end)

abbrev created : Fetched
created = some (record { status = 201; status_text = codes "Created"; json = some identity })

abbrev other_identity : Fetched
other_identity = some (record {
  status = 201;
  status_text = codes "Created";
  json = some (object (field (codes "agent_id") (string (codes "b2")) end));
})

first_run : (ensure_agent_id show_json created empty_storage).settled ≡ identified (codes "a1")
unfolding ensure_agent_id get_agent_id text_beq
first_run = refl

request-call_example :
    Option.map agent_header
      (request show show_json
        (codes "/api")
        (some (codes "a1"))
        none
        (call show show_json encode (invite (codes "c") (codes "b2"))).0
        (call show show_json encode (invite (codes "c") (codes "b2"))).1).0
    ≡ some (some (codes "a1"))
request-call_example =
    request-call show show_json show_json encode (codes "/api") (some (codes "a1")) none
      (invite (codes "c") (codes "b2"))

settle-envelope_example :
    (settle show show_json (
        some (record {
          status = 403;
          status_text = codes "Forbidden";
          json = some (envelope (codes "not_member") (codes "no"));
        }))
      ≡ rejected (
          api_request_error
            (string (codes "not_member"))
            (string (codes "no"))
            (codes "not_member" ++ codes ": " ++ codes "no")
            403))
    × (settle show show_json
          (some (record { status = 403; status_text = codes "Forbidden"; json = none }))
        ≡ rejected (
            api_request_error
              (string (codes "http_" ++ show 403))
              (string (codes "Forbidden"))
              ((codes "http_" ++ show 403) ++ codes ": " ++ codes "Forbidden")
              403))
settle-envelope_example =
    settle-envelope show show_json 403 (codes "Forbidden") (codes "not_member") (codes "no") none
      refl (λ t. refl) (inl refl)

create_agent-call_example :
    Option.map agent_header
      (request show show_json
        (codes "/api")
        (get_agent_id
          (create_agent show show_json show_item
            (codes "/api")
            (some (created_response 201 (codes "Created") (codes "a1")))
            empty_storage).2)
        none
        (call show show_json encode (ack (codes "c") 4)).0
        (call show show_json encode (ack (codes "c") 4)).1).0
    ≡ some (some (codes "a1"))
create_agent-call_example =
    create_agent-call show show_json show_json encode show_item 201 (codes "Created") b'a'
      (codes "1") empty_storage (codes "/api") none (ack (codes "c") 4) refl refl refl refl refl
      refl

-- ===== src/CustomFetch/Request.antt =====
-- custom-fetch.ts: the module's configuration, and what is done before `fetch` is called. Names of
-- headers are in lower case. `parse_url` is what `new URL` and `new Request` make of an absolute
-- url, none where they throw.
use mathlib.Core.Option
use agentchat_take_home.Base.{
  Text, codes, Bool, true, false, not, ◌&&◌, ◌||◌, [], ◌∷◌, ◌++◌, Option, none, some, ◌==◌, text_eq,
  map, if◌then◌else◌, is_some,
}
use agentchat_take_home.JsMap
use agentchat_take_home.JsMap.{Map}
use agentchat_take_home.Strings.{starts_with, strip_last, to_upper}
use agentchat_take_home.CustomFetch.Response.{Headers}
use agentchat_take_home.CustomFetch.Body.{
  ResponseType, json_type, FetchError, body_not_allowed, invalid_url, getter_failed,
  looks_like_json,
}

-- What the getter's promise is settled with; the code does not tell null from the empty string.
pub data TokenOutcome : Type 0 where
  token : Text → TokenOutcome
  no_token : TokenOutcome
  token_failed : TokenOutcome

-- `_baseUrl`, and what `_authTokenGetter` answers where there is one.
pub record Config : Type 0 where
  pub base_url : Option Text
  pub auth_token_getter : Option TokenOutcome

unfoldable pub set_base_url : Option Text → Config → Config
set_base_url none c = record c { base_url = none }
set_base_url (some []) c = record c { base_url = none }
set_base_url (some (u ∷ url)) c = record c { base_url = some (strip_last b'/' (u ∷ url)) }

unfoldable pub set_auth_token_getter : Option TokenOutcome → Config → Config
set_auth_token_getter getter c = record c { auth_token_getter = getter }

-- `RequestInfo | URL`: a string, a URL with its text, or a Request.
pub data Input : Type 0 where
  text_input : Text → Input
  url_input : Text → Input
  request_input : (url method : Text) → Headers → Input

unfoldable pub resolve_url : Input → Text
resolve_url (text_input t) = t
resolve_url (url_input href) = href
resolve_url (request_input url method headers) = url

-- The text of a body, or a body of another kind.
pub data RequestBody : Type 0 where
  text_body : Text → RequestBody
  other_body : RequestBody

pub record CustomFetchOptions : Type 0 where
  pub response_type : ResponseType
  pub headers : Headers
  pub method : Option Text
  pub body : Option RequestBody

-- What `fetch` is called with.
pub record SentRequest : Type 0 where
  pub input : Input
  pub method : Text
  pub headers : Headers
  pub body : Option RequestBody

pub data Prepared : Type 0 where
  refused : FetchError → Prepared
  sent : SentRequest → Prepared

abbrev input_method : Input → Text
input_method (request_input url method headers) = map to_upper method
input_method _ = codes "GET"

unfoldable pub resolve_method : Input → Option Text → Text
resolve_method input none = input_method input
resolve_method input (some []) = input_method input
resolve_method input (some (c ∷ method)) = map to_upper (c ∷ method)

-- The loop over one source of headers.
abbrev pub set_headers : Headers → Headers → Headers
set_headers [] headers = headers
set_headers ((name, v) ∷ source) headers = set_headers source (JsMap.set name v headers)

abbrev pub input_headers : Input → Headers
input_headers (request_input url method headers) = headers
input_headers _ = []

unfoldable pub merge_headers : Headers → Headers → Headers
merge_headers first second = set_headers second (set_headers first [])

abbrev pub default_json_accept : Text
default_json_accept = codes "application/json, application/problem+json"

abbrev pub is_json_text : Option RequestBody → Bool
is_json_text (some (text_body t)) = looks_like_json t
is_json_text _ = false

abbrev pub default_header : Bool → Text → Text → Headers → Headers
default_header wanted name v headers =
    if wanted && not (JsMap.has name headers) then JsMap.set name v headers else headers

abbrev pub is_json_type : ResponseType → Bool
is_json_type json_type = true
is_json_type _ = false

abbrev pub add_token : Headers → TokenOutcome → Option Headers
add_token headers no_token = some headers
add_token headers token_failed = none
add_token headers (token []) = some headers
add_token headers (token (c ∷ t)) =
    some (JsMap.set (codes "authorization") (codes "Bearer " ++ c ∷ t) headers)

-- The getter runs only where there is no header yet; none where it fails.
abbrev pub authorize : Option TokenOutcome → Headers → Option Headers
authorize none headers = some headers
authorize (some getter) headers =
    if JsMap.has (codes "authorization") headers then some headers else add_token headers getter

abbrev pub send_with : Input → Text → Option RequestBody → Option Headers → Prepared
send_with input method body none = refused getter_failed
send_with input method body (some headers) =
    sent (record { input = input; method = method; headers = headers; body = body })

abbrev pub forbids_body : Text → Bool
forbids_body method = method == codes "GET" || method == codes "HEAD"

-- The headers up to the token.
unfoldable pub default_headers : Input → CustomFetchOptions → Headers
default_headers input options =
    default_header (is_json_type options.response_type) (codes "accept") default_json_accept (
      default_header (is_json_text options.body) (codes "content-type") (codes "application/json")
        (merge_headers (input_headers input) options.headers))

abbrev pub prepare_on : Config → CustomFetchOptions → Option Input → Prepared
prepare_on c options none = refused invalid_url
prepare_on c options (some input) =
    let method = resolve_method input options.method in
    if is_some options.body && forbids_body method
    then refused (body_not_allowed method)
    else send_with input method options.body
        (authorize c.auth_token_getter (default_headers input options))

module _ (parse_url : Text → Option Text) where
  abbrev rebase : Input → Text → Option Input
  rebase (text_input t) absolute = some (text_input absolute)
  rebase (url_input href) absolute = Option.map url_input (parse_url absolute)
  rebase (request_input url method headers) absolute =
      Option.map (λ u. request_input u method headers) (parse_url absolute)

  unfoldable pub apply_base_url : Option Text → Input → Option Input
  apply_base_url none input = some input
  apply_base_url (some []) input = some input
  apply_base_url (some (b ∷ base)) input =
      if starts_with (codes "/") (resolve_url input)
      then rebase input ((b ∷ base) ++ resolve_url input)
      else some input

  unfoldable pub prepare : Config → Input → CustomFetchOptions → Prepared
  prepare c input options = prepare_on c options (apply_base_url c.base_url input)

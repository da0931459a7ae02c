-- ===== src/CustomFetch/Body.antt =====
-- custom-fetch.ts: the parsers of a body. `parse_json` is JSON.parse, none where it throws.
use agentchat_take_home.Base.{
  ℕ, Text, codes, Bool, false, not, ◌&&◌, ◌||◌, [], ◌∷◌, Option, none, some, ◌==◌, text_eq, nat_eq,
  if◌then◌else◌, is_some,
}
use agentchat_take_home.Types.Json.{Json, null, string}
use agentchat_take_home.Strings.{trim, trim_start, starts_with}
use agentchat_take_home.CustomFetch.Response.{
  Response, get_media_type, is_json_media_type, is_text_media_type, has_no_body,
}
use agentchat_take_home.CustomFetch.Errors.{
  BodyData, value, blob_data, RequestInfo, ApiError, ResponseParseError, response_parse_error,
}

-- What the promises are rejected with.
pub data FetchError : Type 0 where
  body_not_allowed : (method : Text) → FetchError
  invalid_url : FetchError
  getter_failed : FetchError
  fetch_failed : FetchError
  read_failed : FetchError
  blob_unsupported : FetchError
  api_error : ApiError → FetchError
  parse_error : ResponseParseError → FetchError

pub data Settled : Type 0 where
  resolved : BodyData → Settled
  rejected : FetchError → Settled

abbrev pub null_data : BodyData
null_data = value null

unfoldable pub strip_bom : Text → Text
strip_bom [] = []
strip_bom (c ∷ text) = if c == 0xFEFF then text else c ∷ text

unfoldable pub looks_like_json : Text → Bool
looks_like_json text =
    starts_with (codes "{") (trim_start text) || starts_with (codes "[") (trim_start text)

pub data ResponseType : Type 0 where
  json_type text_type blob_type auto : ResponseType

unfoldable pub infer_response_type : Response → ResponseType
infer_response_type r =
    let media_type = get_media_type r.headers in
    if is_json_media_type media_type
    then json_type
    else if is_text_media_type media_type || not (is_some media_type)
    then text_type
    else blob_type

-- `response.text()` and `response.blob()`, and what is done with what they read.
abbrev pub with_text : Option Text → (Text → Settled) → Settled
with_text none k = rejected read_failed
with_text (some raw) k = k raw

abbrev pub read_blob : Response → Settled
read_blob r = with_text r.blob (λ content. resolved (blob_data content))

abbrev pub text_data : Text → BodyData
text_data [] = null_data
text_data (c ∷ t) = value (string (c ∷ t))

-- A media type that is neither missing nor empty, nor of JSON or text.
abbrev pub is_binary : Option Text → Bool
is_binary none = false
is_binary (some []) = false
is_binary (some (c ∷ t)) =
    not (is_json_media_type (some (c ∷ t))) && not (is_text_media_type (some (c ∷ t)))

module _ (show : ℕ → Text) (parse_json : Text → Option Json) where
  abbrev pub parsed_or : Option Json → Settled → Settled
  parsed_or none other = other
  parsed_or (some v) other = resolved (value v)

  unfoldable pub parse_json_text : Response → RequestInfo → Text → Settled
  parse_json_text r info raw =
      if trim (strip_bom raw) == []
      then resolved null_data
      else parsed_or (parse_json (strip_bom raw))
          (rejected (parse_error (response_parse_error show r raw info)))

  abbrev pub parse_json_body : Response → RequestInfo → Settled
  parse_json_body r info = with_text r.text (parse_json_text r info)

  -- The text of an error's body, once it is read.
  unfoldable pub parse_error_text : Option Text → Text → Settled
  parse_error_text media_type raw =
      if trim (strip_bom raw) == []
      then resolved null_data
      else if is_json_media_type media_type || looks_like_json (strip_bom raw)
      then parsed_or (parse_json (strip_bom raw)) (resolved (value (string raw)))
      else resolved (value (string raw))

  abbrev raw_data : Text → Settled
  raw_data raw = resolved (value (string raw))

  unfoldable pub parse_error_body : Response → Text → Settled
  parse_error_body r method =
      if has_no_body r method
      then resolved null_data
      else if is_binary (get_media_type r.headers)
      then if r.has_blob then read_blob r else with_text r.text raw_data
      else with_text r.text (parse_error_text (get_media_type r.headers))

  abbrev pub effective_type : Response → ResponseType → ResponseType
  effective_type r auto = infer_response_type r
  effective_type r given = given

  abbrev pub parse_as : Response → RequestInfo → ResponseType → Settled
  parse_as r info text_type = with_text r.text (λ t. resolved (text_data t))
  parse_as r info blob_type = if r.has_blob then read_blob r else rejected blob_unsupported
  parse_as r info json_type = parse_json_body r info
  parse_as r info auto = parse_json_body r info

  unfoldable pub parse_success_body : Response → ResponseType → RequestInfo → Settled
  parse_success_body r response_type info =
      if has_no_body r info.method
      then resolved null_data
      else parse_as r info (effective_type r response_type)

-- ===== src/Tests/CustomFetch.antt =====
-- Requests of the generated client at concrete inputs. A token, a url or a number is shown as it is.
use agentchat_take_home.Base.{
  ℕ, ◌+◌, ◌≤◌, Text, codes, true, false, ◌&&◌, [], ◌∷◌, Option, none, some, ◌≡◌, refl, length,
  is_some, text_beq, text_eq,
}
use agentchat_take_home.JsMap
use agentchat_take_home.Types.Json.{Json, string}
use agentchat_take_home.Strings.{starts_with, trim_start}
use agentchat_take_home.CustomFetch.Response.{Response}
use agentchat_take_home.CustomFetch.Errors
use agentchat_take_home.CustomFetch.Errors.{
  BodyData, value, build_error_message, prefix_of, or_else, RequestInfo,
}
use agentchat_take_home.CustomFetch.Body.{json_type, rejected, api_error, looks_like_json}
use agentchat_take_home.CustomFetch.Request.{
  Config, token, text_input, text_body, CustomFetchOptions, SentRequest, sent, prepare,
  merge_headers, apply_base_url, resolve_url, resolve_method, default_headers, forbids_body,
  input_headers,
}
use agentchat_take_home.CustomFetch.Run.{receive}
use agentchat_take_home.CustomFetch.Fill.{default_of}
use agentchat_take_home.CustomFetch.Headers.{prepare-headers}
use agentchat_take_home.CustomFetch.Failures.{build_error_message_bounds}
use agentchat_take_home.CustomFetch.Thrown.{IsOf, receive_failed}

abbrev show : ℕ → Text
show n = n ∷ []

abbrev parse_json : Text → Option Json
parse_json t = none

abbrev parse_url : Text → Option Text
parse_url t = some t

abbrev config : Config
config = record { base_url = some (codes "http://h"); auth_token_getter = some (token (codes "t")) }

-- A post with a header of its own.
abbrev options : CustomFetchOptions
options = record {
  response_type = json_type;
  headers = (codes "accept", codes "text/plain") ∷ [];
  method = some (codes "post");
  body = some (text_body (codes "{}"));
}

abbrev request : SentRequest
request = record {
  input = text_input (codes "http://h/x");
  method = codes "POST";
  headers =
      (codes "accept", codes "text/plain")
      ∷ (codes "content-type", codes "application/json")
      ∷ (codes "authorization", codes "Bearer t")
      ∷ [];
  body = some (text_body (codes "{}"));
}

prepared : prepare parse_url config (text_input (codes "/x")) options ≡ sent request
unfolding prepare apply_base_url resolve_url resolve_method default_headers looks_like_json
    starts_with trim_start JsMap.get JsMap.set text_beq merge_headers
prepared = refl

prepare-headers_example :
    (JsMap.get (codes "accept") request.headers
      ≡ or_else (JsMap.get (codes "accept") options.headers) (
          or_else
            (JsMap.get (codes "accept") (input_headers request.input))
            (default_of config options (codes "accept"))))
    × ((is_some request.body && forbids_body request.method) ≡ false)
prepare-headers_example =
    prepare-headers parse_url config (text_input (codes "/x")) options request (codes "accept")
      (tt, tt) tt prepared

abbrev not_found : Response
not_found = record {
  status = 404;
  status_text = codes "Not Found";
  headers = [];
  url = [];
  null_body = false;
  text = some (codes "no such conversation");
  has_blob = true;
  blob = some [];
}

receive_failed_example :
    (e : Errors.ApiError) × IsOf show parse_json not_found request
      (codes "no such conversation")
      []
      e
    × (receive show parse_json options request (some not_found) ≡ rejected (api_error e))
receive_failed_example =
    receive_failed show parse_json options request not_found (codes "no such conversation") [] refl
      refl refl

build_error_message_bounds_example :
    (length (prefix_of show not_found)
      ≤ length (build_error_message show not_found (value (string (codes "gone")))))
    × (length (build_error_message show not_found (value (string (codes "gone"))))
        ≤ length (prefix_of show not_found) + 302)
build_error_message_bounds_example = build_error_message_bounds show not_found (codes "gone")

-- ===== src/CustomFetch/Errors.antt =====
-- custom-fetch.ts: the message of an error, and the two classes of errors. `show` is `String` on
-- a number.
use agentchat_take_home.Base.{
  ℕ, ◌-◌, Text, codes, [], ◌∷◌, ◌++◌, Option, none, some, text_eq, if◌then◌else◌, ltb, take, length,
}
use agentchat_take_home.Types.Json.{Json, string, property}
use agentchat_take_home.Strings.{trim}
use agentchat_take_home.CustomFetch.Response.{Response, Headers}

-- The data of a body: a value of the language, or a Blob with its content.
pub data BodyData : Type 0 where
  value : Json → BodyData
  blob_data : Text → BodyData

abbrev pub nonempty : Text → Option Text
nonempty [] = none
nonempty (c ∷ t) = some (c ∷ t)

abbrev trimmed_string : Option Json → Option Text
trimmed_string (some (string t)) = nonempty (trim t)
trimmed_string _ = none

-- Only objects have fields that are read; a Blob has none of those names.
unfoldable pub get_string_field : BodyData → Text → Option Text
get_string_field (value v) key = trimmed_string (property key v)
get_string_field (blob_data t) key = none

abbrev pub max_length : ℕ
max_length = 300

unfoldable pub truncate : Text → Text
truncate text =
    if ltb max_length (length text) then take (max_length - 1) text ++ codes "…" else text

-- `a ?? b`
abbrev pub or_else : Option Text → Option Text → Option Text
or_else none b = b
or_else (some a) b = some a

abbrev pub join_message : Text → Option Text → Text
join_message prefix none = prefix
join_message prefix (some t) = prefix ++ codes ": " ++ t

-- The choice among the fields of an object: title and detail, detail, message, title.
abbrev pub choose : Option Text → Option Text → Option Text → Option Text
choose (some title) (some detail) message = some (title ++ codes " — " ++ detail)
choose none (some detail) message = some detail
choose title none (some message) = some message
choose title none none = title

module _ (show : ℕ → Text) where
  abbrev pub prefix_of : Response → Text
  prefix_of r = codes "HTTP " ++ show r.status ++ codes " " ++ r.status_text

  abbrev pub detail_of : BodyData → Option Text
  detail_of body =
      choose (get_string_field body (codes "title")) (get_string_field body (codes "detail")) (
        or_else (get_string_field body (codes "message")) (
          or_else (get_string_field body (codes "error_description"))
            (get_string_field body (codes "error"))))

  abbrev pub truncated : Option Text → Option Text
  truncated none = none
  truncated (some t) = some (truncate t)

  unfoldable pub build_error_message : Response → BodyData → Text
  build_error_message r (value (string t)) =
      join_message (prefix_of r) (truncated (nonempty (trim t)))
  build_error_message r body = join_message (prefix_of r) (detail_of body)

pub record RequestInfo : Type 0 where
  pub method : Text
  pub url : Text

-- `ApiError`; the response itself is not kept a second time.
pub record ApiError : Type 0 where
  pub message : Text
  pub status : ℕ
  pub status_text : Text
  pub body : BodyData
  pub headers : Headers
  pub method : Text
  pub url : Text

-- `ResponseParseError`, without the error of JSON.parse that it carries as its cause.
pub record ResponseParseError : Type 0 where
  pub message : Text
  pub status : ℕ
  pub status_text : Text
  pub headers : Headers
  pub method : Text
  pub url : Text
  pub raw_body : Text

-- `response.url || requestInfo.url`
abbrev pub url_of : Text → Text → Text
url_of [] other = other
url_of (c ∷ url) other = c ∷ url

module _ (show : ℕ → Text) where
  unfoldable pub api_error : Response → BodyData → RequestInfo → ApiError
  api_error r body info = record {
    message = build_error_message show r body;
    status = r.status;
    status_text = r.status_text;
    body = body;
    headers = r.headers;
    method = info.method;
    url = url_of r.url info.url;
  }

  unfoldable pub response_parse_error : Response → Text → RequestInfo → ResponseParseError
  response_parse_error r raw_body info = record {
    message =
        codes "Failed to parse response from "
        ++ info.method
        ++ codes " "
        ++ url_of r.url info.url
        ++ codes " ("
        ++ show r.status
        ++ codes " "
        ++ r.status_text
        ++ codes ") as JSON";
    status = r.status;
    status_text = r.status_text;
    headers = r.headers;
    method = info.method;
    url = url_of r.url info.url;
    raw_body = raw_body;
  }

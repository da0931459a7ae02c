-- ===== src/CustomFetch/Response.antt =====
-- custom-fetch.ts: what a response offers, its media type, and whether it has a body.
use agentchat_take_home.Base.{
  ℕ, Text, codes, Bool, false, ◌||◌, [], ◌∷◌, Option, none, some, ◌==◌, text_eq, nat_eq, map,
}
use agentchat_take_home.JsMap
use agentchat_take_home.JsMap.{Map}
use agentchat_take_home.Strings.{before, trim, to_lower, starts_with, ends_with}

-- Headers, under names in lower case.
abbrev pub Headers : Type 0
Headers = Map Text Text

-- `text` is what `response.text()` resolves to and `blob` the content of what `response.blob()`
-- resolves to; none where they reject. `has_blob` says that `blob` is a function.
pub record Response : Type 0 where
  pub status : ℕ
  pub status_text : Text
  pub headers : Headers
  pub url : Text
  pub null_body : Bool
  pub text : Option Text
  pub has_blob : Bool
  pub blob : Option Text

abbrev media_type_of : Option Text → Option Text
media_type_of none = none
media_type_of (some []) = none
media_type_of (some (c ∷ value)) = some (map to_lower (trim (before b';' (c ∷ value))))

unfoldable pub get_media_type : Headers → Option Text
get_media_type headers = media_type_of (JsMap.get (codes "content-type") headers)

unfoldable pub is_json_media_type : Option Text → Bool
is_json_media_type none = false
is_json_media_type (some t) = t == codes "application/json" || ends_with (codes "+json") t

unfoldable pub is_text_media_type : Option Text → Bool
is_text_media_type none = false
is_text_media_type (some []) = false
is_text_media_type (some (c ∷ t)) =
    starts_with (codes "text/") (c ∷ t)
    || (c ∷ t) == codes "application/xml"
    || (c ∷ t) == codes "text/xml"
    || ends_with (codes "+xml") (c ∷ t)
    || (c ∷ t) == codes "application/x-www-form-urlencoded"

abbrev is_zero : Option Text → Bool
is_zero none = false
is_zero (some t) = t == codes "0"

unfoldable pub has_no_body : Response → Text → Bool
has_no_body r method =
    method == codes "HEAD"
    || (r.status == 204 || r.status == 205 || r.status == 304)
    || is_zero (JsMap.get (codes "content-length") r.headers)
    || r.null_body

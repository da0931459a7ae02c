-- ===== src/CustomFetch/Headers.antt =====
-- custom-fetch.ts: the headers and the method that are sent.
use agentchat_take_home.Base.{
  Text, codes, false, ◌&&◌, Option, none, some, ◌≡◌, refl, sym, ap, ◌∙◌, subst, Bool-cases, inl,
  inr, text_eq, if◌then◌else◌, is_some,
}
use agentchat_take_home.JsMap
use agentchat_take_home.JsMap.{Map}
use agentchat_take_home.JsMap.Laws.{IsDistinct}
use agentchat_take_home.CustomFetch.Response.{Headers}
use agentchat_take_home.CustomFetch.Errors.{or_else}
use agentchat_take_home.CustomFetch.Body.{body_not_allowed}
use agentchat_take_home.CustomFetch.Request.{
  Config, Input, CustomFetchOptions, SentRequest, refused, sent, resolve_method, input_headers,
  merge_headers, default_json_accept, is_json_text, is_json_type, default_header, authorize,
  send_with, forbids_body, apply_base_url, default_headers, prepare_on, prepare,
}
use agentchat_take_home.CustomFetch.Fill.{
  fill, under, wanted_value, token_value, default_of, get-merge_headers, or_else-regroup, get-fill,
  default_header-fill, authorize-fill,
}

-- What holds of a request that is sent.
record Sent (c : Config) (options : CustomFetchOptions) (s : SentRequest) : Type 0 where
  method : s.method ≡ resolve_method s.input options.method
  body : s.body ≡ options.body
  no_body : (is_some s.body && forbids_body s.method) ≡ false
  headers :
      fill
        (codes "authorization")
        (token_value c.auth_token_getter)
        (default_headers s.input options)
      ≡ s.headers

send_with-Sent :
    (c : Config) (options : CustomFetchOptions) (input : Input) (s : SentRequest)
    (o : Option Headers)
    → (is_some options.body && forbids_body (resolve_method input options.method)) ≡ false
    → authorize c.auth_token_getter (default_headers input options) ≡ o
    → send_with input (resolve_method input options.method) options.body o ≡ sent s
    → Sent c options s
send_with-Sent c options input s none h a e = cc
send_with-Sent c options input s (some headers) h a e =
    let r : SentRequest = record {
      input = input;
      method = resolve_method input options.method;
      headers = headers;
      body = options.body;
    } in
    let same : r ≡ s = cc (e) in
    subst (Sent c options) same (record {
      method = refl;
      body = refl;
      no_body = h;
      headers = authorize-fill c.auth_token_getter (default_headers input options) headers a;
    })

module _ (c : Config) (options : CustomFetchOptions) where
  prepare_on-Sent :
      (o : Option Input) (s : SentRequest) → prepare_on c options o ≡ sent s → Sent c options s
  prepare_on-Sent none s e = cc
  prepare_on-Sent (some input) s e =
      let method = resolve_method input options.method in
      let passed =
        send_with input method options.body
          (authorize c.auth_token_getter (default_headers input options)) in
      elim (Bool-cases (is_some options.body && forbids_body method)) [
        | inl forbidden ↦
            let clash : refused (body_not_allowed method) ≡ sent s =
              sym (ap (λ b. if b then refused (body_not_allowed method) else passed) forbidden)
              ∙ e in
            cc (clash)
        | inr fine ↦
            send_with-Sent c options input s
              (authorize c.auth_token_getter (default_headers input options)) fine refl
              (sym (ap (λ b. if b then refused (body_not_allowed method) else passed) fine) ∙ e)
      ]

  get-default_headers :
      (input : Input) (name : Text)
      → IsDistinct options.headers
      → IsDistinct (input_headers input)
      → JsMap.get name (default_headers input options)
        ≡ or_else
            (or_else
              (or_else (JsMap.get name options.headers) (JsMap.get name (input_headers input)))
              (under
                (codes "content-type")
                (wanted_value (is_json_text options.body) (codes "application/json"))
                name))
            (under
              (codes "accept")
              (wanted_value (is_json_type options.response_type) default_json_accept)
              name)
  unfolding default_headers
  get-default_headers input name d e =
      let merged = merge_headers (input_headers input) options.headers in
      let typed =
        default_header (is_json_text options.body) (codes "content-type") (codes "application/json")
          merged in
      ap (JsMap.get name) (
        default_header-fill (is_json_type options.response_type) (codes "accept")
          default_json_accept typed)
      ∙ get-fill (codes "accept") name
          (wanted_value (is_json_type options.response_type) default_json_accept) typed
      ∙ ap
          (λ o. or_else o (
            under (codes "accept")
              (wanted_value (is_json_type options.response_type) default_json_accept) name))
          (ap (JsMap.get name) (
              default_header-fill (is_json_text options.body) (codes "content-type")
                (codes "application/json") merged)
            ∙ get-fill (codes "content-type") name
                (wanted_value (is_json_text options.body) (codes "application/json")) merged
            ∙ ap
                (λ o. or_else o (
                  under (codes "content-type")
                    (wanted_value (is_json_text options.body) (codes "application/json")) name))
                (get-merge_headers name (input_headers input) options.headers e d))

-- In a request that is sent, a header is that of the options; where these have none, that of the
-- Request that was given; and where that has none either, the default: JSON as the content type of
-- a text that looks like JSON, the JSON types as what is accepted where JSON is asked for, and
-- `Bearer ` with the token where a getter is set and answers a token that is not the empty text;
-- for null and for the empty text there is no such default. So no header of the options or of the
-- Request is ever overwritten. A GET or HEAD has no body.
pub prepare-headers :
    (parse_url : Text → Option Text) (c : Config) (input : Input) (options : CustomFetchOptions)
    (s : SentRequest) (name : Text)
    → IsDistinct options.headers
    → IsDistinct (input_headers s.input)
    → prepare parse_url c input options ≡ sent s
    → (JsMap.get name s.headers
        ≡ or_else
            (JsMap.get name options.headers)
            (or_else (JsMap.get name (input_headers s.input)) (default_of c options name)))
      × ((is_some s.body && forbids_body s.method) ≡ false)
unfolding prepare
prepare-headers parse_url c input options s name d k e =
    let r = prepare_on-Sent c options (apply_base_url parse_url c.base_url input) s e in
    (
      ap (JsMap.get name) (sym r.headers)
          ∙ get-fill (codes "authorization") name (token_value c.auth_token_getter)
              (default_headers s.input options)
          ∙ ap
              (λ o.
                or_else o (under (codes "authorization") (token_value c.auth_token_getter) name))
              (get-default_headers c options s.input name d k)
          ∙ or_else-regroup (JsMap.get name options.headers)
              (JsMap.get name (input_headers s.input)) _ _ _,
      r.no_body,
    )

-- ===== src/CustomFetch/Thrown.antt =====
-- custom-fetch.ts: the ApiError that a response becomes that is not ok.
use agentchat_take_home.Base.{
  ℕ, Text, Bool, true, false, not, ◌||◌, [], ◌∷◌, Option, none, some, ◌≡◌, ◌⊎◌, refl, ap, ◌∙◌, inl,
  inr, subst, sym, if-both, ◌==◌, text_eq, if◌then◌else◌,
}
use agentchat_take_home.Types.Json.{Json, string}
use agentchat_take_home.Strings.{trim}
use agentchat_take_home.CustomFetch.Response.{
  Response, get_media_type, is_json_media_type, has_no_body,
}
use agentchat_take_home.CustomFetch.Errors
use agentchat_take_home.CustomFetch.Errors.{
  BodyData, value, blob_data, RequestInfo, ApiError, url_of, build_error_message,
}
use agentchat_take_home.CustomFetch.Body.{
  Settled, resolved, rejected, api_error, null_data, with_text, strip_bom, looks_like_json,
  parsed_or, is_binary, parse_error_text, parse_error_body, parse_success_body,
}
use agentchat_take_home.CustomFetch.Request.{CustomFetchOptions, SentRequest, resolve_url}
use agentchat_take_home.CustomFetch.Run.{ok, receive, request_info, throw_api_error}

-- The text is to be read as JSON.
abbrev pub is_json : Response → Text → Bool
is_json r raw = is_json_media_type (get_media_type r.headers) || looks_like_json (strip_bom raw)

abbrev IsBlank : Text → Type 0
IsBlank raw = (trim (strip_bom raw) == []) ≡ true

abbrev IsFull : Text → Type 0
IsFull raw = (trim (strip_bom raw) == []) ≡ false

module _ (parse_json : Text → Option Json) where
  -- The data of an error, on the text and the content of the body: one constructor for each case.
  pub data IsErrorData (r : Response) (method raw content : Text) : BodyData → Type 0 where
    no_body : has_no_body r method ≡ true → IsErrorData r method raw content null_data
    binary :
        has_no_body r method ≡ false
        → is_binary (get_media_type r.headers) ≡ true
        → r.has_blob ≡ true
        → IsErrorData r method raw content (blob_data content)
    binary_text :
        has_no_body r method ≡ false
        → is_binary (get_media_type r.headers) ≡ true
        → r.has_blob ≡ false
        → IsErrorData r method raw content (value (string raw))
    blank :
        has_no_body r method ≡ false
        → is_binary (get_media_type r.headers) ≡ false
        → IsBlank raw
        → IsErrorData r method raw content null_data
    json :
        (v : Json)
        → has_no_body r method ≡ false
        → is_binary (get_media_type r.headers) ≡ false
        → IsFull raw
        → is_json r raw ≡ true
        → parse_json (strip_bom raw) ≡ some v
        → IsErrorData r method raw content (value v)
    no_json :
        has_no_body r method ≡ false
        → is_binary (get_media_type r.headers) ≡ false
        → IsFull raw
        → (is_json r raw ≡ false) ⊎ (parse_json (strip_bom raw) ≡ none)
        → IsErrorData r method raw content (value (string raw))

module _ (show : ℕ → Text) (parse_json : Text → Option Json) where
  -- The promise resolves with such data.
  abbrev Resolves : Response → Text → Text → Text → Settled → Type 0
  Resolves r method raw content (resolved body) = IsErrorData parse_json r method raw content body
  Resolves r method raw content (rejected e) = ⊥

  parsed_or-Resolves :
      (r : Response) (method raw content : Text) (o : Option Json)
      → has_no_body r method ≡ false
      → is_binary (get_media_type r.headers) ≡ false
      → IsFull raw
      → is_json r raw ≡ true
      → parse_json (strip_bom raw) ≡ o
      → Resolves r method raw content (parsed_or show parse_json o (resolved (value (string raw))))
  parsed_or-Resolves r method raw content none b t f j e = no_json b t f (inr e)
  parsed_or-Resolves r method raw content (some v) b t f j e = json v b t f j e

  parse_error_text-Resolves :
      (r : Response) (method raw content : Text)
      → has_no_body r method ≡ false
      → is_binary (get_media_type r.headers) ≡ false
      → Resolves r method raw content
          (parse_error_text show parse_json (get_media_type r.headers) raw)
  unfolding parse_error_text
  parse_error_text-Resolves r method raw content b t =
      if-both (Resolves r method raw content) (trim (strip_bom raw) == []) (λ h. blank b t h)
        (λ f.
          if-both (Resolves r method raw content) (is_json r raw)
            (λ j. parsed_or-Resolves r method raw content (parse_json (strip_bom raw)) b t f j refl)
            (λ n. no_json b t f (inl n)))

  parse_error_body-Resolves :
      (r : Response) (method raw content : Text)
      → r.text ≡ some raw
      → r.blob ≡ some content
      → Resolves r method raw content (parse_error_body show parse_json r method)
  unfolding parse_error_body
  parse_error_body-Resolves r method raw content p q =
      if-both (Resolves r method raw content) (has_no_body r method) (λ h. no_body h)
        (λ b.
          if-both (Resolves r method raw content) (is_binary (get_media_type r.headers))
            (λ t.
              if-both (Resolves r method raw content) r.has_blob
                (λ h.
                  subst
                    (λ o. Resolves r method raw content (with_text o (λ d. resolved (blob_data d))))
                    (sym q) (binary b t h))
                (λ h.
                  subst
                    (λ o.
                      Resolves r method raw content
                        (with_text o (λ d. resolved (value (string d)))))
                    (sym p) (binary_text b t h)))
            (λ t.
              subst
                (λ o.
                  Resolves r method raw content
                    (with_text o (parse_error_text show parse_json (get_media_type r.headers))))
                (sym p) (parse_error_text-Resolves r method raw content b t)))

  -- What an ApiError holds of an exchange.
  pub record IsOf (r : Response) (s : SentRequest) (raw content : Text) (e : ApiError)
      : Type 0 where
    pub status : e.status ≡ r.status
    pub status_text : e.status_text ≡ r.status_text
    pub headers : e.headers ≡ r.headers
    pub method : e.method ≡ s.method
    pub url : (e.url ≡ r.url) ⊎ ((r.url ≡ []) × (e.url ≡ resolve_url s.input))
    pub body : IsErrorData parse_json r s.method raw content e.body
    pub message : e.message ≡ build_error_message show r e.body

  url_of-cases :
      (url other : Text) → (url_of url other ≡ url) ⊎ ((url ≡ []) × (url_of url other ≡ other))
  url_of-cases [] other = inr (refl, refl)
  url_of-cases (c ∷ url) other = inl refl

  api_error-IsOf :
      (r : Response) (s : SentRequest) (raw content : Text) (body : BodyData)
      → IsErrorData parse_json r s.method raw content body
      → IsOf r s raw content (Errors.api_error show r body (request_info show parse_json s))
  unfolding Errors.api_error
  api_error-IsOf r s raw content body d = record {
    status = refl;
    status_text = refl;
    headers = refl;
    method = refl;
    url = url_of-cases r.url (resolve_url s.input);
    body = d;
    message = refl;
  }

  throw_api_error-thrown :
      (r : Response) (s : SentRequest) (raw content : Text) (parsed : Settled)
      → Resolves r s.method raw content parsed
      → (e : ApiError) × IsOf r s raw content e
        × (throw_api_error show parse_json r (request_info show parse_json s) parsed
            ≡ rejected (api_error e))
  throw_api_error-thrown r s raw content (resolved body) d = (
    Errors.api_error show r body (request_info show parse_json s),
    api_error-IsOf r s raw content body d,
    refl,
  )
  throw_api_error-thrown r s raw content (rejected e) d = absurd d

  -- Where the body can be read, a response that is not ok rejects the promise with an ApiError, and
  -- with nothing else, JSON or not. Its status, text of the status and headers are those of the
  -- response, its method is that of the request, its url that of the response or, where this is
  -- empty, of the request; its message is the one built of the response and the data. Its data is
  -- null if there is no body, the Blob if the media type is given and neither JSON nor text (the
  -- text where there are no Blobs), and else null if the text is blank, the value of the text if
  -- the media type or the first character says JSON and it is JSON, and the text otherwise.
  pub receive_failed :
      (options : CustomFetchOptions) (s : SentRequest) (r : Response) (raw content : Text)
      → ok r ≡ false
      → r.text ≡ some raw
      → r.blob ≡ some content
      → (e : ApiError) × IsOf r s raw content e
        × (receive show parse_json options s (some r) ≡ rejected (api_error e))
  unfolding receive
  receive_failed options s r raw content h p q =
      let info = request_info show parse_json s in
      let parsed = parse_error_body show parse_json r s.method in
      let (e, d, eq) =
        throw_api_error-thrown r s raw content parsed
          (parse_error_body-Resolves r s.method raw content p q) in
      (
        e,
        d,
        ap
              (λ b.
                if not b
                then throw_api_error show parse_json r info parsed
                else parse_success_body show parse_json r options.response_type info)
              h
            ∙ eq,
      )

-- ===== src/CustomFetch/Fill.antt =====
-- custom-fetch.ts: what a default does to the headers.
use mathlib.Core.Option.{some-injective}
use agentchat_take_home.Base.{
  Text, codes, Bool, true, false, [], ◌∷◌, ◌++◌, Option, none, some, ◌≡◌, refl, sym, ap, ◌∙◌, subst,
  Bool-cases, Option-cases, inl, inr, ◌==◌, text_eq, text_beq_iff, if◌then◌else◌,
}
use agentchat_take_home.JsMap
use agentchat_take_home.JsMap.{Map}
use agentchat_take_home.JsMap.Laws.{Absent, IsDistinct, get-set, get_of_Absent}
use agentchat_take_home.CustomFetch.Response.{Headers}
use agentchat_take_home.CustomFetch.Errors.{or_else}
use agentchat_take_home.CustomFetch.Request.{
  Config, CustomFetchOptions, TokenOutcome, token, no_token, token_failed, set_headers,
  merge_headers, default_json_accept, is_json_text, is_json_type, default_header, add_token,
  authorize,
}

get-set_headers :
    (name : Text) (source headers : Headers)
    → IsDistinct source
    → JsMap.get name (set_headers source headers)
      ≡ or_else (JsMap.get name source) (JsMap.get name headers)
unfolding JsMap.get
get-set_headers name [] headers d = refl
get-set_headers name ((key, v) ∷ source) headers (a, d) = elim (Bool-cases (key == name)) [
  | inl same ↦
      let later : JsMap.get name source ≡ none =
        get_of_Absent name source
          (subst (λ k. Absent k source) ((text_beq_iff key name).0 same) a) in
      rw same (
        get-set_headers name source (JsMap.set key v headers) d
        ∙ rw (later, get-set key name v headers, same))
  | inr other ↦ rw other (
      get-set_headers name source (JsMap.set key v headers) d
      ∙ rw (get-set key name v headers, other))
]

or_else-none : (o : Option Text) → or_else o none ≡ o
or_else-none none = refl
or_else-none (some v) = refl

or_else_assoc : (a b c : Option Text) → or_else (or_else a b) c ≡ or_else a (or_else b c)
or_else_assoc none b c = refl
or_else_assoc (some v) b c = refl

pub get-merge_headers :
    (name : Text) (first second : Headers)
    → IsDistinct first
    → IsDistinct second
    → JsMap.get name (merge_headers first second)
      ≡ or_else (JsMap.get name second) (JsMap.get name first)
unfolding merge_headers JsMap.get
get-merge_headers name first second d e =
    get-set_headers name second (set_headers first []) e
    ∙ ap (or_else (JsMap.get name second))
        (get-set_headers name first [] d ∙ or_else-none (JsMap.get name first))

pub or_else-regroup :
    (a b c d e : Option Text)
    → or_else (or_else (or_else (or_else a b) c) d) e
      ≡ or_else a (or_else b (or_else c (or_else d e)))
or_else-regroup (some v) b c d e = refl
or_else-regroup none (some v) c d e = refl
or_else-regroup none none c d e = or_else_assoc c d e

-- A value that stands only under one name.
abbrev pub under : Text → Option Text → Text → Option Text
under key o name = if key == name then o else none

-- A default for a header that is missing.
abbrev pub fill : Text → Option Text → Headers → Headers
fill key none headers = headers
fill key (some v) headers = if JsMap.has key headers then headers else JsMap.set key v headers

under-none : (key name : Text) (o : Option Text) → or_else o (under key none name) ≡ o
under-none key name o = elim (Bool-cases (key == name)) [
  | inl same ↦ rw same (or_else-none o)
  | inr other ↦ rw other (or_else-none o)
]

pub get-fill :
    (key name : Text) (o : Option Text) (headers : Headers)
    → JsMap.get name (fill key o headers) ≡ or_else (JsMap.get name headers) (under key o name)
get-fill key name none headers = sym (under-none key name (JsMap.get name headers))
get-fill key name (some v) headers = elim (Option-cases (JsMap.get key headers)) [
  | inl missing ↦ rw missing (elim (Bool-cases (key == name)) [
    | inl same ↦
        let none_there =
          subst (λ k. JsMap.get k headers ≡ none) ((text_beq_iff key name).0 same) missing in
        rw (get-set key name v headers, same, none_there)
    | inr other ↦
        rw (get-set key name v headers, other) (sym (or_else-none (JsMap.get name headers)))
  ])
  | inr (w, there) ↦ rw there (elim (Bool-cases (key == name)) [
    | inl same ↦
        let found =
          subst (λ k. JsMap.get k headers ≡ some w) ((text_beq_iff key name).0 same) there in
        rw (same, found)
    | inr other ↦ rw other (sym (or_else-none (JsMap.get name headers)))
  ])
]

abbrev pub token_value : Option TokenOutcome → Option Text
token_value (some (token (c ∷ t))) = some (codes "Bearer " ++ c ∷ t)
token_value _ = none

abbrev pub wanted_value : Bool → Text → Option Text
wanted_value true v = some v
wanted_value false v = none

-- What a header is where neither the options nor the request have it.
abbrev pub default_of : Config → CustomFetchOptions → Text → Option Text
default_of c options name =
    or_else
      (under (codes "content-type")
        (wanted_value (is_json_text options.body) (codes "application/json")) name)
      (or_else
        (under (codes "accept")
          (wanted_value (is_json_type options.response_type) default_json_accept) name)
        (under (codes "authorization") (token_value c.auth_token_getter) name))

pub default_header-fill :
    (wanted : Bool) (key v : Text) (headers : Headers)
    → default_header wanted key v headers ≡ fill key (wanted_value wanted v) headers
default_header-fill false key v headers = refl
default_header-fill true key v headers = elim (Bool-cases (JsMap.has key headers)) [
  | inl there ↦ rw there
  | inr missing ↦ rw missing
]

fill_there :
    (key : Text) (o : Option Text) (headers : Headers)
    → JsMap.has key headers ≡ true
    → fill key o headers ≡ headers
fill_there key none headers h = refl
fill_there key (some v) headers h = rw h

add_token-fill :
    (getter : TokenOutcome) (headers sent_headers : Headers)
    → JsMap.has (codes "authorization") headers ≡ false
    → add_token headers getter ≡ some sent_headers
    → fill (codes "authorization") (token_value (some getter)) headers ≡ sent_headers
add_token-fill no_token headers h missing e = some-injective headers h e
add_token-fill token_failed headers h missing e = cc
add_token-fill (token []) headers h missing e = some-injective headers h e
add_token-fill (token (c ∷ t)) headers h missing e = rw missing (some-injective _ h e)

pub authorize-fill :
    (getter : Option TokenOutcome) (headers sent_headers : Headers)
    → authorize getter headers ≡ some sent_headers
    → fill (codes "authorization") (token_value getter) headers ≡ sent_headers
authorize-fill none headers h e = some-injective headers h e
authorize-fill (some getter) headers h e =
    elim (Bool-cases (JsMap.has (codes "authorization") headers)) [
      | inl there ↦
          fill_there (codes "authorization") (token_value (some getter)) headers there
          ∙ some-injective headers h (rw there at e)
      | inr missing ↦ add_token-fill getter headers h missing (rw missing at e)
    ]

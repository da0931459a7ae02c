-- ===== src/CustomFetch/Run.antt =====
-- custom-fetch.ts: `customFetch`.
use agentchat_take_home.Base.{ℕ, Text, Bool, Option, none, some, if◌then◌else◌, leb, ◌&&◌, not}
use agentchat_take_home.Types.Json.{Json}
use agentchat_take_home.CustomFetch.Response.{Response}
use agentchat_take_home.CustomFetch.Errors.{RequestInfo}
use agentchat_take_home.CustomFetch.Errors
use agentchat_take_home.CustomFetch.Body.{
  Settled, resolved, rejected, fetch_failed, api_error, parse_error_body, parse_success_body,
}
use agentchat_take_home.CustomFetch.Request.{
  Config, Input, CustomFetchOptions, SentRequest, Prepared, refused, sent, prepare, resolve_url,
}

-- `response.ok`
abbrev pub ok : Response → Bool
ok r = leb 200 r.status && leb r.status 299

-- What `customFetch` sends, if anything, and how its promise is settled.
pub record Outcome : Type 0 where
  pub request : Option SentRequest
  pub settled : Settled

module _ (show : ℕ → Text) (parse_json : Text → Option Json) where
  abbrev pub throw_api_error : Response → RequestInfo → Settled → Settled
  throw_api_error r info (resolved body) = rejected (api_error (Errors.api_error show r body info))
  throw_api_error r info (rejected e) = rejected e

  abbrev pub request_info : SentRequest → RequestInfo
  request_info s = record { method = s.method; url = resolve_url s.input }

  -- On what `fetch` answers; none is a rejection.
  unfoldable pub receive : CustomFetchOptions → SentRequest → Option Response → Settled
  receive options s none = rejected fetch_failed
  receive options s (some r) =
      if not (ok r)
      then throw_api_error r (request_info s) (parse_error_body show parse_json r s.method)
      else parse_success_body show parse_json r options.response_type (request_info s)

  abbrev pub send : CustomFetchOptions → Option Response → Prepared → Outcome
  send options fetched (refused e) = record { request = none; settled = rejected e }
  send options fetched (sent s) = record { request = some s; settled = receive options s fetched }

  unfoldable pub custom_fetch :
      (Text → Option Text) → Config → Input → CustomFetchOptions → Option Response → Outcome
  custom_fetch parse_url c input options fetched =
      send options fetched (prepare parse_url c input options)

-- ===== src/AgentId.antt =====
-- artifacts/agentmail-ui/src/lib/agent-id.ts: the identity that the browser keeps. The storage is
-- explicit, and it may throw; the answer of `fetch` is an argument.
use agentchat_take_home.Base.{
  ℕ, Text, codes, Bool, ◌&&◌, Option, none, some, List, [], ◌∷◌, if◌then◌else◌, leb,
}
use agentchat_take_home.Types.Json.{Json, property}
use agentchat_take_home.Types.Event.{is_falsy}
pub mod Once
pub mod Overlap

-- `localStorage` under the one key. An access that is not allowed throws.
pub record Storage : Type 0 where
  pub item : Option Text
  pub can_read : Bool
  pub can_write : Bool

unfoldable pub get_agent_id : Storage → Option Text
get_agent_id s = if s.can_read then s.item else none

unfoldable pub set_agent_id : Text → Storage → Storage
set_agent_id id s = if s.can_write then record s { item = some id } else s

-- A response; `json` is what `res.json()` resolves to, and `none` where it rejects.
pub record Response : Type 0 where
  pub status : ℕ
  pub status_text : Text
  pub json : Option Json

-- `res.ok`
abbrev pub ok : Response → Bool
ok r = leb 200 r.status && leb r.status 299

-- What `fetch` answers; `none` is a rejection.
abbrev pub Fetched : Type 0
Fetched = Option Response

pub data BootstrapError : Type 0 where
  network : BootstrapError
  failed : ℕ → BootstrapError
  invalid_body : BootstrapError
  missing_agent_id : BootstrapError

pub data Identified : Type 0 where
  identified : Text → Identified
  not_identified : BootstrapError → Identified

-- What one run does: the requests that it sends, how it is settled, and the storage behind it.
pub record Bootstrap : Type 0 where
  pub requests : ℕ
  pub settled : Identified
  pub storage : Storage

abbrev pub refused : BootstrapError → Storage → Bootstrap
refused e s = record { requests = 1; settled = not_identified e; storage = s }

-- `show` is the text that a truthy `agent_id` is stored as; a string is stored as it is.
module _ (show : Json → Text) where
  -- What stands behind the test of the body, on its `agent_id`.
  abbrev pub read_id : Option Json → Storage → Bootstrap
  read_id none s = refused missing_agent_id s
  read_id (some id) s = if is_falsy id then refused missing_agent_id s else record {
    requests = 1;
    settled = identified (show id);
    storage = set_agent_id (show id) s;
  }

  abbrev pub read_body : Option Json → Storage → Bootstrap
  read_body none s = refused invalid_body s
  read_body (some body) s = read_id (property (codes "agent_id") body) s

  abbrev pub bootstrap : Fetched → Storage → Bootstrap
  bootstrap none s = refused network s
  bootstrap (some r) s = if ok r then read_body r.json s else refused (failed r.status) s

  -- `existing` is what is kept; the empty string is falsy.
  abbrev pub ensure_from : Option Text → Fetched → Storage → Bootstrap
  ensure_from none fetched s = bootstrap fetched s
  ensure_from (some []) fetched s = bootstrap fetched s
  ensure_from (some (c ∷ id)) fetched s = record {
    requests = 0;
    settled = identified (c ∷ id);
    storage = s;
  }

  unfoldable pub ensure_agent_id : Fetched → Storage → Bootstrap
  ensure_agent_id fetched s = ensure_from (get_agent_id s) fetched s

  -- Runs one after the other, with what each leaves in the storage.
  abbrev pub ensure_all : List Fetched → Storage → List Bootstrap
  ensure_all [] s = []
  ensure_all (fetched ∷ answers) s =
      let b = ensure_agent_id fetched s in b ∷ ensure_all answers b.storage

-- ===== src/Sandbox.antt =====
-- artifacts/mockup-sandbox/src/App.tsx: the preview that a path asks for, and `PreviewRenderer`,
-- which loads its component.
use agentchat_take_home.Base.{
  ℕ, zero, suc, Text, codes, Bool, true, false, not, ◌&&◌, ◌||◌, List, [], ◌∷◌, ◌++◌, Option, none,
  some, ◌==◌, text_eq, nat_eq, length, drop, select, any, if◌then◌else◌,
}
use agentchat_take_home.JsMap
use agentchat_take_home.JsMap.{Map}
use agentchat_take_home.Strings.{starts_with}
pub mod Paths
pub mod Keys
pub mod Fresh

-- An export of a module: a function, under a number that tells it from others, or another value.
pub data Export : Type 0 where
  component : ℕ → Export
  other : (truthy : Bool) → Export

abbrev pub is_function : Export → Bool
is_function (component n) = true
is_function (other truthy) = false

-- `a || b`, where undefined is none.
abbrev pub or_truthy : Option Export → Option Export → Option Export
or_truthy (some (component n)) b = some (component n)
or_truthy (some (other true)) b = some (other true)
or_truthy (some (other false)) b = b
or_truthy none b = b

-- `fns[fns.length - 1]`
abbrev pub last {ℓ} : {A : Type ℓ} → List A → Option A
last [] = none
last (x ∷ []) = some x
last (x ∷ y ∷ xs) = last (y ∷ xs)

-- `_resolveComponent`, on the exports of a module.
unfoldable pub resolve_component : Map Text Export → Text → Option Export
resolve_component m name = or_truthy (JsMap.get (codes "default") m) (
    or_truthy (JsMap.get (codes "Preview") m)
      (or_truthy (JsMap.get name m) (last (select is_function (JsMap.values m)))))

-- What a loader's promise is settled with; the message of an error is what is shown of it.
pub data Loaded : Type 0 where
  loaded : Map Text Export → Loaded
  failed : (message : Text) → Loaded

-- The two states of `PreviewRenderer`.
pub record Renderer : Type 0 where
  pub component : Option Export
  pub error : Option Text

abbrev pub blank : Renderer
blank = record { component = none; error = none }

abbrev pub key_of : Text → Text
key_of path = codes "./components/mockups/" ++ path ++ codes ".tsx"

-- `path.split('/').pop()`
unfoldable pub last_segment : Text → Text
last_segment [] = []
last_segment (c ∷ path) =
    let rest = last_segment path in if any (λ d. d == b'/') (c ∷ path) then rest else c ∷ path

abbrev pub set_error : Text → Renderer → Renderer
set_error error r = record r { error = some error }

abbrev set_resolved : Text → Option Export → Renderer → Renderer
set_resolved path none r =
    set_error
      (codes "No exported React component found in "
        ++ path
        ++ codes ".tsx\n\nMake sure the file has at least one exported function component.")
      r
set_resolved path (some c) r = record r { component = some c }

-- The part of `loadComponent` behind the loader, in a run that is not cancelled.
unfoldable pub finish : Text → Loaded → Renderer → Renderer
finish path (loaded m) r = set_resolved path (resolve_component m (last_segment path)) r
finish path (failed message) r = set_error (codes "Failed to load preview.\n" ++ message) r

-- A run of the effect that waits for its loader.
pub record Load : Type 0 where
  pub path : Text
  pub cancelled : Bool

-- The mounted component: its states, the runs that wait, by number, and the number of the run that
-- belongs to the last rendering.
pub record Preview : Type 0 where
  pub renderer : Renderer
  pub loads : Map ℕ Load
  pub current : ℕ

abbrev pub cancel_load : ℕ → Option Load → Map ℕ Load → Map ℕ Load
cancel_load id none loads = loads
cancel_load id (some l) loads = JsMap.set id (record l { cancelled = true }) loads

-- The cleanup of the effect.
unfoldable pub cancel : Preview → Preview
cancel p = record p { loads = cancel_load p.current (JsMap.get p.current p.loads) p.loads }

abbrev pub next_run : Preview → Preview
next_run p = record p { current = suc p.current }

module _ {ℓ} {A : Type ℓ} (modules : Map Text A) where
  abbrev pub start : Text → Option A → Preview → Preview
  start path none p = record p {
    renderer = set_error (codes "No component found at " ++ path ++ codes ".tsx") blank;
  }
  start path (some loader) p = record p {
    renderer = blank;
    loads = JsMap.set p.current (record { path = path; cancelled = false }) p.loads;
  }

  -- The effect, up to where it waits for the loader.
  unfoldable pub run_effect : Text → Preview → Preview
  run_effect path p = start path (JsMap.get (key_of path) modules) p

  abbrev pub mounted : Text → Preview
  mounted path = run_effect path (record { renderer = blank; loads = []; current = 0 })

  -- A rendering with another path: the cleanup, and the effect in a run of its own.
  unfoldable pub show_path : Text → Preview → Preview
  show_path path p = run_effect path (next_run (cancel p))

abbrev pub settle_load : Option Load → ℕ → Loaded → Preview → Preview
settle_load none id result p = p
settle_load (some l) id result p =
    let r = if l.cancelled then p.renderer else finish l.path result p.renderer in
    record p { renderer = r; loads = JsMap.delete id p.loads }

-- The loader of a run is settled.
unfoldable pub settle : ℕ → Loaded → Preview → Preview
settle id result p = settle_load (JsMap.get id p.loads) id result p

-- What `PreviewRenderer` draws.
pub data Drawn : Type 0 where
  error_text : Text → Drawn
  element : Export → Drawn
  nothing : Drawn

abbrev element_of : Option Export → Drawn
element_of none = nothing
element_of (some c) = element c

abbrev pub draw : Option Text → Option Export → Drawn
draw none c = element_of c
draw (some []) c = element_of c
draw (some (e ∷ error)) c = error_text (e ∷ error)

-- `replace(/\/$/, "")`: a slash at the end is dropped.
unfoldable pub drop_slash : Text → Text
drop_slash [] = []
drop_slash (c ∷ []) = if c == b'/' then [] else c ∷ []
drop_slash (c ∷ d ∷ s) = c ∷ drop_slash (d ∷ s)

-- `getBasePath`, `getPreviewExamplePath` and `getPreviewPath`.
abbrev pub get_base_path : Text → Text
get_base_path base_url = drop_slash base_url

unfoldable pub get_preview_example_path : Text → Text
get_preview_example_path base_url = get_base_path base_url ++ codes "/preview/ComponentName"

abbrev pub or_slash : Text → Text
or_slash [] = codes "/"
or_slash (c ∷ s) = c ∷ s

abbrev pub local_path : Text → Text → Text
local_path [] pathname = pathname
local_path (c ∷ base) pathname =
    if starts_with (c ∷ base) pathname
    then or_slash (drop (length (c ∷ base)) pathname)
    else pathname

-- The units that `.` does not match.
abbrev pub is_line_end : ℕ → Bool
is_line_end c = c == b'\n' || c == 13 || c == 0x2028 || c == 0x2029

abbrev pub capture : Text → Option Text
capture [] = none
capture (c ∷ s) = if any is_line_end (c ∷ s) then none else some (c ∷ s)

-- `/^\/preview\/(.+)$/`
abbrev pub match_preview : Text → Option Text
match_preview local = if starts_with (codes "/preview/") local then capture (drop 9 local) else none

unfoldable pub get_preview_path : Text → Text → Option Text
get_preview_path base_url pathname = match_preview (local_path (get_base_path base_url) pathname)

-- `App`
pub data Page : Type 0 where
  preview : (component_path : Text) → Page
  gallery : (example_path : Text) → Page

abbrev pub page : Text → Option Text → Page
page base_url (some (c ∷ path)) = preview (c ∷ path)
page base_url _ = gallery (get_preview_example_path base_url)

unfoldable pub app : Text → Text → Page
app base_url pathname = page base_url (get_preview_path base_url pathname)

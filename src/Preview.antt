-- ===== src/Preview.antt =====
-- artifacts/mockup-sandbox/mockupPreviewPlugin.ts: the generated module of previews, and
-- `refresh`, of which one runs at a time. `stringify` is JSON.stringify on a string, `relative`
-- is `path.posix.relative("src/.generated", f)`.
use agentchat_take_home.Base.{
  ℕ, Text, codes, Bool, true, false, not, ◌&&◌, List, [], ◌∷◌, ◌++◌, map, Option, none, some, ◌==◌,
  text_eq, if◌then◌else◌, drop, any,
}
use agentchat_take_home.Sse.Lines.{join}
pub mod Settled
pub mod Watcher

pub record DiscoveredComponent : Type 0 where
  pub glob_key : Text
  pub import_path : Text

abbrev pub discovered : (Text → Text) → Text → DiscoveredComponent
discovered relative f = record { glob_key = codes "./" ++ drop 4 f; import_path = relative f }

abbrev entry : (Text → Text) → DiscoveredComponent → Text
entry stringify c =
    codes "  "
    ++ stringify c.glob_key
    ++ codes ": () => import("
    ++ stringify c.import_path
    ++ codes ")"

abbrev commas : List Text → Text
commas [] = []
commas (e ∷ []) = e
commas (e ∷ f ∷ es) = e ++ codes ",\n" ++ commas (f ∷ es)

unfoldable pub generate_source : (Text → Text) → List DiscoveredComponent → Text
generate_source stringify components = join (
    codes "// This file is auto-generated by mockupPreviewPlugin.ts."
    ∷ codes "type ModuleMap = Record<string, () => Promise<Record<string, unknown>>>;"
    ∷ codes "export const modules: ModuleMap = {"
    ∷ commas (map (entry stringify) components)
    ∷ codes "};"
    ∷ []
    ∷ [])

-- The variables of the plugin, and the generated file.
pub record Plugin : Type 0 where
  pub refresh_in_flight : Bool
  pub refresh_queued : Bool
  pub current_source : Text
  pub file : Option Text

abbrev pub idle : Plugin
idle = record {
  refresh_in_flight = false;
  refresh_queued = false;
  current_source = [];
  file = none;
}

-- A call of `refresh` up to where it waits for the files.
unfoldable pub refresh : Plugin → Plugin
refresh p =
    if p.refresh_in_flight
    then record p { refresh_queued = true }
    else record p { refresh_in_flight = true }

-- Behind the `finally` of a run that did not throw: one more run if one was asked for.
unfoldable pub follow_up : Plugin → Plugin
follow_up p = if p.refresh_queued then refresh (record p { refresh_queued = false }) else p

-- The write of a source that is new.
abbrev pub write_source : Text → Plugin → Plugin
write_source source p =
    if source == p.current_source
    then p
    else record p { current_source = source; file = some source }

-- The files are there, and the write succeeds.
unfoldable pub finish_refresh : Text → Plugin → Plugin
finish_refresh source p = follow_up (record (write_source source p) { refresh_in_flight = false })

-- The discovery fails: the run throws, and there is no other run.
unfoldable pub fail_refresh : Plugin → Plugin
fail_refresh p = record p { refresh_in_flight = false }

-- The write fails: the source is kept as if it had been written.
unfoldable pub fail_write : Text → Plugin → Plugin
fail_write source p = record p { current_source = source; refresh_in_flight = false }

abbrev pub source_of : (Text → Text) → (Text → Text) → List Text → Text
source_of stringify relative files = generate_source stringify (map (discovered relative) files)

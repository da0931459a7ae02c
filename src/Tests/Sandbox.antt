-- ===== src/Tests/Sandbox.antt =====
-- The preview at concrete inputs.
use agentchat_take_home.Base.{
  Text, codes, List, [], ◌∷◌, ◌++◌, some, ◌≡◌, refl, text_eq, text_beq, nat_eq,
}
use agentchat_take_home.JsMap
use agentchat_take_home.JsMap.{Map}
use agentchat_take_home.Sandbox.{
  loaded, failed, Preview, mounted, show_path, settle, cancel, run_effect, app, preview,
  get_preview_example_path,
}
use agentchat_take_home.Sandbox.Fresh
use agentchat_take_home.Sandbox.Fresh.{Runs, shown, Runs-shown}
use agentchat_take_home.Sandbox.Paths.{app-preview}
use agentchat_take_home.Sandbox.Keys.{modules_from, mockup_file}

abbrev relative : Text → Text
relative f = codes "../" ++ f

abbrev files : List Text
files = mockup_file (codes "A") ∷ mockup_file (codes "B") ∷ []

abbrev modules : Map Text Text
modules = modules_from relative files []

-- The first path's loader is settled after the second's.
abbrev both : Preview
both = show_path modules (codes "B") (mounted modules (codes "A"))

abbrev second_first : Preview
second_first = settle 1 (failed (codes "gone")) both

runs : Runs modules (codes "B") (some (failed (codes "gone"))) (settle 0 (loaded []) second_first)
unfolding show_path cancel run_effect settle JsMap.get JsMap.set JsMap.delete text_beq
runs =
    Fresh.late 0 (loaded [])
      (Fresh.answered (failed (codes "gone")) (Fresh.again (codes "B") (Fresh.first (codes "A")))
        refl)
      (λ e. cc (e))

Runs-shown_example :
    (settle 0 (loaded []) second_first).renderer
    ≡ shown modules (codes "B") (some (failed (codes "gone")))
Runs-shown_example = Runs-shown modules runs

app-preview_example :
    (app (codes "/mockup/") (codes "/mockup/preview/cards/Card") ≡ preview (codes "cards/Card"))
    × (app (codes "/mockup/") (get_preview_example_path (codes "/mockup/"))
        ≡ preview (codes "ComponentName"))
app-preview_example = app-preview (codes "/mockup") (codes "cards/Card") (λ e. cc (e)) refl

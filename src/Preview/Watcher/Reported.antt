-- ===== src/Preview/Watcher/Reported.antt =====
-- mockupPreviewPlugin.ts: which files and requests make the plugin refresh.
use agentchat_take_home.Base.{
  Text, codes, Bool, true, false, not, ◌&&◌, List, [], ◌∷◌, ◌++◌, ◌≡◌, refl, ap, ◌∙◌, All, any,
  ◌==◌, nat_eq, if◌then◌else◌,
}
use agentchat_take_home.Strings.{starts_with, split_on}
use agentchat_take_home.Strings.Laws.{split_on-segment, split_on-append, includes-append}
use agentchat_take_home.Preview.{Plugin, refresh}
use agentchat_take_home.Preview.Watcher.{
  is_preview_target, should_auto_rescan, on_end, is_mockup_file, on_add,
}

-- A path of directories to a file.
abbrev pub path_to : List Text → Text → Text
path_to [] name = name
path_to (d ∷ ds) name = d ++ b'/' ∷ path_to ds name

-- The name of a file or a directory has no slash.
abbrev pub IsName : Text → Type 0
IsName s = any (λ c. c == b'/') s ≡ false

-- The discovery passes over such names.
abbrev pub is_hidden : Text → Bool
is_hidden s = starts_with (codes "_") s

split_on-path_to :
    (ds : List Text) (name : Text)
    → All IsName ds
    → IsName name
    → split_on b'/' (path_to ds name) ≡ ds ++ name ∷ []
split_on-path_to [] name h k = split_on-segment b'/' name k
split_on-path_to (d ∷ ds) name (p, h) k =
    split_on-append b'/' d (path_to ds name) p ∙ ap (◌∷◌ d) (split_on-path_to ds name h k)

should_auto_rescan-mockup :
    (base s : Text) → should_auto_rescan (base ++ (codes "/components/mockups/" ++ s)) ≡ true
unfolding should_auto_rescan
should_auto_rescan-mockup base s = rw (includes-append (codes "/components/mockups/") base s) refl

-- A file that comes makes the plugin refresh exactly where it is a mockup and neither its name nor
-- that of a directory on the way to it starts with an underscore; so does an answer of 404 to a
-- request for the module of a file, under any base.
pub on_add-path_to :
    (rel : Text → Text) (is_absolute : Text → Bool) (file base name : Text) (ds : List Text)
    (p : Plugin)
    → rel file ≡ path_to ds name
    → All IsName ds
    → IsName name
    → (on_add rel is_absolute file p ≡ (
        if is_mockup_file rel is_absolute file && not (any is_hidden (ds ++ name ∷ []))
        then refresh p
        else p))
      × (on_end 404 (base ++ (codes "/components/mockups/" ++ rel file)) p ≡ refresh p)
unfolding on_add on_end is_preview_target
on_add-path_to rel is_absolute file base name ds p e h k = (
  ap
      (λ segments.
        if is_mockup_file rel is_absolute file && not (any is_hidden segments)
        then refresh p
        else p)
      (ap (split_on b'/') e ∙ split_on-path_to ds name h k),
  ap (λ b. if b then refresh p else p) (should_auto_rescan-mockup base (rel file)),
)

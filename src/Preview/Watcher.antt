-- ===== src/Preview/Watcher.antt =====
-- mockupPreviewPlugin.ts: what makes the plugin refresh: the hooks of the build, files that come
-- and go, and answers with status 404. `rel` is `path.relative` from the directory of the mockups,
-- `is_absolute` is `path.isAbsolute`, and `path.sep` is the slash.
use agentchat_take_home.Base.{
  ℕ, Text, codes, Bool, true, false, not, ◌&&◌, ◌||◌, List, [], ◌∷◌, ◌==◌, nat_eq, any,
  if◌then◌else◌,
}
use agentchat_take_home.Strings.{starts_with, ends_with, includes, split_on}
use agentchat_take_home.Preview.{Plugin, refresh}
pub mod Reported

-- `every` over the segments.
unfoldable pub is_preview_target : Text → Bool
is_preview_target relative_to_mockups =
    not (any (λ segment. starts_with (codes "_") segment) (split_on b'/' relative_to_mockups))

unfoldable pub should_auto_rescan : Text → Bool
should_auto_rescan pathname =
    includes (codes "/components/mockups/") pathname
    || includes (codes "/.generated/mockup-components") pathname

-- `res.end` of a request for the path.
unfoldable pub on_end : ℕ → Text → Plugin → Plugin
on_end status_code pathname p =
    if status_code == 404 && should_auto_rescan pathname then refresh p else p

module _ (rel : Text → Text) (is_absolute : Text → Bool) where
  unfoldable pub is_mockup_file : Text → Bool
  is_mockup_file absolute_path =
      not (starts_with (codes "..") (rel absolute_path))
      && not (is_absolute (rel absolute_path))
      && ends_with (codes ".tsx") (rel absolute_path)

  unfoldable pub on_add : Text → Plugin → Plugin
  on_add file p = if is_mockup_file file && is_preview_target (rel file) then refresh p else p

  unfoldable pub on_unlink : Text → Plugin → Plugin
  on_unlink file p = if is_mockup_file file then refresh p else p

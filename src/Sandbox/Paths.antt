-- ===== src/Sandbox/Paths.antt =====
-- App.tsx: the address of a preview, which the gallery tells, leads to it.
use agentchat_take_home.Base.{
  ℕ, Text, codes, false, [], ◌∷◌, ◌++◌, some, ◌≡◌, ◌≢◌, refl, ap, ◌∙◌, nat_eq, drop-length-append,
  any,
}
use agentchat_take_home.Strings.{starts_with}
use agentchat_take_home.Strings.Laws.{starts_with-append}
use agentchat_take_home.Sandbox.{
  drop_slash, get_preview_example_path, local_path, is_line_end, capture, match_preview,
  get_preview_path, preview, page, app,
}

drop_slash-append : (base : Text) → drop_slash (base ++ codes "/") ≡ base
unfolding drop_slash
drop_slash-append [] = refl
drop_slash-append (c ∷ []) = refl
drop_slash-append (c ∷ d ∷ base) = ap (◌∷◌ c) (drop_slash-append (d ∷ base))

local_path-append : (base : Text) (c : ℕ) (s : Text) → local_path base (base ++ c ∷ s) ≡ c ∷ s
local_path-append [] c s = refl
local_path-append (b ∷ base) c s =
    rw (starts_with-append (b ∷ base) (c ∷ s), drop-length-append (b ∷ base) (c ∷ s)) refl

capture-some : (p : Text) → p ≢ [] → any is_line_end p ≡ false → capture p ≡ some p
capture-some [] h k = absurd (h refl)
capture-some (c ∷ p) h k = rw k refl

match_preview-some :
    (p : Text)
    → p ≢ []
    → any is_line_end p ≡ false
    → match_preview (codes "/preview/" ++ p) ≡ some p
unfolding starts_with
match_preview-some p h k = capture-some p h k

preview_of : (base_url p : Text) → p ≢ [] → page base_url (some p) ≡ preview p
preview_of base_url [] h = absurd (h refl)
preview_of base_url (c ∷ p) h = refl

app-path :
    (base p : Text)
    → p ≢ []
    → any is_line_end p ≡ false
    → app (base ++ codes "/") (base ++ (codes "/preview/" ++ p)) ≡ preview p
unfolding app get_preview_path
app-path base p h k =
    ap (page (base ++ codes "/")) (
      ap (λ b. match_preview (local_path b (base ++ (codes "/preview/" ++ p))))
        (drop_slash-append base)
      ∙ ap match_preview (local_path-append base b'/' (codes "preview/" ++ p))
      ∙ match_preview-some p h k)
    ∙ preview_of (base ++ codes "/") p h

-- Under a base that ends in a slash, as Vite's do, the path of a component, which is not empty and
-- has no line end, leads to its preview when it stands behind the base and `/preview/`; so does
-- the example that the gallery shows.
pub app-preview :
    (base p : Text)
    → p ≢ []
    → any is_line_end p ≡ false
    → (app (base ++ codes "/") (base ++ (codes "/preview/" ++ p)) ≡ preview p)
      × (app (base ++ codes "/") (get_preview_example_path (base ++ codes "/"))
          ≡ preview (codes "ComponentName"))
unfolding get_preview_example_path
app-preview base p h k = (
  app-path base p h k,
  ap (λ b. app (base ++ codes "/") (b ++ codes "/preview/ComponentName")) (drop_slash-append base)
      ∙ app-path base (codes "ComponentName") (λ e. cc (e)) refl,
)

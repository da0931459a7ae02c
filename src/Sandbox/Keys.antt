-- ===== src/Sandbox/Keys.antt =====
-- App.tsx and mockupPreviewPlugin.ts: the key under which a preview looks for its loader is the one
-- that the generated module has.
use agentchat_take_home.Base.{
  Text, codes, false, true, List, [], ◌∷◌, ◌++◌, some, ◌≡◌, ap, ◌∙◌, All, Bool-cases, inl, inr,
  drop, text_eq, nat_eq, refl, text_beq_iff, ◌==◌, if◌then◌else◌,
}
use agentchat_take_home.JsMap
use agentchat_take_home.JsMap.{Map}
use agentchat_take_home.JsMap.Laws.{get-set, get-set_self}
use agentchat_take_home.Strings.{starts_with}
use agentchat_take_home.Strings.Laws.{starts_with-drop}
use agentchat_take_home.Preview.{discovered}
use agentchat_take_home.Sandbox.{key_of, mounted, run_effect, blank}

-- What the generated module is, as an object: each key with what it imports.
abbrev pub modules_from : (Text → Text) → List Text → Map Text Text → Map Text Text
modules_from relative [] m = m
modules_from relative (f ∷ files) m =
    let c = discovered relative f in
    modules_from relative files (JsMap.set c.glob_key c.import_path m)

abbrev pub mockup_file : Text → Text
mockup_file path = codes "src/components/mockups/" ++ path ++ codes ".tsx"

abbrev InSource : Text → Type 0
InSource f = starts_with (codes "src/") f ≡ true

module _ (relative : Text → Text) (path : Text) where
  abbrev Has : Map Text Text → Type 0
  Has m = JsMap.get (key_of path) m ≡ some (relative (mockup_file path))

  same_key :
      (f : Text)
      → InSource f
      → (discovered relative f).glob_key ≡ key_of path
      → f ≡ mockup_file path
  same_key f h e = starts_with-drop (codes "src/") f h ∙ ap (λ k. codes "src/" ++ drop 2 k) e

  set-Has :
      (f : Text) (m : Map Text Text)
      → InSource f
      → Has m
      → Has (JsMap.set (discovered relative f).glob_key (relative f) m)
  set-Has f m h k =
      get-set (discovered relative f).glob_key (key_of path) (relative f) m
      ∙ elim (Bool-cases ((discovered relative f).glob_key == key_of path)) [
        | inl same ↦
            ap (λ b. if b then some (relative f) else JsMap.get (key_of path) m) same
            ∙ ap (λ g. some (relative g)) (same_key f h ((text_beq_iff _ _).0 same))
        | inr other ↦ ap (λ b. if b then some (relative f) else JsMap.get (key_of path) m) other ∙ k
      ]

  modules_from-Has :
      (files : List Text) (m : Map Text Text)
      → All InSource files
      → Has m
      → Has (modules_from relative files m)
  modules_from-Has [] m h k = k
  modules_from-Has (f ∷ files) m (p, h) k = modules_from-Has files _ h (set-Has f m p k)

  modules_from-get :
      (before after : List Text) (m : Map Text Text)
      → All InSource (before ++ mockup_file path ∷ after)
      → Has (modules_from relative (before ++ mockup_file path ∷ after) m)
  modules_from-get [] after m (p, h) =
      modules_from-Has after _ h (get-set_self (key_of path) (relative (mockup_file path)) m)
  modules_from-get (f ∷ before) after m (p, h) = modules_from-get before after _ h

mounted-waits :
    {A : Type 0} (modules : Map Text A) (path : Text) (loader : A)
    → JsMap.get (key_of path) modules ≡ some loader
    → ((mounted modules path).renderer ≡ blank)
      × (JsMap.get 0 (mounted modules path).loads
          ≡ some (record { path = path; cancelled = false }))
unfolding run_effect JsMap.set JsMap.get
mounted-waits modules path loader e = rw e (refl, refl)

-- Where the files that are found are under the source directory, the preview of a path finds the
-- loader of its file, if this is among them, whatever the others are. So it shows no error, and a
-- run of its effect waits for the loader.
pub modules_from-loader :
    (relative : Text → Text) (path : Text) (before after : List Text)
    → All InSource (before ++ mockup_file path ∷ after)
    → let modules = modules_from relative (before ++ mockup_file path ∷ after) [] in
      (JsMap.get (key_of path) modules ≡ some (relative (mockup_file path)))
      × ((mounted modules path).renderer ≡ blank)
      × (JsMap.get 0 (mounted modules path).loads
          ≡ some (record { path = path; cancelled = false }))
modules_from-loader relative path before after h =
    let found = modules_from-get relative path before after [] h in
    let (renderer, load) = mounted-waits _ path (relative (mockup_file path)) found in
    (found, renderer, load)

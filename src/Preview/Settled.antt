-- ===== src/Preview/Settled.antt =====
-- No change of the directory is lost while a refresh runs.
use agentchat_take_home.Base.{
  Text, true, false, List, [], ◌∷◌, ◌++◌, some, ◌==◌, text_eq, text_beq_iff, if◌then◌else◌, ◌≡◌,
  ◌≢◌, refl, sym, ap, ◌∙◌, arith, All, Bool-cases, inl, inr, subst,
}
use agentchat_take_home.Sse.Lines.{join}
use agentchat_take_home.Preview.{
  Plugin, idle, refresh, follow_up, write_source, finish_refresh, source_of, generate_source,
}

-- The plugin, the files of the directory, and what a discovery that runs may find: the files at
-- some time since it started.
pub record World : Type 0 where
  pub plugin : Plugin
  pub files : List Text
  pub findable : List (List Text)

-- A change is reported by the watcher, which calls `refresh`, as does a request that is answered
-- by 404. Discoveries and writes succeed.
module _ (stringify relative : Text → Text) where
  pub data Step (w : World) : World → Type 0 where
    changed :
        (files : List Text)
        → Step w (record {
          plugin = refresh w.plugin;
          files = files;
          findable = if w.plugin.refresh_in_flight then files ∷ w.findable else files ∷ [];
        })
    rescanned : Step w (record {
      plugin = refresh w.plugin;
      files = w.files;
      findable = if w.plugin.refresh_in_flight then w.findable else w.files ∷ [];
    })
    found :
        (later : List (List Text)) (files : List Text) (earlier : List (List Text))
        → w.plugin.refresh_in_flight ≡ true
        → w.findable ≡ later ++ files ∷ earlier
        → Step w (record {
          plugin = finish_refresh (source_of stringify relative files) w.plugin;
          files = w.files;
          findable = w.files ∷ [];
        })

  pub data Reach : World → Type 0 where
    built :
        (files : List Text)
        → Reach (record { plugin = refresh idle; files = files; findable = files ∷ [] })
    next : {v w : World} → Reach v → Step v w → Reach w

  -- While a refresh runs with none queued, it can find no other files than those that are there.
  -- When none runs, the file is the source of the files.
  pub record IsCurrent (w : World) : Type 0 where
    pub running :
        w.plugin.refresh_in_flight ≡ true
        → w.plugin.refresh_queued ≡ false
        → All (λ files. files ≡ w.files) w.findable
    pub settled :
        w.plugin.refresh_in_flight ≡ false
        → (w.plugin.refresh_queued ≡ false)
          × (w.plugin.file ≡ some (source_of stringify relative w.files))
    pub written : w.plugin.current_source ≢ [] → w.plugin.file ≡ some w.plugin.current_source

  refresh-IsCurrent :
      (w : World) (files : List Text) (more : List (List Text))
      → IsCurrent w
      → IsCurrent (record {
        plugin = refresh w.plugin;
        files = files;
        findable = if w.plugin.refresh_in_flight then more else files ∷ [];
      })
  unfolding refresh
  refresh-IsCurrent w files more i = elim (Bool-cases w.plugin.refresh_in_flight) [
    | inl running ↦ rw running (record {
      running = λ _ h. absurd (ground (arith, h));
      settled = λ h. absurd (ground (arith, h, running));
      written = i.written;
    })
    | inr settled ↦ rw settled (record {
      running = λ _ _. (refl, tt);
      settled = λ h. absurd (ground (arith, h));
      written = i.written;
    })
  ]

  All-middle {ℓ κ} :
      {A : Type ℓ} (P : A → Type κ) (xs : List A) (a : A) (ys : List A) → All P (xs ++ a ∷ ys) → P a
  All-middle P [] a ys (p, h) = p
  All-middle P (x ∷ xs) a ys (p, h) = All-middle P xs a ys h

  source_of-ne : (files : List Text) → source_of stringify relative files ≢ []
  unfolding generate_source join
  source_of-ne files e = ground arith

  write_source-current :
      (source : Text) (p : Plugin) → (write_source source p).current_source ≡ source
  write_source-current source p = elim (Bool-cases (source == p.current_source)) [
    | inl same ↦ rw same (sym ((text_beq_iff source p.current_source).0 same))
    | inr new ↦ rw new
  ]

  write_source-file :
      (source : Text) (p : Plugin)
      → source ≢ []
      → (p.current_source ≢ [] → p.file ≡ some p.current_source)
      → (write_source source p).file ≡ some source
  write_source-file source p ne h = elim (Bool-cases (source == p.current_source)) [
    | inl same ↦
        let e = (text_beq_iff source p.current_source).0 same in
        rw same (h (λ none_yet. ne (e ∙ none_yet)) ∙ ap some (sym e))
    | inr new ↦ rw new
  ]

  write_source-queued :
      (source : Text) (p : Plugin) → (write_source source p).refresh_queued ≡ p.refresh_queued
  write_source-queued source p = elim (Bool-cases (source == p.current_source)) [
    | inl same ↦ rw same
    | inr new ↦ rw new
  ]

  follow_up-IsCurrent :
      (p : Plugin) (files : List Text)
      → (p.refresh_queued ≡ false → p.file ≡ some (source_of stringify relative files))
      → (p.current_source ≢ [] → p.file ≡ some p.current_source)
      → IsCurrent (record {
        plugin = follow_up (record p { refresh_in_flight = false });
        files = files;
        findable = files ∷ [];
      })
  unfolding follow_up refresh
  follow_up-IsCurrent p files h k = elim (Bool-cases p.refresh_queued) [
    | inl queued ↦ rw queued (record {
      running = λ _ _. (refl, tt);
      settled = λ e. absurd (ground (arith, e));
      written = k;
    })
    | inr quiet ↦ rw quiet (record {
      running = λ e. absurd (ground (arith, e));
      settled = λ _. (refl, h quiet);
      written = k;
    })
  ]

  finish_refresh-IsCurrent :
      (w : World) (files : List Text)
      → IsCurrent w
      → w.plugin.refresh_in_flight ≡ true
      → (w.plugin.refresh_queued ≡ false → files ≡ w.files)
      → IsCurrent (record {
        plugin = finish_refresh (source_of stringify relative files) w.plugin;
        files = w.files;
        findable = w.files ∷ [];
      })
  unfolding finish_refresh
  finish_refresh-IsCurrent w files i running h =
      let source = source_of stringify relative files in
      let file = write_source-file source w.plugin (source_of-ne files) i.written in
      follow_up-IsCurrent (write_source source w.plugin) w.files
        (λ quiet.
          file
          ∙ ap (λ f. some (source_of stringify relative f))
              (h (sym (write_source-queued source w.plugin) ∙ quiet)))
        (λ _. file ∙ ap some (sym (write_source-current source w.plugin)))

  Step-IsCurrent : {v w : World} → IsCurrent v → Step v w → IsCurrent w
  Step-IsCurrent {v} i (changed files) = refresh-IsCurrent v files (files ∷ v.findable) i
  Step-IsCurrent {v} i rescanned = refresh-IsCurrent v v.files v.findable i
  Step-IsCurrent {v} i (found later files earlier running e) =
      finish_refresh-IsCurrent v files i running (λ quiet.
        All-middle (λ f. f ≡ v.files) later files earlier
          (subst (All (λ f. f ≡ v.files)) e (i.running running quiet)))

  -- However changes of the directory, rescans and the ends of discoveries interleave, where
  -- discoveries and writes succeed and every change is reported: when no refresh runs, none is
  -- queued and the generated file is the source of the files that are there. While one runs with
  -- none queued, it can find no other files than those.
  pub Reach-IsCurrent : {w : World} → Reach w → IsCurrent w
  unfolding refresh
  Reach-IsCurrent (built files) = record {
    running = λ _ _. (refl, tt);
    settled = λ e. absurd (ground (arith, e));
    written = λ ne. absurd (ne refl);
  }
  Reach-IsCurrent (next r st) = Step-IsCurrent (Reach-IsCurrent r) st

-- ===== src/Sandbox/Fresh.antt =====
-- App.tsx: a load that is late changes nothing.
use mathlib.Core.Option.{some-injective}
use agentchat_take_home.Base.{
  ℕ, suc, ◌≤◌, ◌<◌, Text, codes, true, false, [], ◌++◌, Option, none, some, ◌≡◌, ◌≢◌, refl, sym, ap,
  ◌∙◌, arith, Option-cases, inl, inr, nat_eq, text_eq, is_some, if◌then◌else◌,
}
use agentchat_take_home.JsMap
use agentchat_take_home.JsMap.{Map}
use agentchat_take_home.JsMap.Laws.{get-set_self, get-set_cases, get-delete_cases}
use agentchat_take_home.Sandbox.{
  Loaded, Renderer, blank, key_of, set_error, finish, Load, Preview, cancel_load, cancel, start,
  run_effect, mounted, next_run, show_path, settle_load, settle,
}

module _ {ℓ} {A : Type ℓ} (modules : Map Text A) where
  abbrev shown_from : Text → Option A → Option Loaded → Renderer
  shown_from path none answer =
      set_error (codes "No component found at " ++ path ++ codes ".tsx") blank
  shown_from path (some loader) none = blank
  shown_from path (some loader) (some result) = finish path result blank

  -- What is shown for a path, before or after its loader is settled.
  abbrev pub shown : Text → Option Loaded → Renderer
  shown path answer = shown_from path (JsMap.get (key_of path) modules) answer

  -- The runs of a mounted component, with the path of the last rendering and what the loader for
  -- this rendering was settled with.
  pub data Runs : Text → Option Loaded → Preview → Type ℓ where
    first : (path : Text) → Runs path none (mounted modules path)
    again :
        {path : Text} {answer : Option Loaded} {p : Preview} (other : Text)
        → Runs path answer p
        → Runs other none (show_path modules other p)
    answered :
        {path : Text} {p : Preview} (result : Loaded)
        → Runs path none p
        → is_some (JsMap.get p.current p.loads) ≡ true
        → Runs path (some result) (settle p.current result p)
    late :
        {path : Text} {answer : Option Loaded} {p : Preview} (id : ℕ) (result : Loaded)
        → Runs path answer p
        → id ≢ p.current
        → Runs path answer (settle id result p)

  -- All runs but the last are cancelled, and the last one, where it waits, has the path.
  record IsFresh (path : Text) (answer : Option Loaded) (p : Preview) : Type ℓ where
    fits : p.renderer ≡ shown path answer
    known : (id : ℕ) (l : Load) → JsMap.get id p.loads ≡ some l → id ≤ p.current
    stale :
        (id : ℕ) (l : Load) → JsMap.get id p.loads ≡ some l → id ≢ p.current → l.cancelled ≡ true
    live :
        (l : Load)
        → JsMap.get p.current p.loads ≡ some l
        → (l ≡ record { path = path; cancelled = false })
          × is_some (JsMap.get (key_of path) modules) ≡ true

  -- No run is live.
  abbrev AllCancelled : ℕ → Map ℕ Load → Type 0
  AllCancelled n loads =
      (id : ℕ) (l : Load) → JsMap.get id loads ≡ some l → (l.cancelled ≡ true) × (id < n)

  start-IsFresh :
      (path : Text) (p : Preview) (loader : Option A)
      → JsMap.get (key_of path) modules ≡ loader
      → AllCancelled p.current p.loads
      → IsFresh path none (start modules path loader p)
  start-IsFresh path p none e h = record {
    fits = rw e refl;
    known = λ id l g. omega (arith, (h id l g).1);
    stale = λ id l g n. (h id l g).0;
    live = λ l g. absurd (omega (arith, (h p.current l g).1));
  }
  start-IsFresh path p (some loader) e h = record {
    fits = rw e refl;
    known = λ id l g. elim (get-set_cases p.current id _ l p.loads g) [
      | inl (eq, v) ↦ omega (arith, eq)
      | inr (ne, old) ↦ omega (arith, (h id l old).1)
    ];
    stale = λ id l g n. elim (get-set_cases p.current id _ l p.loads g) [
      | inl (eq, v) ↦ absurd (n (sym eq))
      | inr (ne, old) ↦ (h id l old).0
    ];
    live = λ l g. (some-injective l _ (sym g ∙ get-set_self p.current _ p.loads), rw e refl);
  }

  cancel-AllCancelled :
      (path : Text) (answer : Option Loaded) (p : Preview)
      → IsFresh path answer p
      → AllCancelled (suc p.current) (cancel p).loads
  unfolding cancel
  cancel-AllCancelled path answer p f id l g = elim (Option-cases (JsMap.get p.current p.loads)) [
    | inl gone ↦
        let old : JsMap.get id p.loads ≡ some l =
          sym (ap (λ o. JsMap.get id (cancel_load p.current o p.loads)) gone) ∙ g in
        let apart : id ≢ p.current = λ eq. cc (gone, old, eq) in
        (f.stale id l old apart, omega (arith, f.known id l old))
    | inr (c, waits) ↦
        elim (get-set_cases p.current id (record c { cancelled = true }) l p.loads
          (sym (ap (λ o. JsMap.get id (cancel_load p.current o p.loads)) waits) ∙ g)) [
            | inl (eq, v) ↦ (sym (ap (λ (x : Load). x.cancelled) v), omega (arith, eq))
            | inr (ne, old) ↦
                (f.stale id l old (λ eq. ne (sym eq)), omega (arith, f.known id l old))
          ]
  ]

  -- The two ways in which a run ends: it is the last one, or it is cancelled.
  delete-IsFresh :
      (path : Text) (answer next : Option Loaded) (p : Preview) (id : ℕ) (r : Renderer)
      → r ≡ shown path next
      → IsFresh path answer p
      → IsFresh path next (record p { renderer = r; loads = JsMap.delete id p.loads })
  delete-IsFresh path answer next p id r e f = record {
    fits = e;
    known = λ j l g. f.known j l (get-delete_cases id j l p.loads g).1;
    stale = λ j l g n. f.stale j l (get-delete_cases id j l p.loads g).1 n;
    live = λ l g. f.live l (get-delete_cases id p.current l p.loads g).1;
  }

  settle_late-IsFresh :
      (path : Text) (answer : Option Loaded) (p : Preview) (id : ℕ) (result : Loaded)
      (o : Option Load)
      → JsMap.get id p.loads ≡ o
      → id ≢ p.current
      → IsFresh path answer p
      → IsFresh path answer (settle_load o id result p)
  settle_late-IsFresh path answer p id result none e n f = f
  settle_late-IsFresh path answer p id result (some l) e n f =
      delete-IsFresh path answer answer p id _
        (ap (λ b. if b then p.renderer else finish l.path result p.renderer) (f.stale id l e n)
          ∙ f.fits)
        f

  finish-shown :
      (path : Text) (result : Loaded) (o : Option A)
      → is_some o ≡ true
      → finish path result (shown_from path o none) ≡ shown_from path o (some result)
  finish-shown path result none h = cc (h)
  finish-shown path result (some loader) h = refl

  settle_last-IsFresh :
      (path : Text) (p : Preview) (result : Loaded) (o : Option Load)
      → JsMap.get p.current p.loads ≡ o
      → is_some o ≡ true
      → IsFresh path none p
      → IsFresh path (some result) (settle_load o p.current result p)
  settle_last-IsFresh path p result none e h f = cc (h)
  settle_last-IsFresh path p result (some l) e h f =
      let (same, has) = f.live l e in
      delete-IsFresh path none (some result) p p.current _
        (ap (λ (x : Load). if x.cancelled then p.renderer else finish x.path result p.renderer) same
          ∙ ap (finish path result) f.fits
          ∙ finish-shown path result (JsMap.get (key_of path) modules) has)
        f

  Runs-IsFresh :
      {path : Text} {answer : Option Loaded} {p : Preview}
      → Runs path answer p
      → IsFresh path answer p
  unfolding run_effect show_path settle cancel
  Runs-IsFresh (first path) =
      start-IsFresh path (record { renderer = blank; loads = []; current = 0 })
        (JsMap.get (key_of path) modules) refl (λ id l g. unfold JsMap.get in cc (g))
  Runs-IsFresh (again {path} {answer} {p} other r) =
      start-IsFresh other (next_run (cancel p)) (JsMap.get (key_of other) modules) refl
        (cancel-AllCancelled path answer p (Runs-IsFresh r))
  Runs-IsFresh (answered {path} {p} result r h) =
      settle_last-IsFresh path p result (JsMap.get p.current p.loads) refl h (Runs-IsFresh r)
  Runs-IsFresh (late {path} {answer} {p} id result r n) =
      settle_late-IsFresh path answer p id result (JsMap.get id p.loads) refl n (Runs-IsFresh r)

  -- What is shown depends on the path of the last rendering and on what its own loader was settled
  -- with, in whatever order the loaders of this and of earlier paths are settled.
  pub Runs-shown :
      {path : Text} {answer : Option Loaded} {p : Preview}
      → Runs path answer p
      → p.renderer ≡ shown path answer
  Runs-shown r = (Runs-IsFresh r).fits

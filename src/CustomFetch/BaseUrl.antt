-- ===== src/CustomFetch/BaseUrl.antt =====
-- custom-fetch.ts: what `setBaseUrl` keeps of a url, and where `applyBaseUrl` puts it.
use agentchat_take_home.Base.{
  ℕ, zero, suc, Text, codes, false, [], ◌∷◌, ◌++◌, Option, some, ◌≡◌, ◌≢◌, refl, sym, ap, ◌∙◌,
  arith, replicate, Bool-cases, inl, inr, ◌==◌, nat_eq,
}
use agentchat_take_home.Strings.{starts_with, ends_with, backwards, drop_while_is, strip_last}
use agentchat_take_home.Strings.Laws.{backwards-append, backwards-backwards}
use agentchat_take_home.CustomFetch.Request.{
  Config, Input, text_input, set_base_url, apply_base_url, resolve_url,
}

drop_while_is-dropped : (c : ℕ) (s : Text) → (n : ℕ) × (s ≡ replicate n c ++ drop_while_is c s)
unfolding drop_while_is
drop_while_is-dropped c [] = (0, refl)
drop_while_is-dropped c (d ∷ s) = elim (Bool-cases (d == c)) [
  | inl same ↦ let (n, e) = drop_while_is-dropped c s in (suc n, rw same (ground (arith, e, same)))
  | inr other ↦ (0, rw other)
]

drop_while_is-first : (c : ℕ) (s : Text) → starts_with (c ∷ []) (drop_while_is c s) ≡ false
unfolding drop_while_is starts_with
drop_while_is-first c [] = refl
drop_while_is-first c (d ∷ s) = ground (arith, drop_while_is-first c s)

backwards-replicate : (n c : ℕ) → backwards (replicate n c) ≡ replicate n c
unfolding backwards
backwards-replicate zero c = refl
backwards-replicate (suc n) c = ap (λ l. l ++ c ∷ []) (backwards-replicate n c) ∙ last n c
  where
    last : (n c : ℕ) → replicate n c ++ c ∷ [] ≡ c ∷ replicate n c
    last zero c = refl
    last (suc n) c = ap (◌∷◌ c) (last n c)

-- Only units `c` at the end are dropped, and all of them.
strip_last_lem :
    (c : ℕ) (s : Text)
    → ((n : ℕ) × (s ≡ strip_last c s ++ replicate n c))
      × (ends_with (c ∷ []) (strip_last c s) ≡ false)
unfolding strip_last ends_with backwards
strip_last_lem c s =
    let (n, e) = drop_while_is-dropped c (backwards s) in
    (
      (
        n,
        sym (backwards-backwards s)
            ∙ ap backwards e
            ∙ backwards-append (replicate n c) (drop_while_is c (backwards s))
            ∙ ap (◌++◌ (backwards (drop_while_is c (backwards s)))) (backwards-replicate n c),
      ),
      ap (starts_with (c ∷ [])) (backwards-backwards (drop_while_is c (backwards s)))
          ∙ drop_while_is-first c (backwards s),
    )

module _ (parse_url : Text → Option Text) where
  apply_base_url-relative :
      (base path : Text)
      → base ≢ []
      → apply_base_url parse_url (some base) (text_input (b'/' ∷ path))
        ≡ some (text_input (base ++ b'/' ∷ path))
  unfolding apply_base_url resolve_url starts_with
  apply_base_url-relative [] path h = absurd (h refl)
  apply_base_url-relative (b ∷ base) path h = refl

  apply_base_url-other :
      (base : Text) (input : Input)
      → starts_with (codes "/") (resolve_url input) ≡ false
      → apply_base_url parse_url (some base) input ≡ some input
  unfolding apply_base_url
  apply_base_url-other [] input h = refl
  apply_base_url-other (b ∷ base) input h = rw h

  -- The base that `setBaseUrl` keeps of a url is the url without the slashes at its end. Where it
  -- is not empty, it is put in front of an input that is a path, with the slash of the path between
  -- them, and an input whose url does not start with a slash is left as it is.
  pub set_base_url-apply_base_url :
      (u : ℕ) (url path : Text) (input : Input) (c : Config)
      → strip_last b'/' (u ∷ url) ≢ []
      → starts_with (codes "/") (resolve_url input) ≡ false
      → let kept = (set_base_url (some (u ∷ url)) c).base_url in
        let base = strip_last b'/' (u ∷ url) in
        ((n : ℕ) × (u ∷ url ≡ base ++ replicate n b'/'))
        × (ends_with (codes "/") base ≡ false)
        × (apply_base_url parse_url kept (text_input (b'/' ∷ path))
            ≡ some (text_input (base ++ b'/' ∷ path)))
        × (apply_base_url parse_url kept input ≡ some input)
  unfolding set_base_url
  set_base_url-apply_base_url u url path input c h k =
      let (dropped, last) = strip_last_lem b'/' (u ∷ url) in
      (
        dropped,
        last,
        apply_base_url-relative (strip_last b'/' (u ∷ url)) path h,
        apply_base_url-other (strip_last b'/' (u ∷ url)) input k,
      )

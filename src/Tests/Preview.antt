-- ===== src/Tests/Preview.antt =====
-- A change of the directory while a refresh runs.
use agentchat_take_home.Base.{Text, codes, [], ◌∷◌, ◌++◌, refl, text_beq}
use agentchat_take_home.Preview.{
  idle, refresh, finish_refresh, follow_up, source_of, generate_source,
}
use agentchat_take_home.Sse.Lines.{join}
use agentchat_take_home.Preview.Settled
use agentchat_take_home.Preview.Settled.{World, Step, Reach, IsCurrent, Reach-IsCurrent}

abbrev quote : Text → Text
quote t = b'"' ∷ t ++ b'"' ∷ []

abbrev relative : Text → Text
relative f = codes "../" ++ f

abbrev card : Text
card = codes "src/components/mockups/Card.tsx"

abbrev start : World
start = record { plugin = refresh idle; files = []; findable = [] ∷ [] }

-- A file is added while the first discovery runs.
abbrev added : World
added = record {
  plugin = refresh start.plugin;
  files = card ∷ [];
  findable = (card ∷ []) ∷ [] ∷ [];
}

-- The first discovery did not find it; the second one does.
abbrev missed : World
missed = record {
  plugin = finish_refresh (source_of quote relative []) added.plugin;
  files = card ∷ [];
  findable = (card ∷ []) ∷ [];
}

abbrev settled : World
settled = record {
  plugin = finish_refresh (source_of quote relative (card ∷ [])) missed.plugin;
  files = card ∷ [];
  findable = (card ∷ []) ∷ [];
}

reached : Reach quote relative settled
unfolding refresh finish_refresh follow_up generate_source text_beq join
reached =
    Settled.next
      (Settled.next (Settled.next (Settled.built []) (Settled.changed (card ∷ [])))
        (Settled.found ((card ∷ []) ∷ []) [] [] refl refl))
      (Settled.found [] (card ∷ []) [] refl refl)

Reach-IsCurrent_example : IsCurrent quote relative settled
Reach-IsCurrent_example = Reach-IsCurrent quote relative reached

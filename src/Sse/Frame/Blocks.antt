-- ===== src/Sse/Frame/Blocks.antt =====
-- Frames and comments as the server writes them, one behind the other, with blank lines.
use agentchat_take_home.Base.{
  ℕ, Text, codes, List, [], ◌∷◌, ◌++◌, map, Option, none, some, ◌≢◌, arith, All, All-append, inl,
}
use agentchat_take_home.Types.Json.{Json, Number}
use agentchat_take_home.Sse.Lines.{split, join}
use agentchat_take_home.Sse.Buffer.Blocks.{IsFilled}
use agentchat_take_home.Sse.Buffer.Chunks.{NoDoubleCr}
use agentchat_take_home.Sse.Buffer.Cut.{blank}
use agentchat_take_home.Sse.Frame.Print.{
  Without, IsLine, id_lines, frame_lines, join-Without, append-ne, append-IsLine,
}
use agentchat_take_home.Sse.Frame.RoundTrip.{IdReads, frame_lines-IsLine}

-- What stands between two blank lines: a comment alone, as the server's heartbeat, or comments
-- with the lines of an id, which stands for a number, of an event and of a payload.
pub data Block : Type 0 where
  note : Text → Block
  printed : (comments : List Text) (id : Option Text) (n : Option ℕ) (name payload : Text) → Block

abbrev pub block_lines : Block → List Text
block_lines (note t) = (b':' ∷ t) ∷ []
block_lines (printed comments id n name payload) = frame_lines comments id name payload

-- The text of a stream that breaks off inside `partial`.
abbrev pub print_blocks : List Block → Text → Text
print_blocks [] partial = partial
print_blocks (b ∷ bs) partial = join (block_lines b) ++ blank (print_blocks bs partial)

map_filled :
    (f : Text → Text) → ((s : Text) → f s ≢ []) → (ls : List Text) → All (λ l. l ≢ []) (map f ls)
map_filled f h [] = tt
map_filled f h (l ∷ ls) = (h l, map_filled f h ls)

lines-IsFilled : (ls : List Text) → All (λ l. l ≢ []) ls → All IsLine ls → All IsFilled ls
lines-IsFilled [] h k = tt
lines-IsFilled (l ∷ ls) (p, h) ((w, v), k) = ((p, w), lines-IsFilled ls h k)

id_lines-filled : (id : Option Text) → All (λ l. l ≢ []) (id_lines id)
id_lines-filled none = tt
id_lines-filled (some id) = ((λ e. cc), tt)

block_lines-filled : (b : Block) → All (λ l. l ≢ []) (block_lines b)
block_lines-filled (note t) = ((λ e. cc), tt)
block_lines-filled (printed comments id n name payload) =
    All-append (λ l. l ≢ []) (map (◌∷◌ b':') comments) _ (map_filled _ (λ s e. cc) comments)
      (All-append (λ l. l ≢ []) (id_lines id) _ (id_lines-filled id)
        ((λ e. cc), map_filled (◌++◌ (codes "data: ")) (λ s e. cc) (split payload)))

pub block_lines-ne : (b : Block) → block_lines b ≢ []
block_lines-ne (note t) = λ e. cc
block_lines-ne (printed comments id n name payload) =
    append-ne (map (◌∷◌ b':') comments) _ (append-ne (id_lines id) _ (λ e. cc))

pub NoDoubleCr-Without : (t : Text) → Without b'\r' t → NoDoubleCr t
NoDoubleCr-Without [] h = tt
NoDoubleCr-Without (c ∷ []) h = tt
NoDoubleCr-Without (c ∷ d ∷ t) (p, h) = (inl p, NoDoubleCr-Without (d ∷ t) h)

module _ (to_number : Text → Number) (parse_json : Text → Option Json) where
  abbrev pub IsBlock : Block → Type 0
  IsBlock (note t) = IsLine t
  IsBlock (printed comments id n name payload) =
      All IsLine comments × IdReads to_number parse_json id n × IsLine name × Without b'\r' payload

  block-IsLine : (b : Block) → IsBlock b → All IsLine (block_lines b)
  block-IsLine (note t) h = (append-IsLine (b':' ∷ []) t (omega arith) h, tt)
  block-IsLine (printed comments id n name payload) (c, h, k, p) =
      frame_lines-IsLine to_number parse_json comments id n name payload c h k p

  pub block-IsFilled : (b : Block) → IsBlock b → All IsFilled (block_lines b)
  block-IsFilled b h = lines-IsFilled (block_lines b) (block_lines-filled b) (block-IsLine b h)

  pub print_blocks-Without :
      (bs : List Block) (partial : Text)
      → All IsBlock bs
      → Without b'\r' partial
      → Without b'\r' (print_blocks bs partial)
  print_blocks-Without [] partial h w = w
  print_blocks-Without (b ∷ bs) partial (p, h) w =
      All-append (λ d. d ≢ b'\r') (join (block_lines b)) _
        (join-Without (block_lines b) (block-IsLine b p))
        (omega arith, (omega arith, print_blocks-Without bs partial h w))

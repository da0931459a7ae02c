-- ===== src/Sse/Frame/RoundTrip.antt =====
-- `parseFrame` on frames as the server writes them.
use agentchat_take_home.Base.{
  ℕ, Text, codes, List, [], ◌∷◌, ◌++◌, append-nil, append_assoc, map, Option, none, some, ◌≡◌, refl,
  sym, ap, ◌∙◌, ◌≢◌, arith, All, All-append, text_beq, get_or,
}
use agentchat_take_home.Types.Json.{Json, Number, finite}
use agentchat_take_home.Types.Event.{SseEventType, SseFrame, event_name, event_of}
use agentchat_take_home.Sse.Lines.{normalize, split, join, index_of}
use agentchat_take_home.Sse.Frame.Print.{
  Without, IsLine, id_lines, frame_lines, print_frame, event_of-event_name, normalize_of_Without,
  split-join, split-cons, join-split, split-IsLine, All-newline, join-Without, append-IsLine,
  comments-IsLine, data-IsLine, event_name-IsLine, append-ne,
}
use agentchat_take_home.Sse.Frame.{
  Fields, no_fields, read_line, read_lines, read_field, split_field, strip_space, finish,
  with_event, parse_frame,
}

-- The lines of the loop, one kind at a time.
module _ (to_number : Text → Number) (parse_json : Text → Option Json) where
  read_lines_comments :
      (f : Fields) (comments ls : List Text)
      → read_lines to_number parse_json f (map (◌∷◌ b':') comments ++ ls)
        ≡ read_lines to_number parse_json f ls
  unfolding read_lines read_line
  read_lines_comments f [] ls = refl
  read_lines_comments f (c ∷ comments) ls = read_lines_comments f comments ls

  read_lines_nil : (f : Fields) → read_lines to_number parse_json f [] ≡ f
  unfolding read_lines
  read_lines_nil f = refl

  read_line_data :
      (f : Fields) (s : Text)
      → read_line to_number parse_json f (codes "data: " ++ s)
        ≡ record f { data_parts = f.data_parts ++ s ∷ [] }
  unfolding read_line split_field strip_space index_of read_field text_beq
  read_line_data f s = refl

  read_line_event :
      (f : Fields) (s : Text)
      → read_line to_number parse_json f (codes "event: " ++ s) ≡ record f { event = some s }
  unfolding read_line split_field strip_space index_of read_field text_beq
  read_line_event f s = refl

  read_line_id :
      (f : Fields) (s : Text) (n : ℕ)
      → to_number s ≡ finite n
      → read_line to_number parse_json f (codes "id: " ++ s) ≡ record f { id = some n }
  unfolding read_line split_field strip_space index_of read_field text_beq
  read_line_id f s n h = rw h

  read_lines_data :
      (f : Fields) (ls : List Text)
      → read_lines to_number parse_json f (map (◌++◌ (codes "data: ")) ls)
        ≡ record f { data_parts = f.data_parts ++ ls }
  unfolding read_lines
  read_lines_data f [] = rw append-nil
  read_lines_data f (l ∷ ls) =
      ap (λ g. read_lines to_number parse_json g (map (◌++◌ (codes "data: ")) ls))
        (read_line_data f l)
      ∙ read_lines_data (record f { data_parts = f.data_parts ++ l ∷ [] }) ls
      ∙ ap (λ ps. record f { data_parts = ps }) (append_assoc f.data_parts (l ∷ []) ls)

  -- The number that the id line stands for.
  abbrev pub IdReads : Option Text → Option ℕ → Type 0
  IdReads none n = n ≡ none
  IdReads (some id) n = (m : ℕ) × (n ≡ some m) × (to_number id ≡ finite m) × IsLine id

  read_lines_body :
      (n : Option ℕ) (name payload : Text)
      → read_lines to_number parse_json
          (record { id = n; event = none; data_parts = [] })
          ((codes "event: " ++ name) ∷ map (◌++◌ (codes "data: ")) (split payload))
        ≡ record { id = n; event = some name; data_parts = split payload }
  unfolding read_lines
  read_lines_body n name payload =
      ap (λ g. read_lines to_number parse_json g (map (◌++◌ (codes "data: ")) (split payload)))
        (read_line_event (record { id = n; event = none; data_parts = [] }) name)
      ∙ read_lines_data (record { id = n; event = some name; data_parts = [] }) (split payload)

  read_lines_frame :
      (comments : List Text) (id : Option Text) (n : Option ℕ) (name payload : Text)
      → IdReads id n
      → read_lines to_number parse_json no_fields (frame_lines comments id name payload)
        ≡ record { id = n; event = some name; data_parts = split payload }
  unfolding read_lines
  read_lines_frame comments none n name payload h =
      read_lines_comments no_fields comments _ ∙ rw h (read_lines_body none name payload)
  read_lines_frame comments (some id) n name payload (m, e, reads, _) =
      read_lines_comments no_fields comments _
      ∙ rw e (
          ap
            (λ g.
              read_lines to_number parse_json g
                ((codes "event: " ++ name) ∷ map (◌++◌ (codes "data: ")) (split payload)))
            (read_line_id no_fields id m reads)
          ∙ read_lines_body (some m) name payload)

  finish-split :
      (n : Option ℕ) (name payload : Text)
      → finish to_number parse_json n (some name) (split payload)
        ≡ with_event to_number parse_json n payload (event_of name)
  unfolding finish
  finish-split n name payload =
      let (l, ls, e) = split-cons payload in
      rw e (
        ap (λ t. with_event to_number parse_json n t (event_of name))
          (ap join (sym e) ∙ join-split payload))

  id_lines-IsLine : (id : Option Text) (n : Option ℕ) → IdReads id n → All IsLine (id_lines id)
  id_lines-IsLine none n h = tt
  id_lines-IsLine (some id) n (m, e, reads, l) =
      (append-IsLine (codes "id: ") id (omega arith) l, tt)

  pub frame_lines-IsLine :
      (comments : List Text) (id : Option Text) (n : Option ℕ) (name payload : Text)
      → All IsLine comments
      → IdReads id n
      → IsLine name
      → Without b'\r' payload
      → All IsLine (frame_lines comments id name payload)
  frame_lines-IsLine comments id n name payload c h k p =
      All-append IsLine (map (◌∷◌ b':') comments) _ (comments-IsLine comments c) (
        All-append IsLine (id_lines id) _ (id_lines-IsLine id n h) (
          append-IsLine (codes "event: ") name (omega arith) k,
          data-IsLine (split payload) (split-IsLine payload p),
        ))

  abbrev finish_fields : Fields → Option SseFrame
  finish_fields f = finish to_number parse_json f.id f.event f.data_parts

  parse_frame-split :
      (t : Text)
      → parse_frame to_number parse_json t
        ≡ finish_fields (read_lines to_number parse_json no_fields (split (normalize t)))
  unfolding parse_frame
  parse_frame-split [] = unfold split normalize read_lines read_line finish in refl
  parse_frame-split (c ∷ t) = refl

  parse_frame-join :
      (ls : List Text)
      → ls ≢ []
      → All IsLine ls
      → parse_frame to_number parse_json (join ls)
        ≡ finish_fields (read_lines to_number parse_json no_fields ls)
  parse_frame-join [] ne h = absurd (ne refl)
  parse_frame-join (l ∷ ls) ne h =
      parse_frame-split (join (l ∷ ls))
      ∙ ap (λ t. finish_fields (read_lines to_number parse_json no_fields t))
          (ap split (normalize_of_Without _ (join-Without (l ∷ ls) h))
            ∙ split-join l ls (All-newline (l ∷ ls) h))

  -- A comment alone is no frame.
  pub parse_frame-comment :
      (t : Text) → IsLine t → parse_frame to_number parse_json (join ((b':' ∷ t) ∷ [])) ≡ none
  unfolding finish
  parse_frame-comment t h =
      parse_frame-join ((b':' ∷ t) ∷ []) (λ e. cc) (comments-IsLine (t ∷ []) (h, tt))
      ∙ ap finish_fields (read_lines_comments no_fields (t ∷ []) [] ∙ read_lines_nil no_fields)

  pub print_frame-parsed :
      (comments : List Text) (id : Option Text) (n : Option ℕ) (name payload : Text)
      → All IsLine comments
      → IdReads id n
      → IsLine name
      → Without b'\r' payload
      → parse_frame to_number parse_json (print_frame comments id name payload)
        ≡ with_event to_number parse_json n payload (event_of name)
  print_frame-parsed comments id n name payload c h k p =
      parse_frame-join (frame_lines comments id name payload)
        (append-ne (map (◌∷◌ b':') comments) _ (append-ne (id_lines id) _ (λ e. cc)))
        (frame_lines-IsLine comments id n name payload c h k p)
      ∙ ap finish_fields (read_lines_frame comments id n name payload h)
      ∙ finish-split n name payload

  -- What the server prints for an event of the protocol is parsed back: the sequence number of
  -- the id line, or 0 where there is none, the event, and the JSON value of the payload, which may
  -- span lines. Comment lines in front of it are passed over. The payload holds no carriage
  -- return, and the comments and the id hold no line break.
  pub parse_frame-print_frame :
      (comments : List Text) (id : Option Text) (n : Option ℕ) (event : SseEventType)
      (payload : Text) (value : Json)
      → All IsLine comments
      → IdReads id n
      → Without b'\r' payload
      → parse_json payload ≡ some value
      → parse_frame to_number parse_json (print_frame comments id (event_name event) payload)
        ≡ some (record { seq = get_or n 0; event = event; payload = value })
  parse_frame-print_frame comments id n event payload value c h p e =
      print_frame-parsed comments id n (event_name event) payload c h (event_name-IsLine event) p
      ∙ rw (event_of-event_name event, e)

  -- A frame whose event is not of the protocol is dropped, whatever its payload; so are the error
  -- frames that the server sends.
  pub parse_frame_unknown :
      (comments : List Text) (id : Option Text) (n : Option ℕ) (name payload : Text)
      → All IsLine comments
      → IdReads id n
      → IsLine name
      → Without b'\r' payload
      → event_of name ≡ none
      → parse_frame to_number parse_json (print_frame comments id name payload) ≡ none
  parse_frame_unknown comments id n name payload c h k p e =
      print_frame-parsed comments id n name payload c h k p ∙ rw e

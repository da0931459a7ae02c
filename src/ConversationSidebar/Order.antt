-- ===== src/ConversationSidebar/Order.antt =====
-- ConversationSidebar.tsx: the order of the conversations, where their dates are valid.
use mathlib.Core.List.{Perm}
use agentchat_take_home.Base.{
  ℕ, Text, Bool, not, select, ◌++◌, true, false, List, none, some, ◌≡◌, refl, sym, ap, arith, ◌⊎◌,
  inl, inr, All, leb, get_or, is_some, subst,
}
use agentchat_take_home.Sort.Laws.{IsPreorder, IsSorted, sort-IsSorted, sort-perm, sort-agree}
use agentchat_take_home.Sort.Split.{
  All-selected, select-IsSorted, IsSorted-coarser, split_of_IsSorted,
}
use agentchat_take_home.Types.Ui.{Conversation, Date}
use agentchat_take_home.ConversationSidebar.{has, later, flagged_first, precedes, sorted}

abbrev time : Conversation → ℕ
time c = get_or c.last_activity 0

later-time :
    (a b : Date) → is_some a ≡ true → is_some b ≡ true → later a b ≡ leb (get_or b 0) (get_or a 0)
later-time (some a) (some b) h k = refl
later-time none b h k = cc
later-time (some a) none h k = cc

flagged_first_total :
    (a b : Bool) (rest back : Bool)
    → (rest ≡ true) ⊎ (back ≡ true)
    → (flagged_first a b rest ≡ true) ⊎ (flagged_first b a back ≡ true)
flagged_first_total true true rest back h = h
flagged_first_total true false rest back h = inl refl
flagged_first_total false true rest back h = inr refl
flagged_first_total false false rest back h = h

flagged_first_trans :
    (a b c : Bool) (x y z : Bool)
    → (x ≡ true → y ≡ true → z ≡ true)
    → flagged_first a b x ≡ true
    → flagged_first b c y ≡ true
    → flagged_first a c z ≡ true
flagged_first_trans true true true x y z t h k = t h k
flagged_first_trans true _ false x y z t h k = refl
flagged_first_trans true false true x y z t h k = cc (k)
flagged_first_trans false true c x y z t h k = cc (h)
flagged_first_trans false false true x y z t h k = cc (k)
flagged_first_trans false false false x y z t h k = t h k

flagged_first_front : (a b rest : Bool) → flagged_first a b rest ≡ true → b ≡ true → a ≡ true
flagged_first_front true b rest h k = refl
flagged_first_front false true rest h k = h
flagged_first_front false false rest h k = k

flagged_first_same :
    (v a b rest : Bool) → a ≡ v → b ≡ v → flagged_first a b rest ≡ true → rest ≡ true
flagged_first_same v true true rest e f h = h
flagged_first_same v false false rest e f h = h
flagged_first_same v true false rest e f h = cc (e, f)
flagged_first_same v false true rest e f h = cc (e, f)

not-true : (b : Bool) → not b ≡ true → b ≡ false
not-true true h = sym h
not-true false h = refl

abbrev pub latest_first : Conversation → Conversation → Bool
latest_first a b = leb (time b) (time a)

module _ (streaming_ids unread_ids : List Text) where
  -- The comparator on dates that are numbers.
  abbrev pub precedes_in_time : Conversation → Conversation → Bool
  precedes_in_time a b =
      flagged_first (has a.id streaming_ids) (has b.id streaming_ids)
        (flagged_first (has a.id unread_ids) (has b.id unread_ids) (leb (time b) (time a)))

  precedes_in_time-IsPreorder : IsPreorder precedes_in_time
  precedes_in_time-IsPreorder = record {
    total = λ a b. flagged_first_total (has a.id streaming_ids) (has b.id streaming_ids) _ _ (
        flagged_first_total (has a.id unread_ids) (has b.id unread_ids) (leb (time b) (time a))
          (leb (time a) (time b)) (ground arith));
    trans = λ a b c h k.
        flagged_first_trans (has a.id streaming_ids) (has b.id streaming_ids)
          (has c.id streaming_ids) _ _ _
          (flagged_first_trans (has a.id unread_ids) (has b.id unread_ids) (has c.id unread_ids)
            (leb (time b) (time a)) (leb (time c) (time b)) (leb (time c) (time a))
            (λ h k. ground (arith, h, k)))
          h k;
  }

  precedes-agree :
      (a b : Conversation)
      → is_some a.last_activity ≡ true
      → is_some b.last_activity ≡ true
      → precedes streaming_ids unread_ids a b ≡ precedes_in_time a b
  precedes-agree a b h k =
      ap
        (λ l.
          flagged_first (has a.id streaming_ids) (has b.id streaming_ids)
            (flagged_first (has a.id unread_ids) (has b.id unread_ids) l))
        (later-time a.last_activity b.last_activity h k)

  abbrev streams : Conversation → Bool
  streams c = has c.id streaming_ids

  abbrev unread : Conversation → Bool
  unread c = has c.id unread_ids

  abbrev unread_first : Conversation → Conversation → Bool
  unread_first a b = flagged_first (unread a) (unread b) (latest_first a b)

  -- The unread ones stand first, and both parts have the later activity first.
  abbrev pub IsUnreadFirst : List Conversation → Type 0
  IsUnreadFirst cs =
      (cs ≡ select unread cs ++ select (λ c. not (unread c)) cs)
      × IsSorted latest_first (select unread cs)
      × IsSorted latest_first (select (λ c. not (unread c)) cs)

  unread_first-IsUnreadFirst :
      (cs : List Conversation) → IsSorted unread_first cs → IsUnreadFirst cs
  unread_first-IsUnreadFirst cs h = (
    split_of_IsSorted unread_first unread
        (λ a b e f. flagged_first_front (unread a) (unread b) (latest_first a b) e f) cs h,
    IsSorted-coarser unread_first latest_first (λ (c : Conversation). unread c ≡ true) _
        (λ a b p q e. flagged_first_same true (unread a) (unread b) (latest_first a b) p q e)
        (All-selected unread cs) (select-IsSorted unread_first unread cs h),
    IsSorted-coarser unread_first latest_first (λ (c : Conversation). not (unread c) ≡ true) _
        (λ a b p q e.
          flagged_first_same false (unread a) (unread b) (latest_first a b) (not-true (unread a) p)
            (not-true (unread b) q) e)
        (All-selected (λ c. not (unread c)) cs)
        (select-IsSorted unread_first (λ c. not (unread c)) cs h),
  )

  in_time-parts :
      (cs : List Conversation)
      → IsSorted precedes_in_time cs
      → (cs ≡ select streams cs ++ select (λ c. not (streams c)) cs)
        × IsUnreadFirst (select streams cs)
        × IsUnreadFirst (select (λ c. not (streams c)) cs)
  in_time-parts cs h = (
    split_of_IsSorted precedes_in_time streams
        (λ a b e f. flagged_first_front (streams a) (streams b) (unread_first a b) e f) cs h,
    unread_first-IsUnreadFirst (select streams cs) (
        IsSorted-coarser precedes_in_time unread_first (λ (c : Conversation). streams c ≡ true) _
          (λ a b p q e. flagged_first_same true (streams a) (streams b) (unread_first a b) p q e)
          (All-selected streams cs) (select-IsSorted precedes_in_time streams cs h)),
    unread_first-IsUnreadFirst (select (λ c. not (streams c)) cs) (
        IsSorted-coarser precedes_in_time unread_first
          (λ (c : Conversation). not (streams c) ≡ true) _
          (λ a b p q e.
            flagged_first_same false (streams a) (streams b) (unread_first a b)
              (not-true (streams a) p) (not-true (streams b) q) e)
          (All-selected (λ c. not (streams c)) cs)
          (select-IsSorted precedes_in_time (λ c. not (streams c)) cs h)),
  )

  -- Where the dates of the last activities are valid, the sidebar has all conversations; the
  -- streaming ones stand in front of the others, in both parts the unread ones stand first, and
  -- among equals the later activity.
  pub sorted-parts :
      (conversations : List Conversation)
      → All (λ c. is_some c.last_activity ≡ true) conversations
      → let cs = sorted streaming_ids unread_ids conversations in
        Perm cs conversations
        × (cs ≡ select streams cs ++ select (λ c. not (streams c)) cs)
        × IsUnreadFirst (select streams cs)
        × IsUnreadFirst (select (λ c. not (streams c)) cs)
  unfolding sorted
  sorted-parts conversations h =
      let in_time : IsSorted precedes_in_time (sorted streaming_ids unread_ids conversations) =
        subst (IsSorted precedes_in_time)
          (sym (
            sort-agree (precedes streaming_ids unread_ids) precedes_in_time
              (λ (c : Conversation). is_some c.last_activity ≡ true) precedes-agree conversations
              h))
          (sort-IsSorted precedes_in_time precedes_in_time-IsPreorder conversations) in
      let (parts, first, rest) =
        in_time-parts (sorted streaming_ids unread_ids conversations) in_time in
      (sort-perm _ conversations, parts, first, rest)

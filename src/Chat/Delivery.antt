-- ===== src/Chat/Delivery.antt =====
-- A sent message and its answers, in whichever order they come.
use corpershub_application.Base.{
  [], none, some, ◌≡◌, Bool, true, not, arith, any, List, if_lem, is_nil, false, find, filter, ◌++◌,
  trim, String, ◌∷◌, ltb, any-append, ◌∙◌, refl, str_eq, text_eq, ap,
}
use corpershub_application.Session.{SessionUser}
use corpershub_application.Chat.{
  loaded, typed, sent, answered, refused, heard, step, Event, send_message, hear, Thread, has_id,
  Message, upsert_message, replace_first, count_words, is_own_copy, user_role,
}
use corpershub_application.Chat.Ordering.{
  upsert-distinct, is_distinct, str_eq_refl, is_distinct-snoc, is_distinct-filter, str_eq_comm,
}

-- What the identifiers of an event are: a loaded page has no duplicates, an optimistic identifier is
-- new.
unfoldable pub is_fresh : Event → Thread → Bool
is_fresh (loaded results) thread = is_distinct results
is_fresh (typed text) thread = true
is_fresh (sent optimistic_id now) thread = not (any (has_id optimistic_id) thread.messages)
is_fresh (answered optimistic_id response) thread = true
is_fresh (refused optimistic_id next_content) thread = true
is_fresh (heard payload) thread = true

abbrev MessagesDistinct : Thread → Type 0
MessagesDistinct thread = is_distinct thread.messages ≡ true

-- No event makes two messages of a conversation share an identifier, if those of a loaded page are
-- distinct and the optimistic identifier is new.
pub step_distinct :
    (user : SessionUser) (event : Event) (thread : Thread)
    → is_distinct thread.messages ≡ true
    → is_fresh event thread ≡ true
    → is_distinct (step user event thread).messages ≡ true
unfolding step send_message hear is_fresh
step_distinct user (loaded results) thread h f = f
step_distinct user (typed text) thread h f = h
step_distinct user (sent optimistic_id now) thread h f =
    if_lem MessagesDistinct (is_nil (trim thread.content)) (λ _. h)
      λ _.
        if_lem MessagesDistinct (ltb 100 (count_words (trim thread.content))) (λ _. h)
          λ _. is_distinct-snoc _ thread.messages h (ground arith)
step_distinct user (answered optimistic_id response) thread h f = upsert-distinct _ response _ h
step_distinct user (refused optimistic_id next_content) thread h f = is_distinct-filter _ _ h
step_distinct user (heard payload) thread h f = upsert-distinct _ payload _ h

module _ (ms : List Message) (x : Message) (p : Message → Bool) (absent : any p ms ≡ false) where
  -- A test that only a last element can pass.
  any_last : any p (ms ++ x ∷ []) ≡ p x
  any_last = any-append p ms (x ∷ []) ∙ ground arith

module _ (p : Message → Bool) (x : Message) where
  without_last :
      (ms : List Message)
      → any p ms ≡ false
      → p x ≡ true
      → filter (λ m. not (p m)) (ms ++ x ∷ []) ≡ ms
  without_last [] h e = ground arith
  without_last (m ∷ ms) h e = ground (arith, without_last ms)

  without_none :
      (ms : List Message)
      → any p ms ≡ false
      → p x ≡ false
      → filter (λ m. not (p m)) (ms ++ x ∷ []) ≡ ms ++ x ∷ []
  without_none [] h e = ground arith
  without_none (m ∷ ms) h e = ground (arith, without_none ms)

  replace_last :
      (next : Message) (ms : List Message)
      → any p ms ≡ false
      → p x ≡ true
      → replace_first p next (ms ++ x ∷ []) ≡ ms ++ next ∷ []
  replace_last next [] h e = ground arith
  replace_last next (m ∷ ms) h e = ground (arith, replace_last next ms)

  find_last : (ms : List Message) → any p ms ≡ false → p x ≡ true → find p (ms ++ x ∷ []) ≡ some x
  find_last [] h e = ground arith
  find_last (m ∷ ms) h e = ground (arith, find_last ms)

  find_nothing : (ms : List Message) → any p ms ≡ false → p x ≡ false → find p (ms ++ x ∷ []) ≡ none
  find_nothing [] h e = ground arith
  find_nothing (m ∷ ms) h e = ground (arith, find_nothing ms)

module _ (ms : List Message) (next : Message) (new : any (has_id next.id) ms ≡ false) where
  -- The optimistic copy at the end gives its place to the message.
  confirmed :
      (copy : Message)
      → any (has_id copy.id) ms ≡ false
      → has_id next.id copy ≡ false
      → upsert_message (ms ++ copy ∷ []) next (some copy.id) ≡ ms ++ next ∷ []
  unfolding upsert_message
  confirmed copy h e =
      rw
        (
          without_none (has_id next.id) copy ms new e,
          any_last ms copy (has_id copy.id) h,
          str_eq_refl copy.id,
        )
        (replace_last (has_id copy.id) copy next ms h (str_eq_refl copy.id))

  -- A message that stands at the end already stays there.
  stays : upsert_message (ms ++ next ∷ []) next none ≡ ms ++ next ∷ []
  unfolding upsert_message
  stays = rw (without_last (has_id next.id) next ms new (str_eq_refl next.id)) refl

  stays_for :
      (i : String)
      → any (has_id i) ms ≡ false
      → upsert_message (ms ++ next ∷ []) next (some i) ≡ ms ++ next ∷ []
  unfolding upsert_message
  stays_for i h = rw (without_last (has_id next.id) next ms new (str_eq_refl next.id), h) refl

-- The optimistic message.
abbrev copy : SessionUser → Thread → String → String → Message
copy user thread optimistic_id now = record {
  id = optimistic_id;
  sender = user.id;
  sender_role = user_role user.role;
  content = trim thread.content;
  created_at = now;
  pending = true;
}

module _ (user : SessionUser) (thread : Thread) (optimistic_id now : String) (message : Message)
    (not_empty : is_nil (trim thread.content) ≡ false)
    (not_long : ltb 100 (count_words (trim thread.content)) ≡ false)
    (new_copy : any (has_id optimistic_id) thread.messages ≡ false)
    (new : any (has_id message.id) thread.messages ≡ false)
    (apart : str_eq optimistic_id message.id ≡ false) (own : str_eq message.sender user.id ≡ true)
    (same : text_eq (trim thread.content) message.content ≡ true)
    (settled : message.pending ≡ false)
    (alone : any (is_own_copy message) thread.messages ≡ false) where
  sending :
      (step user (sent optimistic_id now) thread).messages
      ≡ thread.messages ++ copy user thread optimistic_id now ∷ []
  unfolding step send_message
  sending = rw (not_empty, not_long) refl

  own_copy : is_own_copy message (copy user thread optimistic_id now) ≡ true
  own_copy = rw (same, str_eq_comm user.id message.sender, own) refl

  own_message : is_own_copy message message ≡ false
  own_message = rw settled refl

  echoed :
      hear user message (thread.messages ++ copy user thread optimistic_id now ∷ [])
      ≡ thread.messages ++ message ∷ []
  unfolding hear
  echoed =
      rw
        (
          own,
          find_last (is_own_copy message) (copy user thread optimistic_id now) thread.messages alone
              own_copy,
        )
        (confirmed thread.messages message new (copy user thread optimistic_id now) new_copy apart)

  echoed_late :
      hear user message (thread.messages ++ message ∷ []) ≡ thread.messages ++ message ∷ []
  unfolding hear
  echoed_late =
      rw (own, find_nothing (is_own_copy message) message thread.messages alone own_message)
        (stays thread.messages message new)

  answer_first :
      (step user (heard message) (
        step user
          (answered optimistic_id message)
          (step user (sent optimistic_id now) thread))).messages
      ≡ thread.messages ++ message ∷ []
  unfolding step
  answer_first =
      rw
        (
          sending,
          confirmed thread.messages message new (copy user thread optimistic_id now) new_copy apart,
        )
        echoed_late

  echo_first :
      (step user
        (answered optimistic_id message)
        (step user (heard message) (step user (sent optimistic_id now) thread))).messages
      ≡ thread.messages ++ message ∷ []
  unfolding step
  echo_first = rw (sending, echoed) (stays_for thread.messages message new optimistic_id new_copy)

  -- A sent message of 1 to 100 words ends as one message at the end of the conversation, no longer
  -- pending, whichever comes first, the copy that the socket brings or the answer to the request. This
  -- is so where the two identifiers are new and apart, the sender is the user, and no other message of
  -- the user with that content is pending.
  pub delivered_once :
      ((step user (heard message) (
          step user
            (answered optimistic_id message)
            (step user (sent optimistic_id now) thread))).messages
        ≡ thread.messages ++ message ∷ [])
      × ((step user
            (answered optimistic_id message)
            (step user (heard message) (step user (sent optimistic_id now) thread))).messages
          ≡ thread.messages ++ message ∷ [])
  delivered_once = (answer_first, echo_first)

-- Where the request of a sent message fails, the conversation is as before, and the composer holds
-- the text again, trimmed. The message has 1 to 100 words and its optimistic identifier is new.
pub refused_restores :
    (user : SessionUser) (thread : Thread) (optimistic_id now : String)
    → is_nil (trim thread.content) ≡ false
    → ltb 100 (count_words (trim thread.content)) ≡ false
    → any (has_id optimistic_id) thread.messages ≡ false
    → step user
        (refused optimistic_id (trim thread.content))
        (step user (sent optimistic_id now) thread)
      ≡ record thread { content = trim thread.content }
unfolding step send_message
refused_restores user thread i now e f new =
    rw (e, f) (ap (λ ms. record thread { messages = ms; content = trim thread.content }) kept)
  where
    kept :
        filter (λ m. not (has_id i m)) (thread.messages ++ copy user thread i now ∷ [])
        ≡ thread.messages
    kept = without_last (has_id i) (copy user thread i now) thread.messages new (str_eq_refl i)

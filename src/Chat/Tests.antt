-- ===== src/Chat/Tests.antt =====
-- A concrete conversation, and the properties applied to it.
use corpershub_application.Base.{
  refl, filter, codes, Text, trim, split_spaces, ◌∷◌, false, drop_while, ◌≡◌, true, [], drop_end,
  some, is_space, text_eq, is_nil, ltb,
}
use corpershub_application.Fixtures.{ada}
use corpershub_application.Chat.{
  Message, Thread, chunk_message_content, step, count_words, refused, sent, heard, chunks, has_id,
  send_message, upsert_message, answered, content_words,
}
use corpershub_application.Chat.Ordering.{upsert_once, is_distinct, is_other}
use corpershub_application.Chat.Delivery.{step_distinct, is_fresh, refused_restores, delivered_once}

abbrev greeting : Message
greeting = record {
  id = "m1";
  sender = "u9";
  sender_role = "company";
  content = codes "Hello Ada";
  created_at = "09:00";
  pending = false;
}

abbrev reply : Message
reply = record greeting {
  id = "m2";
  sender = "u1";
  sender_role = "corper";
  content = codes "Good day";
  created_at = "09:01";
}

abbrev open_thread : Thread
open_thread = record { messages = greeting ∷ []; content = codes " Good day " }

send_test :
    (step ada (sent "temp:1" "09:02") open_thread).messages
    ≡ greeting ∷ record reply { id = "temp:1"; created_at = "09:02"; pending = true } ∷ []
unfolding step send_message trim count_words split_spaces drop_while drop_end is_space
send_test = refl

not_empty : is_nil (trim open_thread.content) ≡ false
unfolding trim drop_while drop_end is_space
not_empty = refl

not_long : ltb 100 (count_words (trim open_thread.content)) ≡ false
unfolding count_words split_spaces trim drop_while drop_end is_space
not_long = refl

same_content : text_eq (trim open_thread.content) reply.content ≡ true
unfolding trim drop_while drop_end is_space
same_content = refl

thread_distinct : is_distinct open_thread.messages ≡ true
unfolding is_distinct
thread_distinct = refl

fresh_copy : is_fresh (sent "temp:1" "09:02") open_thread ≡ true
unfolding is_fresh
fresh_copy = refl

upsert_once_example :
    (filter (has_id "m2") (upsert_message (greeting ∷ []) reply (some "temp:1")) ≡ reply ∷ [])
    × (filter
          (is_other reply (some "temp:1"))
          (upsert_message (greeting ∷ []) reply (some "temp:1"))
        ≡ filter (is_other reply (some "temp:1")) (greeting ∷ []))
upsert_once_example = upsert_once (greeting ∷ []) reply (some "temp:1")

step_distinct_example : is_distinct (step ada (sent "temp:1" "09:02") open_thread).messages ≡ true
step_distinct_example =
    step_distinct ada (sent "temp:1" "09:02") open_thread thread_distinct fresh_copy

delivered_once_example :
    ((step ada (heard reply) (
        step ada (answered "temp:1" reply) (step ada (sent "temp:1" "09:02") open_thread))).messages
      ≡ greeting ∷ reply ∷ [])
    × ((step ada
          (answered "temp:1" reply)
          (step ada (heard reply) (step ada (sent "temp:1" "09:02") open_thread))).messages
        ≡ greeting ∷ reply ∷ [])
delivered_once_example =
    delivered_once ada open_thread "temp:1" "09:02" reply not_empty not_long refl refl refl refl
      same_content refl refl

refused_restores_example :
    step ada
      (refused "temp:1" (trim open_thread.content))
      (step ada (sent "temp:1" "09:02") open_thread)
    ≡ record open_thread { content = trim open_thread.content }
refused_restores_example = refused_restores ada open_thread "temp:1" "09:02" not_empty not_long refl

abbrev three_words : Text
three_words = codes "one  two three"

has_words : is_nil (content_words three_words) ≡ false
unfolding split_spaces trim drop_while drop_end is_space
has_words = refl

chunk_test : chunk_message_content three_words 2 ≡ codes "one two" ∷ codes "three" ∷ []
unfolding chunk_message_content chunks split_spaces trim drop_while drop_end is_space
chunk_test = refl

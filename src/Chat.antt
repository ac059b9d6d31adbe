-- ===== src/Chat.antt =====
-- web/src/components/dashboard/chat-thread.tsx: the messages that a conversation shows, as the page
-- loads, sends and hears them. A socket's "typing" event changes nothing.
pub mod Ordering
pub mod Delivery
pub mod Wrapping
mod Tests
use corpershub_application.Base.{
  zero, ℕ, String, Text, Bool, Option, List, trim, if◌then◌else◌, ◌∷◌, some, map, ◌++◌, ◌&&◌,
  filter, str_eq, [], text_eq, is_nil, join_spaces, find, not, split_spaces, any, suc, ltb, length,
  none, take, true, drop,
}
use corpershub_application.Session.{admin, company, corper, UserRole, SessionUser}

pub record Message : Type 0 where
  pub id : String
  pub sender : String
  pub sender_role : String
  pub content : Text
  pub created_at : String
  pub pending : Bool

abbrev pub has_id : String → Message → Bool
has_id i message = str_eq message.id i

-- `updated[targetIndex] = nextMessage` at the first message with the id.
abbrev pub replace_first : (Message → Bool) → Message → List Message → List Message
replace_first p next [] = []
replace_first p next (message ∷ rest) =
    let left = replace_first p next rest in if p message then next ∷ rest else message ∷ left

abbrev pub place : Option String → Message → List Message → List Message
place none next messages = messages ++ next ∷ []
place (some i) next messages =
    if any (has_id i) messages
    then replace_first (has_id i) next messages
    else messages ++ next ∷ []

unfoldable pub upsert_message : List Message → Message → Option String → List Message
upsert_message messages next_message replace_id =
    let without_duplicate = filter (λ message. not (has_id next_message.id message)) messages in
    place replace_id next_message without_duplicate

unfoldable pub count_words : Text → ℕ
count_words content =
    let trimmed = trim content in if is_nil trimmed then 0 else length (split_spaces trimmed)

-- The slices of the loop, which makes at most a round for each word.
unfoldable pub chunks : ℕ → ℕ → List Text → List (List Text)
chunks n size [] = []
chunks zero size (word ∷ words) = []
chunks (suc n) size (word ∷ words) =
    take size (word ∷ words) ∷ chunks n size (drop size (word ∷ words))

abbrev or_content : Text → List Text → List Text
or_content content [] = content ∷ []
or_content content (line ∷ lines) = line ∷ lines

abbrev pub content_words : Text → List Text
content_words content = filter (λ word. not (is_nil word)) (split_spaces (trim content))

unfoldable pub chunk_message_content : Text → ℕ → List Text
chunk_message_content content words_per_line =
    let words = content_words content in
    or_content content (map join_spaces (chunks (length words) words_per_line words))

-- The messages shown and the text in the composer.
pub record Thread : Type 0 where
  pub messages : List Message
  pub content : Text

-- What happens to a thread. `sent` carries the new identifier and the time, `answered` and `refused`
-- the identifier that the request was sent with, `heard` the message that the page makes of what the
-- socket brings; a message without the field `pending` is not pending.
pub data Event : Type 0 where
  loaded : List Message → Event
  typed : Text → Event
  sent : String → String → Event
  answered : String → Message → Event
  refused : String → Text → Event
  heard : Message → Event

abbrev pub user_role : UserRole → String
user_role admin = "admin"
user_role company = "company"
user_role corper = "corper"

abbrev pub id_of : Option Message → Option String
id_of none = none
id_of (some message) = some message.id

-- The optimistic copy of a message that the socket brings back.
abbrev pub is_own_copy : Message → Message → Bool
is_own_copy payload message =
    message.pending
    && str_eq message.sender payload.sender
    && text_eq message.content payload.content

-- `socket.onmessage` for a message.
unfoldable pub hear : SessionUser → Message → List Message → List Message
hear user payload current =
    let optimistic_match =
      if str_eq payload.sender user.id then find (is_own_copy payload) current else none in
    upsert_message current payload (id_of optimistic_match)

-- `sendMessage` up to its request: the identifier and the time of the optimistic message are given.
unfoldable pub send_message : SessionUser → String → String → Thread → Thread
send_message user optimistic_id now thread =
    let next_content = trim thread.content in
    if is_nil next_content
    then thread
    else if ltb 100 (count_words next_content)
    then thread
    else record {
      messages =
          thread.messages
          ++ record {
            id = optimistic_id;
            sender = user.id;
            sender_role = user_role user.role;
            content = next_content;
            created_at = now;
            pending = true;
          }
            ∷ [];
      content = [];
    }

-- One event: the page loads the conversation, the user types or sends, the request of a message is
-- answered or fails, the socket brings a message.
unfoldable pub step : SessionUser → Event → Thread → Thread
step user (loaded results) thread = record thread { messages = results }
step user (typed text) thread = record thread { content = text }
step user (sent optimistic_id now) thread = send_message user optimistic_id now thread
step user (answered optimistic_id response) thread = record thread {
  messages = upsert_message thread.messages response (some optimistic_id);
}
step user (refused optimistic_id next_content) thread = record {
  messages = filter (λ message. not (has_id optimistic_id message)) thread.messages;
  content = next_content;
}
step user (heard payload) thread = record thread { messages = hear user payload thread.messages }

-- ===== src/Chat/Wrapping.antt =====
-- `chunkMessageContent`, which wraps a message into lines of so many words.
use corpershub_application.Base.{
  ℕ, [], suc, zero, Text, List, join_spaces, length, take, ◌++◌, ◌<◌, all, leb, is_nil, drop, map,
  ◌≤◌, ◌∷◌, ◌≡◌, ap, arith, true, sym, refl, false, ◌∙◌,
}
use corpershub_application.Chat.{chunks, chunk_message_content, content_words, or_content}

append_assoc : (a b c : Text) → (a ++ b) ++ c ≡ a ++ (b ++ c)
append_assoc [] b c = refl
append_assoc (x ∷ a) b c = ap (λ rest. x ∷ rest) (append_assoc a b c)

append_nil : (ws : List Text) → ws ++ [] ≡ ws
append_nil [] = refl
append_nil (w ∷ ws) = ap (λ rest. w ∷ rest) (append_nil ws)

join-append :
    (a b : Text) (xs ys : List Text)
    → join_spaces ((a ∷ xs) ++ b ∷ ys) ≡ join_spaces (a ∷ xs) ++ 32 ∷ join_spaces (b ∷ ys)
join-append a b [] ys = refl
join-append a b (c ∷ xs) ys =
    rw (join-append c b xs ys)
      (sym (append_assoc a (32 ∷ join_spaces (c ∷ xs)) (32 ∷ join_spaces (b ∷ ys))))

take-drop : (n : ℕ) (ws : List Text) → take n ws ++ drop n ws ≡ ws
take-drop zero ws = refl
take-drop (suc n) [] = refl
take-drop (suc n) (w ∷ ws) = ap (λ rest. w ∷ rest) (take-drop n ws)

length-drop : (n : ℕ) (ws : List Text) → length (drop n ws) ≤ length ws
length-drop zero ws = omega arith
length-drop (suc n) [] = omega arith
length-drop (suc n) (w ∷ ws) = omega (arith, length-drop n ws)

length-take : (n : ℕ) (ws : List Text) → length (take n ws) ≤ n
length-take zero ws = omega arith
length-take (suc n) [] = omega arith
length-take (suc n) (w ∷ ws) = omega (arith, length-take n ws)

abbrev lines_of : List (List Text) → Text
lines_of parts = join_spaces (map join_spaces parts)

-- One more line: the rest is joined behind it.
join_line :
    (n k : ℕ) (w : Text) (line left : List Text)
    → (lines_of (chunks n (suc k) left) ≡ join_spaces left)
    → length left ≤ n
    → lines_of ((w ∷ line) ∷ chunks n (suc k) left) ≡ join_spaces ((w ∷ line) ++ left)
unfolding chunks
join_line n k w line [] e s = ap join_spaces (sym (append_nil (w ∷ line)))
join_line zero k w line (d ∷ left) e s = ground arith
join_line (suc n) k w line (d ∷ left) e s =
    ap (λ rest. join_spaces (w ∷ line) ++ 32 ∷ rest) e ∙ sym (join-append w d line left)

join-chunks :
    (n k : ℕ) (ws : List Text) → length ws ≤ n → lines_of (chunks n (suc k) ws) ≡ join_spaces ws
unfolding chunks
join-chunks n k [] h = refl
join-chunks zero k (w ∷ ws) h = ground arith
join-chunks (suc n) k (w ∷ ws) h =
    let left : length (drop k ws) ≤ n = omega (arith, length-drop k ws) in
    join_line n k w (take k ws) (drop k ws) (join-chunks n k (drop k ws) left) left
    ∙ ap (λ rest. join_spaces (w ∷ rest)) (take-drop k ws)

all-chunks :
    (n size : ℕ) (ws : List Text) → all (λ part. leb (length part) size) (chunks n size ws) ≡ true
unfolding chunks
all-chunks n size [] = refl
all-chunks zero size (w ∷ ws) = refl
all-chunks (suc n) size (w ∷ ws) =
    ground (arith, all-chunks n size (drop size (w ∷ ws)), length-take size (w ∷ ws))

-- Wrapping loses and moves no word: the lines, joined by a space, are the words of the message joined
-- by a space, and no line has more words than it may. At least one word goes into a line, and the
-- message has a word.
pub chunk_joins :
    (content : Text) (words_per_line : ℕ)
    → 0 < words_per_line
    → is_nil (content_words content) ≡ false
    → (join_spaces (chunk_message_content content words_per_line)
        ≡ join_spaces (content_words content))
      × (all
            (λ line. leb (length line) words_per_line)
            (chunks (length (content_words content)) words_per_line (content_words content))
          ≡ true)
unfolding chunk_message_content chunks
chunk_joins content zero h e = ground arith
chunk_joins content (suc k) h e =
    (or_words content (content_words content) e k, all-chunks _ (suc k) (content_words content))
  where
    or_words :
        (content : Text) (ws : List Text)
        → is_nil ws ≡ false
        → (k : ℕ)
        → join_spaces (or_content content (map join_spaces (chunks (length ws) (suc k) ws)))
          ≡ join_spaces ws
    or_words content [] e k = ground arith
    or_words content (w ∷ ws) e k = join-chunks (length (w ∷ ws)) k (w ∷ ws) (omega arith)

-- ===== src/Dream/Replay/Window.antt =====
-- The window of history in python/oneiro/dream/replay.py against the one of a live reply, which is
-- `reply_context` of python/oneiro/recall.py.
use mathlib.Core.List.{reverse, reverse-append, reverse-reverse, reverse-cons, map}
use oneiro_ostis.Prelude.{
  ℕ, zero, suc, ◌+◌, ◌-◌, ◌≡◌, refl, sym, ap, ◌∙◌, List, [], ◌∷◌, ◌++◌, length, take, drop,
  take-append-drop, length-append, ltb, nat_beq, Bool-cases, inl, inr, arith,
}
use oneiro_ostis.Prelude.Text.{chars}
use oneiro_ostis.Records.Kinds.{ConversationMessage}
use oneiro_ostis.Context.{chat_message, fitting}
use oneiro_ostis.Dream.Policy.{TurnPolicy}
use oneiro_ostis.Dream.Replay.{kept_within, windowed}

length-map : {A B : Type 0} (f : A → B) (xs : List A) → length (map f xs) ≡ length xs
length-map f [] = refl
length-map f (x ∷ xs) = ap suc (length-map f xs)

take-map : {A B : Type 0} (f : A → B) (n : ℕ) (xs : List A) → take n (map f xs) ≡ map f (take n xs)
take-map f zero xs = refl
take-map f (suc n) [] = refl
take-map f (suc n) (x ∷ xs) = ap (λ t. f x ∷ t) (take-map f n xs)

length-reverse : {A : Type 0} (xs : List A) → length (reverse xs) ≡ length xs
length-reverse [] = refl
length-reverse (x ∷ xs) =
    let last = length-append (reverse xs) (x ∷ []) in
    ap length (reverse-cons x xs) ∙ omega (arith, last, length-reverse xs)

length-drop : {A : Type 0} (n : ℕ) (xs : List A) → length (drop n xs) ≡ length xs - n
length-drop zero xs = omega arith
length-drop (suc n) [] = omega arith
length-drop (suc n) (x ∷ xs) = omega (arith, length-drop n xs)

drop-append : {A : Type 0} (n : ℕ) (xs ys : List A) → n ≡ length xs → drop n (xs ++ ys) ≡ ys
drop-append zero [] ys h = refl
drop-append zero (x ∷ xs) ys h = absurd (omega arith)
drop-append (suc n) [] ys h = absurd (omega arith)
drop-append (suc n) (x ∷ xs) ys h = drop-append n xs ys (omega arith)

-- The last rows of a reversed list are its first ones, reversed.
drop-reverse :
    {A : Type 0} (n : ℕ) (xs : List A)
    → drop (length (reverse xs) - n) (reverse xs) ≡ reverse (take n xs)
drop-reverse n xs =
    ap (drop (length (reverse xs) - n))
      (ap reverse (sym (take-append-drop n xs)) ∙ reverse-append (take n xs) (drop n xs))
    ∙ drop-append (length (reverse xs) - n) (reverse (drop n xs)) (reverse (take n xs))
        (omega (arith, length-reverse xs, length-reverse (drop n xs), length-drop n xs))

map-append : {A B : Type 0} (f : A → B) (xs ys : List A) → map f (xs ++ ys) ≡ map f xs ++ map f ys
map-append f [] ys = refl
map-append f (x ∷ xs) ys = ap (λ t. f x ∷ t) (map-append f xs ys)

map-reverse : {A B : Type 0} (f : A → B) (xs : List A) → map f (reverse xs) ≡ reverse (map f xs)
map-reverse f [] = refl
map-reverse f (x ∷ xs) =
    ap (map f) (reverse-cons x xs)
    ∙ map-append f (reverse xs) (x ∷ [])
    ∙ ap (λ t. t ++ f x ∷ []) (map-reverse f xs)
    ∙ sym (reverse-cons (f x) (map f xs))

kept_within-fitting :
    (budget used : ℕ) (ms : List ConversationMessage)
    → kept_within budget used (map chat_message ms) ≡ map chat_message (fitting budget used ms).0
unfolding kept_within fitting chat_message
kept_within-fitting budget used [] = refl
kept_within-fitting budget used (m ∷ ms) =
    let later = kept_within-fitting budget (used + chars m.text) ms in
    elim (Bool-cases (ltb budget (used + chars m.text))) [
      | inl e ↦ rw e refl
      | inr e ↦ rw e (ap (λ t. chat_message m ∷ t) later)
    ]

-- The rows that `windowed` reads, newest first, are the newest messages.
newest_rows :
    (n : ℕ) (ms : List ConversationMessage)
    → reverse (drop (length (map chat_message (reverse ms)) - n) (map chat_message (reverse ms)))
      ≡ map chat_message (take n ms)
newest_rows n ms =
    ap (λ rows. reverse (drop (length rows - n) rows)) (map-reverse chat_message ms)
    ∙ ap reverse (drop-reverse n (map chat_message ms))
    ∙ reverse-reverse (take n (map chat_message ms))
    ∙ take-map chat_message n ms

-- The window that the judge rebuilds is the window of a live reply: of a conversation, given newest
-- first, both show the messages that a policy's count and its budget of characters leave, oldest
-- first, whatever the two bounds are.
pub windowed-fitting :
    (policy : TurnPolicy) (ms : List ConversationMessage)
    → windowed (map chat_message (reverse ms)) policy
      ≡ map chat_message
          (reverse (fitting policy.context_chars 0 (take policy.history_messages ms)).0)
unfolding windowed
windowed-fitting policy ms = elim (Bool-cases (nat_beq policy.history_messages 0)) [
  | inl e ↦
      let none_shown : policy.history_messages ≡ 0 = ground arith in
      rw (e, none_shown) (unfold fitting in refl)
  | inr e ↦ rw e (
      ap (λ rows. reverse (kept_within policy.context_chars 0 rows))
        (newest_rows policy.history_messages ms)
      ∙ ap reverse (kept_within-fitting policy.context_chars 0 (take policy.history_messages ms))
      ∙ sym (
          map-reverse chat_message
            (fitting policy.context_chars 0 (take policy.history_messages ms)).0))
]

-- ===== src/Dream/Replay/Listing.antt =====
-- The messages of an assembled context in python/oneiro/dream/replay.py, and `==` on lists of them.
use oneiro_ostis.Prelude.{
  String, ◌≡◌, refl, ap, ◌∙◌, Bool, true, false, ◌&&◌, List, [], ◌∷◌, ◌==◌, string_comparable,
  and_parts, equal_refl, eq_iff,
}
use oneiro_ostis.Context.{ChatMessage}

-- A message with a role and a content, the assistant's request of a call (its identifier, its tool
-- and the text of its arguments), and the result of a call.
pub data Prompt : Type 0 where
  chat : ChatMessage → Prompt
  call : String → String → String → Prompt
  observed : String → String → Prompt

unfoldable pub same_prompt : Prompt → Prompt → Bool
same_prompt (chat m) (chat n) = m.role == n.role && m.content == n.content
same_prompt (call id tool arguments) (call id' tool' arguments') =
    id == id' && tool == tool' && arguments == arguments'
same_prompt (observed id content) (observed id' content') = id == id' && content == content'
same_prompt _ _ = false

-- Two texts that compare as equal are one.
one_text : (s t : String) → (s == t) ≡ true → s ≡ t
one_text s t h = (eq_iff s t).0 h

same_prompt-true : (a b : Prompt) → same_prompt a b ≡ true → a ≡ b
unfolding same_prompt
same_prompt-true (chat m) (chat n) h =
    let (role, content) = and_parts (m.role == n.role) (m.content == n.content) h in
    ap (λ r. chat (record { role = r; content = m.content })) (one_text m.role n.role role)
    ∙ ap (λ t. chat (record { role = n.role; content = t })) (one_text m.content n.content content)
same_prompt-true (call id tool arguments) (call id' tool' arguments') h =
    let (first, rest) = and_parts (id == id' && tool == tool') (arguments == arguments') h in
    let (named, used) = and_parts (id == id') (tool == tool') first in
    ap (λ i. call i tool arguments) (one_text id id' named)
    ∙ ap (λ t. call id' t arguments) (one_text tool tool' used)
    ∙ ap (call id' tool') (one_text arguments arguments' rest)
same_prompt-true (observed id content) (observed id' content') h =
    let (named, told) = and_parts (id == id') (content == content') h in
    ap (λ i. observed i content) (one_text id id' named)
    ∙ ap (observed id') (one_text content content' told)
same_prompt-true (chat m) (call id tool arguments) h = cc
same_prompt-true (chat m) (observed id content) h = cc
same_prompt-true (call id tool arguments) (chat n) h = cc
same_prompt-true (call id tool arguments) (observed id' content) h = cc
same_prompt-true (observed id content) (chat n) h = cc
same_prompt-true (observed id content) (call id' tool arguments) h = cc

same_prompt_refl : (a : Prompt) → same_prompt a a ≡ true
unfolding same_prompt
same_prompt_refl (chat m) = rw (equal_refl m.role, equal_refl m.content) refl
same_prompt_refl (call id tool arguments) =
    rw (equal_refl id, equal_refl tool, equal_refl arguments) refl
same_prompt_refl (observed id content) = rw (equal_refl id, equal_refl content) refl

-- Python's `==` on lists
unfoldable pub same_prompts : List Prompt → List Prompt → Bool
unfolding same_prompt
same_prompts [] [] = true
same_prompts [] (b ∷ ns) = false
same_prompts (a ∷ ms) [] = false
same_prompts (a ∷ ms) (b ∷ ns) = same_prompt a b && same_prompts ms ns

pub same_prompts-true : (ms ns : List Prompt) → same_prompts ms ns ≡ true → ms ≡ ns
unfolding same_prompts
same_prompts-true [] [] h = refl
same_prompts-true [] (b ∷ ns) h = cc
same_prompts-true (a ∷ ms) [] h = cc
same_prompts-true (a ∷ ms) (b ∷ ns) h =
    let (first, rest) = and_parts (same_prompt a b) (same_prompts ms ns) h in
    let e = same_prompt-true a b first in let e' = same_prompts-true ms ns rest in cc

pub same_prompts_refl : (ms : List Prompt) → same_prompts ms ms ≡ true
unfolding same_prompts
same_prompts_refl [] = refl
same_prompts_refl (a ∷ ms) = rw (same_prompt_refl a, same_prompts_refl ms) refl

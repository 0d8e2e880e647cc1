-- ===== src/Agents/Compress/Shape.antt =====
-- The shape of the messages of a turn, and that the cuts of the compression respect it.
use llm_wiki_engine.Prelude.{
  ℕ, zero, suc, ◌-◌, ◌≡◌, refl, ap, ◌∙◌, Bool, true, false, none, some, List, [], ◌∷◌, ◌++◌, map,
  length, drop, ltb, if◌then◌else◌, All, All-append, Option-cases, inl, inr, arith, ◌<◌,
}
use llm_wiki_engine.Text.{Text}
use llm_wiki_engine.Ingest.Writer.{text_eq}
use llm_wiki_engine.Agents.Messages.{
  Message, system_msg, user_msg, assistant_msg, tool_msg, is_turn, next_open, open_after, IsPaired,
}
use llm_wiki_engine.Agents.Compress.{
  keep_count, last_user, tool_tail, parse_layout, add_group, newer, split_groups, is_too_long,
  truncate_oldest_history, shorten,
}

-- What follows the user's message within a turn.
abbrev pub is_reply : Message → Bool
is_reply (assistant_msg t calls) = true
is_reply (tool_msg id t) = true
is_reply _ = false

abbrev pub AllTurns : List Message → Type 0
AllTurns ms = All (λ m. is_turn m ≡ true) ms

abbrev pub AllReplies : List Message → Type 0
AllReplies ms = All (λ m. is_reply m ≡ true) ms

-- The messages of a turn: the system prompt, what was said before, the user's message, and the
-- replies so far, after which the calls of the given ids wait for their answers.
pub record IsOpen (current : Text) (ids : List Text) (ms : List Message) : Type 0 where
  pub system : Text
  pub turns : List Message
  pub tail : List Message
  pub shape : ms ≡ system_msg system ∷ (turns ++ (user_msg current ∷ tail))
  pub turns_are : AllTurns turns
  pub tail_are : AllReplies tail
  pub paired : open_after [] tail ≡ some ids

-- The messages of a turn whose tool calls are all answered.
abbrev pub IsContext : Text → List Message → Type 0
IsContext current ms = IsOpen current [] ms

pub last_user-replies : (tail : List Message) → AllReplies tail → last_user tail ≡ none
unfolding last_user
last_user-replies [] h = refl
last_user-replies (system_msg t ∷ ms) h = absurd (ground (arith, h.0))
last_user-replies (user_msg t ∷ ms) h = absurd (ground (arith, h.0))
last_user-replies (assistant_msg t calls ∷ ms) h = rw (last_user-replies ms h.1) refl
last_user-replies (tool_msg id t ∷ ms) h = rw (last_user-replies ms h.1) refl

pub last_user-context :
    (turns : List Message) (u : Text) (tail : List Message)
    → AllTurns turns
    → AllReplies tail
    → last_user (turns ++ (user_msg u ∷ tail))
      ≡ some (record { history = turns; current = u; rest = tail })
unfolding last_user
last_user-context [] u tail h k = rw (last_user-replies tail k) refl
last_user-context (system_msg t ∷ ms) u tail h k = absurd (ground (arith, h.0))
last_user-context (user_msg t ∷ ms) u tail h k = rw (last_user-context ms u tail h.1 k) refl
last_user-context (assistant_msg t c ∷ ms) u tail h k = rw (last_user-context ms u tail h.1 k) refl
last_user-context (tool_msg id t ∷ ms) u tail h k = absurd (ground (arith, h.0))

pub parse_layout-context :
    (system : Text) (turns : List Message) (u : Text) (tail : List Message)
    → AllTurns turns
    → AllReplies tail
    → parse_layout (system_msg system ∷ (turns ++ (user_msg u ∷ tail)))
      ≡ some (system, record { history = turns; current = u; rest = tail })
unfolding parse_layout
parse_layout-context system turns u tail h k =
    rw (last_user-context turns u tail h k, parse_layout) refl

pub tool_tail-replies :
    (tail : List Message) → AllReplies tail → IsPaired tail → tool_tail tail ≡ tail
tool_tail-replies [] h p = refl
tool_tail-replies (system_msg t ∷ ms) h p = absurd (ground (arith, h.0))
tool_tail-replies (user_msg t ∷ ms) h p = absurd (ground (arith, h.0))
tool_tail-replies (assistant_msg t calls ∷ ms) h p = refl
tool_tail-replies (tool_msg id t ∷ ms) h p = absurd (ground (arith, p))

module _ {ℓ} {A : Type ℓ} (P : A → Type 0) where
  pub All-drop : (n : ℕ) (xs : List A) → All P xs → All P (drop n xs)
  All-drop zero xs h = h
  All-drop (suc n) [] h = tt
  All-drop (suc n) (x ∷ xs) h = All-drop n xs h.1

  pub All-if : (b : Bool) (xs ys : List A) → All P xs → All P ys → All P (if b then xs else ys)
  All-if true xs ys h k = h
  All-if false xs ys h k = k

pub newer-AllTurns : (ms : List Message) → AllTurns ms → AllTurns (newer ms)
newer-AllTurns ms h =
    All-if (λ m. is_turn m ≡ true) (ltb keep_count (length ms)) _ _
      (All-drop (λ m. is_turn m ≡ true) (length ms - keep_count) ms h) h

pub truncate_oldest_history-AllTurns :
    (target : ℕ) (ms : List Message) → AllTurns ms → AllTurns (truncate_oldest_history target ms)
unfolding truncate_oldest_history
truncate_oldest_history-AllTurns target [] h = tt
truncate_oldest_history-AllTurns target (m ∷ []) h = h
truncate_oldest_history-AllTurns target (m ∷ n ∷ ms) h =
    All-if (λ x. is_turn x ≡ true) (is_too_long target (m ∷ n ∷ ms)) _ _
      (truncate_oldest_history-AllTurns target ms h.1.1) h

pub next_open-shorten : (o : List Text) (m : Message) → next_open o (shorten m) ≡ next_open o m
next_open-shorten [] (system_msg t) = refl
next_open-shorten [] (user_msg t) = refl
next_open-shorten [] (assistant_msg t calls) = refl
next_open-shorten [] (tool_msg id t) = refl
next_open-shorten (i ∷ is) (system_msg t) = refl
next_open-shorten (i ∷ is) (user_msg t) = refl
next_open-shorten (i ∷ is) (assistant_msg t calls) = refl
next_open-shorten (i ∷ is) (tool_msg id t) = refl

pub shorten-paired :
    (o : List Text) (ms : List Message) → open_after o (map shorten ms) ≡ open_after o ms
shorten-paired o [] = refl
shorten-paired o (m ∷ ms) = elim (Option-cases (next_open o m)) [
  | inl e ↦ rw (next_open-shorten o m, e, open_after) refl
  | inr (rest, e) ↦ rw (next_open-shorten o m, e, open_after) (shorten-paired rest ms)
]

pub shorten-AllReplies : (ms : List Message) → AllReplies ms → AllReplies (map shorten ms)
shorten-AllReplies [] h = tt
shorten-AllReplies (system_msg t ∷ ms) h = absurd (ground (arith, h.0))
shorten-AllReplies (user_msg t ∷ ms) h = absurd (ground (arith, h.0))
shorten-AllReplies (assistant_msg t calls ∷ ms) h = (refl, shorten-AllReplies ms h.1)
shorten-AllReplies (tool_msg id t ∷ ms) h = (refl, shorten-AllReplies ms h.1)

pub add_group-cases :
    (P : List Message → Type 0) (m : Message) (ms : List Message)
    (groups : ℕ × List Message × List Message)
    → P (m ∷ ms)
    → (0 < groups.0 → P groups.2)
    → P (add_group m ms groups).2
add_group-cases P m ms (zero, before, from) h k = h
add_group-cases P m ms (suc n, before, from) h k = k (omega arith)

pub open_after-rest :
    (o : List Text) (m : Message) (ms : List Message)
    → open_after o (m ∷ ms) ≡ some []
    → (rest : List Text) × (open_after rest ms ≡ some [])
open_after-rest o m ms h = elim (Option-cases (next_open o m)) [
  | inl e ↦ absurd (ground (arith, e, h))
  | inr (rest, e) ↦ (rest, ground (arith, e, h))
]

pub split_groups-AllReplies : (ms : List Message) → AllReplies ms → AllReplies (split_groups ms).2
unfolding split_groups
split_groups-AllReplies [] h = tt
split_groups-AllReplies (system_msg t ∷ ms) h = split_groups-AllReplies ms h.1
split_groups-AllReplies (user_msg t ∷ ms) h = split_groups-AllReplies ms h.1
split_groups-AllReplies (tool_msg id t ∷ ms) h = split_groups-AllReplies ms h.1
split_groups-AllReplies (assistant_msg t [] ∷ ms) h = split_groups-AllReplies ms h.1
split_groups-AllReplies (assistant_msg t (c ∷ cs) ∷ ms) h =
    add_group-cases AllReplies (assistant_msg t (c ∷ cs)) ms (split_groups ms) h
      (λ k. split_groups-AllReplies ms h.1)

-- A cut before a group is no cut within one.
pub split_groups-IsPaired :
    (o : List Text) (ms : List Message)
    → open_after o ms ≡ some []
    → 0 < (split_groups ms).0
    → IsPaired (split_groups ms).2
unfolding split_groups
split_groups-IsPaired o [] h k = absurd (omega arith)
split_groups-IsPaired o (system_msg t ∷ ms) h k =
    let (rest, e) = open_after-rest o (system_msg t) ms h in split_groups-IsPaired rest ms e k
split_groups-IsPaired o (user_msg t ∷ ms) h k =
    let (rest, e) = open_after-rest o (user_msg t) ms h in split_groups-IsPaired rest ms e k
split_groups-IsPaired o (tool_msg id t ∷ ms) h k =
    let (rest, e) = open_after-rest o (tool_msg id t) ms h in split_groups-IsPaired rest ms e k
split_groups-IsPaired o (assistant_msg t [] ∷ ms) h k =
    let (rest, e) = open_after-rest o (assistant_msg t []) ms h in split_groups-IsPaired rest ms e k
split_groups-IsPaired o (assistant_msg t (c ∷ cs) ∷ ms) h k =
    add_group-cases IsPaired (assistant_msg t (c ∷ cs)) ms (split_groups ms) (whole o h) (λ more.
      let (rest, e) = open_after-rest o (assistant_msg t (c ∷ cs)) ms h in
      split_groups-IsPaired rest ms e more)
  where
    whole :
        (p : List Text)
        → open_after p (assistant_msg t (c ∷ cs) ∷ ms) ≡ some []
        → IsPaired (assistant_msg t (c ∷ cs) ∷ ms)
    whole [] e = e
    whole (i ∷ is) e = absurd (ground (arith, e))

open_after-append :
    (o p q : List Text) (ms : List Message) (m : Message)
    → open_after o ms ≡ some p
    → next_open p m ≡ some q
    → open_after o (ms ++ m ∷ []) ≡ some q
open_after-append o p q [] m h k =
    let same : o ≡ p = ground (arith, h) in rw (ap (λ i. next_open i m) same ∙ k, open_after) refl
open_after-append o p q (n ∷ ms) m h k = elim (Option-cases (next_open o n)) [
  | inl e ↦ absurd (ground (arith, e, h))
  | inr (rest, e) ↦ rw (e, open_after) (open_after-append rest p q ms m (ground (arith, e, h)) k)
]

All-append_one :
    {A : Type 0} (P : A → Type 0) (xs : List A) (x : A) → All P xs → P x → All P (xs ++ x ∷ [])
All-append_one P xs x h k = All-append P xs (x ∷ []) h (k, tt)

append_assoc : {A : Type 0} (xs ys zs : List A) → (xs ++ ys) ++ zs ≡ xs ++ (ys ++ zs)
append_assoc [] ys zs = refl
append_assoc (x ∷ xs) ys zs = ap (◌∷◌ x) (append_assoc xs ys zs)

-- A further reply.
pub IsOpen-reply :
    (u : Text) (p q : List Text) (ms : List Message) (m : Message)
    → IsOpen u p ms
    → is_reply m ≡ true
    → next_open p m ≡ some q
    → IsOpen u q (ms ++ m ∷ [])
IsOpen-reply u p q ms m c r h = record {
  system = c.system;
  turns = c.turns;
  tail = c.tail ++ m ∷ [];
  shape =
      ap (λ xs. xs ++ m ∷ []) c.shape
      ∙ ap (◌∷◌ (system_msg c.system)) (append_assoc c.turns (user_msg u ∷ c.tail) (m ∷ []));
  turns_are = c.turns_are;
  tail_are = All-append_one (λ x. is_reply x ≡ true) c.tail m c.tail_are r;
  paired = open_after-append [] p q c.tail m c.paired h;
}

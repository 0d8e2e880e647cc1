-- ===== src/Feedback/Compiler/Listing.antt =====
-- What the replay of the changes between a wiki and a listing of files does.
use llm_wiki_engine.Prelude.{
  ◌≡◌, ◌≢◌, refl, ◌∙◌, ap, true, false, Option, none, some, [], ◌∷◌, arith, nat_eq, Bool-cases, inl,
  inr, ◌⊎◌,
}
use llm_wiki_engine.Text.{Text, text_beq, text_beq_iff}
use llm_wiki_engine.Feedback.WikiTools.{
  WikiPath, WikiFiles, lookup, put, escapes, change_of, collect_loop,
}
use llm_wiki_engine.Feedback.WikiTools.Store.{path_beq_iff, lookup-put, Unique}
use llm_wiki_engine.Feedback.Compiler.{apply_changes}

-- What the replay of the changes of a listing does to every path.
abbrev pub Replays : WikiFiles → WikiFiles → WikiFiles → Type 0
Replays ws fs out =
    (q : WikiPath)
    → (lookup q ws ≡ none → lookup q out ≡ lookup q fs)
      × ((c : Text) → lookup q ws ≡ some c → lookup q out ≡ some c)

Replays-skip :
    (p : WikiPath) (c : Text) (ws fs out : WikiFiles)
    → lookup p ws ≡ none
    → lookup p fs ≡ some c
    → Replays ws fs out
    → Replays ((p, c) ∷ ws) fs out
unfolding lookup
Replays-skip p c ws fs out n k r q =
    (ground (arith, (r q).0), λ d. ground (arith, path_beq_iff p q, (r p).0, (r q).1 d))

Replays-put :
    (p : WikiPath) (c : Text) (ws fs out : WikiFiles)
    → lookup p ws ≡ none
    → Replays ws (put p c fs) out
    → Replays ((p, c) ∷ ws) fs out
unfolding lookup
Replays-put p c ws fs out n r q = (
  ground (arith, lookup-put q p c fs, (r q).0),
  λ d. ground (arith, lookup-put p p c fs, path_beq_iff p q, path_beq_iff p p, (r p).0, (r q).1 d),
)

-- The replayed files agree with the wiki at the paths that are still to come.
abbrev Agrees : WikiFiles → WikiFiles → WikiFiles → Type 0
Agrees original ws fs = (q : WikiPath) → lookup q ws ≢ none → lookup q fs ≡ lookup q original

Agrees-rest :
    (original ws fs : WikiFiles) (p : WikiPath) (c : Text)
    → Agrees original ((p, c) ∷ ws) fs
    → Agrees original ws fs
unfolding lookup
Agrees-rest original ws fs p c h q n = ground (arith, h q)

Agrees-here :
    (original ws fs : WikiFiles) (p : WikiPath) (c : Text)
    → Agrees original ((p, c) ∷ ws) fs
    → lookup p fs ≡ lookup p original
unfolding lookup
Agrees-here original ws fs p c h = ground (arith, h p, path_beq_iff p p)

Agrees-put :
    (original ws fs : WikiFiles) (p : WikiPath) (c : Text)
    → lookup p ws ≡ none
    → Agrees original ((p, c) ∷ ws) fs
    → Agrees original ws (put p c fs)
unfolding lookup
Agrees-put original ws fs p c k h q n = ground (arith, h q, lookup-put q p c fs, path_beq_iff p q)

-- The listing has no change outside the root.
abbrev Inside : WikiFiles → WikiFiles → Type 0
Inside original ws =
    (q : WikiPath) → escapes q ≡ true → lookup q ws ≡ none ⊎ (lookup q ws ≡ lookup q original)

Inside-rest :
    (original ws : WikiFiles) (p : WikiPath) (c : Text)
    → lookup p ws ≡ none
    → Inside original ((p, c) ∷ ws)
    → Inside original ws
unfolding lookup
Inside-rest original ws p c k e q s = ground (arith, e q, path_beq_iff p q)

Inside-changed :
    (original ws : WikiFiles) (p : WikiPath) (c : Text)
    → (lookup p original ≡ some c → ⊥)
    → Inside original ((p, c) ∷ ws)
    → escapes p ≡ false
unfolding lookup
Inside-changed original ws p c d e = ground (arith, e p, path_beq_iff p p)

-- A path whose content is not as in the wiki is a change.
change_of_other :
    (p : WikiPath) (c : Text) (o : Option Text)
    → (o ≡ some c → ⊥)
    → change_of p c o ≡ record { path = p; old_content = o; new_content = c } ∷ []
unfolding change_of
change_of_other p c none d = refl
change_of_other p c (some old) d = ground (arith, text_beq_iff old c)

change_of_same : (p : WikiPath) (c : Text) → change_of p c (some c) ≡ []
unfolding change_of
change_of_same p c = ground (arith, text_beq_iff c c)

same_or_other : (c : Text) (o : Option Text) → (o ≡ some c) ⊎ (o ≡ some c → ⊥)
same_or_other c none = inr (λ e. cc)
same_or_other c (some old) = elim (Bool-cases (text_beq old c)) [
  | inl e ↦ inl (ap some ((text_beq_iff old c).0 e))
  | inr n ↦ inr (λ e. ground (arith, text_beq_iff old c))
]

-- The replay of a listing succeeds.
abbrev pub Succeeds : WikiFiles → WikiFiles → WikiFiles → Type 0
Succeeds original ws fs =
    (out : WikiFiles) × (apply_changes (collect_loop original ws) fs ≡ some out) × Replays ws fs out

pub replay_loop :
    (original ws fs : WikiFiles)
    → Unique ws
    → Agrees original ws fs
    → Inside original ws
    → Succeeds original ws fs
unfolding collect_loop apply_changes
replay_loop original [] fs u h e = (fs, refl, λ q. ((λ _. refl), λ c k. unfold lookup in cc))
replay_loop original ((p, c) ∷ ws) fs u h e =
    go (same_or_other c (lookup p original))
      (replay_loop original ws fs u.1 (Agrees-rest original ws fs p c h)
        (Inside-rest original ws p c u.0 e))
      (replay_loop original ws (put p c fs) u.1 (Agrees-put original ws fs p c u.0 h)
        (Inside-rest original ws p c u.0 e))
  where
    go :
        (lookup p original ≡ some c) ⊎ (lookup p original ≡ some c → ⊥)
        → Succeeds original ws fs
        → Succeeds original ws (put p c fs)
        → Succeeds original ((p, c) ∷ ws) fs
    go (inl s) (out, a, r) _ = (
      out,
      rw s (rw (change_of_same p c) a),
      Replays-skip p c ws fs out u.0 (Agrees-here original ws fs p c h ∙ s) r,
    )
    go (inr d) _ (out, a, r) = (
      out,
      rw (change_of_other p c (lookup p original) d) (rw (Inside-changed original ws p c d e) a),
      Replays-put p c ws fs out u.0 r,
    )

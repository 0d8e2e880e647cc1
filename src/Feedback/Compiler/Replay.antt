-- ===== src/Feedback/Compiler/Replay.antt =====
-- app/feedback/compiler.py and router.py: the replay of the changes that the agent ends with.
use llm_wiki_engine.Prelude.{
  ℕ, zero, suc, ◌≡◌, ◌≢◌, refl, sym, ◌∙◌, ap, Bool, true, false, Option, none, some, List, [], ◌∷◌,
  arith, sort_by, nat_eq, Option-cases, inl, inr, ◌⊎◌, if◌then◌else◌,
}
use llm_wiki_engine.Text.{Text}
use llm_wiki_engine.Feedback.WikiTools.{
  WikiPath, WikiFiles, lookup, FileChange, collect_changes, by_path,
}
use llm_wiki_engine.Feedback.WikiTools.Store.{Unique, lookup-sort, Unique-sort}
use llm_wiki_engine.Feedback.Compiler.{
  Turn, acts, speaks, silent, run_calls, after_loop, agent_loop, run_compiler, apply_changes,
  max_iterations,
}
use llm_wiki_engine.Feedback.Compiler.Copies.{IsCopy, run_calls-IsCopy}
use llm_wiki_engine.Feedback.Compiler.Listing.{replay_loop}

-- How the loop ends: with a copy, and with its changes or none.
abbrev Ended : WikiFiles → Option (List FileChange) × WikiFiles → Type 0
Ended original (cs, files) =
    IsCopy original files × (cs ≢ none → cs ≡ some (collect_changes original files))

after_loop-Ended :
    (refused : WikiFiles → WikiPath → Bool) (original files : WikiFiles)
    → IsCopy original files
    → Ended original (after_loop refused original files)
unfolding after_loop
after_loop-Ended refused original files h = (h, go (collect_changes original files))
  where
    go :
        (cs : List FileChange)
        → (elim cs as (λ _. Option (List FileChange)) [ [] ↦ none | d ∷ ds ↦ some (d ∷ ds) ]) ≢ none
        → (elim cs as (λ _. Option (List FileChange)) [ [] ↦ none | d ∷ ds ↦ some (d ∷ ds) ])
          ≡ some cs
    go [] n = ground (arith, n)
    go (d ∷ ds) n = refl

Ended-if :
    (original : WikiFiles) (b : Bool) (x y : Option (List FileChange) × WikiFiles)
    → Ended original x
    → Ended original y
    → Ended original (if b then x else y)
Ended-if original true x y h k = h
Ended-if original false x y h k = k

module _ (refused : WikiFiles → WikiPath → Bool) (turns : ℕ → Turn) (original : WikiFiles) where
  agent_loop-Ended :
      (left n : ℕ) (files : WikiFiles)
      → IsCopy original files
      → Ended original (agent_loop refused turns original left n files)
  unfolding agent_loop
  agent_loop-Ended zero n files h = after_loop-Ended refused original files h
  agent_loop-Ended (suc left) n files h =
      elim (turns n)
        as (λ t. Ended original (elim t as (λ _. Option (List FileChange) × WikiFiles) [
          | silent ↦ after_loop refused original files
          | speaks ↦ agent_loop refused turns original left (suc n) files
          | acts calls ↦
              let (submitted, files1) = run_calls refused calls files in
              let rest = agent_loop refused turns original left (suc n) files1 in
              if submitted then (some (collect_changes original files1), files1) else rest
        ])) [
          | silent ↦ after_loop-Ended refused original files h
          | speaks ↦ agent_loop-Ended left (suc n) files h
          | acts calls ↦
              Ended-if original (run_calls refused calls files).0 _ _
                (run_calls-IsCopy refused original calls files h, λ _. refl)
                (agent_loop-Ended left (suc n) (run_calls refused calls files).1
                  (run_calls-IsCopy refused original calls files h))
        ]

replay_copy :
    (original files : WikiFiles)
    → IsCopy original files
    → (out : WikiFiles) × (apply_changes (collect_changes original files) original ≡ some out)
      × ((q : WikiPath) → lookup q out ≡ lookup q files)
unfolding collect_changes
replay_copy original files (u, k, o) =
    let (out, a, r) =
      replay_loop original (sort_by by_path files) original (Unique-sort by_path files u)
        (λ q n. refl) (λ q s. inr (lookup-sort by_path q files u ∙ o q s)) in
    (out, a, λ q. go q out (r q) (Option-cases (lookup q files)) (Option-cases (lookup q original)))
  where
    go :
        (q : WikiPath) (out : WikiFiles)
        → (lookup q (sort_by by_path files) ≡ none → lookup q out ≡ lookup q original)
          × ((c : Text) → lookup q (sort_by by_path files) ≡ some c → lookup q out ≡ some c)
        → (lookup q files ≡ none) ⊎ ((c : Text) × (lookup q files ≡ some c))
        → (lookup q original ≡ none) ⊎ ((c : Text) × (lookup q original ≡ some c))
        → lookup q out ≡ lookup q files
    go q out r (inr (c, e)) m = r.1 c (lookup-sort by_path q files u ∙ e) ∙ sym e
    go q out r (inl e) (inl m) = r.0 (lookup-sort by_path q files u ∙ e) ∙ m ∙ sym e
    go q out r (inl e) (inr (c, m)) = ground (arith, k q, e, m)

abbrev replay_of : WikiFiles → Option (List FileChange) → Option WikiFiles
replay_of original none = none
replay_of original (some changes) = apply_changes changes original

replay-Ended :
    (original : WikiFiles) (changes : List FileChange) (r : Option (List FileChange) × WikiFiles)
    → Ended original r
    → r.0 ≡ some changes
    → (out : WikiFiles) × (apply_changes changes original ≡ some out)
      × ((q : WikiPath) → lookup q out ≡ lookup q r.1)
replay-Ended original changes (cs, files) (copy, exact) e =
    let (out, a, same) = replay_copy original files copy in
    (out, ap (replay_of original) (sym e ∙ exact (λ z. cc (e, z))) ∙ a, same)

-- Whatever the agent calls in its turns, the changes that it ends with can be applied to the wiki
-- that it started from, and give every file the content of its working copy.
pub run_compiler-apply_changes :
    (refused : WikiFiles → WikiPath → Bool) (turns : ℕ → Turn) (original : WikiFiles)
    (changes : List FileChange)
    → Unique original
    → (run_compiler refused turns original).0 ≡ some changes
    → (out : WikiFiles) × (apply_changes changes original ≡ some out)
      × ((q : WikiPath) → lookup q out ≡ lookup q (run_compiler refused turns original).1)
unfolding run_compiler
run_compiler-apply_changes refused turns original changes u e =
    replay-Ended original changes (agent_loop refused turns original max_iterations 0 original)
      (agent_loop-Ended refused turns original max_iterations 0 original
        (u, (λ q n. n), λ q s. refl))
      e

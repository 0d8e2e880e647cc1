-- ===== src/Wiki/Graph/Related.antt =====
-- What the expansion of some pages returns.
use llm_wiki_engine.Prelude.{
  ℕ, suc, ◌*◌, ◌≤◌, ◌≡◌, refl, ap, true, false, ◌||◌, Option, none, some, List, [], ◌∷◌, map,
  length, take, length-take, contains, All, All-take, All-sort_by, ◌==◌, if◌then◌else◌, sort_by,
  Bool-cases, inl, inr, arith,
}
use llm_wiki_engine.Text.{Text, text_beq_iff}
use llm_wiki_engine.Ingest.Writer.{text_eq}
use llm_wiki_engine.Wiki.Graph.{
  GraphNode, WikiGraph, find_node, Counts, bump, by_count, is_related, count_neighbors,
  neighbors_at, count_seeds, graph_expand,
}

All-map :
    {A B : Type 0} (P : B → Type 0) (f : A → B) (xs : List A)
    → All (λ x. P (f x)) xs
    → All P (map f xs)
All-map P f [] h = tt
All-map P f (x ∷ xs) h = (h.0, All-map P f xs h.1)

length-map : {A B : Type 0} (f : A → B) (xs : List A) → length (map f xs) ≡ length xs
length-map f [] = refl
length-map f (x ∷ xs) = ap suc (length-map f xs)

module _ (graph : WikiGraph) (seeds : List Text) where
  -- A page of the graph that is no seed and that some seed has for a neighbor.
  pub record IsRelated (x : Text) : Type 0 where
    pub fresh : contains seeds x ≡ false
    pub page : GraphNode
    pub known : find_node x graph.nodes ≡ some page
    pub seed : Text
    pub is_seed : contains seeds seed ≡ true
    pub from : GraphNode
    pub seed_page : find_node seed graph.nodes ≡ some from
    pub linked : contains from.neighbors x ≡ true

  abbrev Fine : Text × ℕ → Type 0
  Fine p = IsRelated p.0

  bump-Fine : (x : Text) (cs : Counts) → IsRelated x → All Fine cs → All Fine (bump x cs)
  unfolding bump
  bump-Fine x [] r h = (r, tt)
  bump-Fine x ((y, n) ∷ cs) r h =
      elim (y == x) as (λ b. All Fine (if b then (y, suc n) ∷ cs else (y, n) ∷ bump x cs)) [
        | true ↦ (h.0, h.1)
        | false ↦ (h.0, bump-Fine x cs r h.1)
      ]

  count_neighbors-Fine :
      (xs : List Text) (cs : Counts)
      → ((x : Text) → contains xs x ≡ true → is_related graph seeds x ≡ true → IsRelated x)
      → All Fine cs
      → All Fine (count_neighbors graph seeds xs cs)
  unfolding count_neighbors
  count_neighbors-Fine [] cs f h = h
  count_neighbors-Fine (x ∷ xs) cs f h =
      count_neighbors-Fine xs _ (λ y c k. f y (ground (arith, c)) k)
        (elim (Bool-cases (is_related graph seeds x)) [
          | inl e ↦
              rw e (
                bump-Fine x cs (f x (ap (λ b. b || contains xs x) ((text_beq_iff x x).1 refl)) e) h)
          | inr e ↦ rw e h
        ])

  count_seeds-Fine :
      (ids : List Text) (cs : Counts)
      → ((s : Text) → contains ids s ≡ true → contains seeds s ≡ true)
      → All Fine cs
      → All Fine (count_seeds graph seeds ids cs)
  unfolding count_seeds
  count_seeds-Fine [] cs sub h = h
  count_seeds-Fine (id ∷ ids) cs sub h =
      count_seeds-Fine ids _ (λ s c. sub s (ground (arith, c)))
        (count_neighbors-Fine _ cs
          (λ x c k. related x (find_node id graph.nodes) refl (find_node x graph.nodes) refl c k) h)
    where
      related :
          (x : Text) (o : Option GraphNode)
          → find_node id graph.nodes ≡ o
          → (p : Option GraphNode) → find_node x graph.nodes ≡ p
          → contains (neighbors_at graph seeds o) x ≡ true
          → is_related graph seeds x ≡ true
          → IsRelated x
      related x none e p e' c k = absurd (ground (arith, c))
      related x (some from) e none e' c k = absurd (ground (arith, e', k))
      related x (some from) e (some page) e' c k = record {
        fresh = ground (arith, e', k);
        page = page;
        known = e';
        seed = id;
        is_seed = sub id (ap (λ b. b || contains ids id) ((text_beq_iff id id).1 refl));
        from = from;
        seed_page = e;
        linked = c;
      }

  -- The expansion of some seed pages returns only pages of the graph that are no seeds and that are
  -- neighbors of a seed, at most `max_related` for each seed.
  pub graph_expand-AllRelated :
      (max_related : ℕ)
      → All IsRelated (graph_expand graph seeds max_related)
        × (length (graph_expand graph seeds max_related) ≤ max_related * length seeds)
  unfolding graph_expand
  graph_expand-AllRelated max_related = (
    All-map IsRelated (λ p. p.0) (take (max_related * length seeds) ranked)
        (All-take Fine (max_related * length seeds) ranked (
          All-sort_by by_count Fine (count_seeds graph seeds seeds [])
            (count_seeds-Fine seeds [] (λ s c. c) tt))),
    ground (
      arith,
      length-map (λ p. p.0) (take (max_related * length seeds) ranked),
      length-take (max_related * length seeds) ranked,
    ),
  )
    where
      ranked : Counts
      ranked = sort_by by_count (count_seeds graph seeds seeds [])

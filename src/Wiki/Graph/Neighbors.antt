-- ===== src/Wiki/Graph/Neighbors.antt =====
-- The neighbors of a page in the graph that is built.
use llm_wiki_engine.Prelude.{
  ◌≡◌, refl, sym, ap, ◌∙◌, Bool, true, false, ◌&&◌, ◌||◌, Option, none, some, List, [], ◌∷◌, map,
  any, contains, ◌==◌, if◌then◌else◌, Bool-cases, inl, inr, arith, All,
}
use llm_wiki_engine.Text.{Text, text_beq_iff}
use llm_wiki_engine.Ingest.Writer.{text_eq, dedupe}
use llm_wiki_engine.Ingest.Writer.Merge.{contains-append, contains-dedupe, contains-sort}
use llm_wiki_engine.Wiki.Frontmatter.{Yaml}
use llm_wiki_engine.Wiki.Graph.{
  GraphNode, Edge, WikiGraph, put_node, find_node, add_neighbor, link_nodes, sort_neighbors,
  WikiFile, node_of, collect_nodes, collect_edges, build_wiki_graph,
}

-- The neighbors of a page, if it is one.
abbrev pub neighbors_of : Option GraphNode → List Text
neighbors_of none = []
neighbors_of (some n) = n.neighbors

abbrev pub is_page : Option GraphNode → Bool
is_page none = false
is_page (some n) = true

-- An edge between two pages, in either direction.
abbrev pub joins : Text → Text → Edge → Bool
joins a b (src, dst) = (src == a && dst == b) || (dst == a && src == b)

-- The neighbors that a page has for another.
abbrev sees : Text → Text → List GraphNode → Bool
sees a b nodes = contains (neighbors_of (find_node a nodes)) b

-- Of three names, the first one is the second and not the third, or the other way round.
same_test : (p i a : Text) → (p == i) ≡ true → (i == a) ≡ (p == a)
same_test p i a e = ap (λ t. t == a) (sym ((text_beq_iff p i).0 e))

apart_test : (p i a : Text) → (p == i) ≡ false → (p == a) ≡ true → (i == a) ≡ false
apart_test p i a e e' = elim (Bool-cases (i == a)) [
  | inl q ↦ absurd (
      ground
        (arith, e, (text_beq_iff p i).1 ((text_beq_iff p a).0 e' ∙ sym ((text_beq_iff i a).0 q))))
  | inr q ↦ q
]

or_false : (b : Bool) → b ≡ (b || false)
or_false b = ground arith

and_false : (a b c : Bool) → a ≡ (a || (b && false && c))
and_false a b c = ground arith

sees-add_neighbor :
    (a b id x : Text) (nodes : List GraphNode)
    → sees a b (add_neighbor id x nodes)
      ≡ (sees a b nodes || (is_page (find_node a nodes) && id == a && x == b))
unfolding add_neighbor find_node
sees-add_neighbor a b id x [] = refl
sees-add_neighbor a b id x (n ∷ ns) = elim (Bool-cases (n.page_id == id)) [
  | inl e ↦ elim (Bool-cases (n.page_id == a)) [
    | inl e' ↦
        rw (e, e', same_test n.page_id id a e ∙ e')
          (contains-append n.neighbors (x ∷ []) b
            ∙ ap (λ c. contains n.neighbors b || c) (sym (or_false (x == b))))
    | inr e' ↦
        rw (e, e', same_test n.page_id id a e ∙ e')
          (and_false (sees a b ns) (is_page (find_node a ns)) (x == b))
  ]
  | inr e ↦ elim (Bool-cases (n.page_id == a)) [
    | inl e' ↦
        rw (e, e', apart_test n.page_id id a e e')
          (and_false (contains n.neighbors b) true (x == b))
    | inr e' ↦ rw (e, e') (sees-add_neighbor a b id x ns)
  ]
]

is_page-add_neighbor :
    (a id x : Text) (nodes : List GraphNode)
    → is_page (find_node a (add_neighbor id x nodes)) ≡ is_page (find_node a nodes)
unfolding add_neighbor find_node
is_page-add_neighbor a id x [] = refl
is_page-add_neighbor a id x (n ∷ ns) = elim (Bool-cases (n.page_id == id)) [
  | inl e ↦ elim (Bool-cases (n.page_id == a)) [
    | inl e' ↦ rw (e, e') refl
    | inr e' ↦ rw (e, e') refl
  ]
  | inr e ↦ elim (Bool-cases (n.page_id == a)) [
    | inl e' ↦ rw (e, e') refl
    | inr e' ↦ rw (e, e') (is_page-add_neighbor a id x ns)
  ]
]

-- The edges give each page its neighbors.
sees-link_nodes :
    (a b : Text) (es : List Edge) (nodes : List GraphNode)
    → sees a b (link_nodes es nodes)
      ≡ (sees a b nodes || (is_page (find_node a nodes) && any (joins a b) es))
unfolding link_nodes
sees-link_nodes a b [] nodes = ground arith
sees-link_nodes a b ((src, dst) ∷ es) nodes =
    let one = add_neighbor src dst nodes in
    sees-link_nodes a b es (add_neighbor dst src one)
    ∙ ground (
      arith,
      sees-add_neighbor a b dst src one,
      sees-add_neighbor a b src dst nodes,
      is_page-add_neighbor a dst src one,
      is_page-add_neighbor a src dst nodes,
    )

is_page-link_nodes :
    (a : Text) (es : List Edge) (nodes : List GraphNode)
    → is_page (find_node a (link_nodes es nodes)) ≡ is_page (find_node a nodes)
unfolding link_nodes
is_page-link_nodes a [] nodes = refl
is_page-link_nodes a ((src, dst) ∷ es) nodes =
    is_page-link_nodes a es (add_neighbor dst src (add_neighbor src dst nodes))
    ∙ is_page-add_neighbor a dst src (add_neighbor src dst nodes)
    ∙ is_page-add_neighbor a src dst nodes

sees-sorted :
    (a b : Text) (nodes : List GraphNode) → sees a b (map sort_neighbors nodes) ≡ sees a b nodes
unfolding find_node
sees-sorted a b [] = refl
sees-sorted a b (n ∷ ns) = elim (Bool-cases (n.page_id == a)) [
  | inl e ↦ rw e (contains-sort (dedupe n.neighbors) b ∙ contains-dedupe n.neighbors b)
  | inr e ↦ rw e (sees-sorted a b ns)
]

-- A node without neighbors.
abbrev IsBare : GraphNode → Type 0
IsBare n = n.neighbors ≡ []

put_node-AllBare :
    (n : GraphNode) (nodes : List GraphNode)
    → IsBare n
    → All IsBare nodes
    → All IsBare (put_node n nodes)
unfolding put_node
put_node-AllBare n [] e h = (e, tt)
put_node-AllBare n (m ∷ ms) e h =
    elim (m.page_id == n.page_id) as (λ b. All IsBare (if b then n ∷ ms else m ∷ put_node n ms)) [
      | true ↦ (e, h.1)
      | false ↦ (h.0, put_node-AllBare n ms e h.1)
    ]

AllBare-unseen : (a b : Text) (nodes : List GraphNode) → All IsBare nodes → sees a b nodes ≡ false
unfolding find_node
AllBare-unseen a b [] h = refl
AllBare-unseen a b (n ∷ ns) h = elim (Bool-cases (n.page_id == a)) [
  | inl e ↦ rw (e, h.0) refl
  | inr e ↦ rw e (AllBare-unseen a b ns h.1)
]

-- `str.lower` and PyYAML.
module _ (lower : Text → Text) (yaml : Yaml) where
  abbrev pub pages_of : List WikiFile → List GraphNode
  pages_of files = collect_nodes lower yaml files []

  abbrev pub graph_of : List WikiFile → WikiGraph
  graph_of files = build_wiki_graph lower yaml files

  collect_nodes-AllBare :
      (files : List WikiFile) (nodes : List GraphNode)
      → All IsBare nodes
      → All IsBare (collect_nodes lower yaml files nodes)
  unfolding collect_nodes node_of
  collect_nodes-AllBare [] nodes h = h
  collect_nodes-AllBare (f ∷ fs) nodes h =
      collect_nodes-AllBare fs _ (put_node-AllBare (node_of lower yaml f) nodes refl h)

  -- In the graph of some files, a page has a name among its neighbors exactly when an edge of the
  -- graph joins the two, in either direction; a name that is no page has none.
  pub build_wiki_graph-neighbors :
      (a b : Text) (files : List WikiFile)
      → contains (neighbors_of (find_node a (graph_of files).nodes)) b
        ≡ (is_page (find_node a (pages_of files)) && any (joins a b) (graph_of files).edges)
  unfolding build_wiki_graph
  build_wiki_graph-neighbors a b files =
      let nodes = pages_of files in
      let edges = collect_edges lower yaml files in
      sees-sorted a b (link_nodes edges nodes)
      ∙ sees-link_nodes a b edges nodes
      ∙ ap (λ c. c || (is_page (find_node a nodes) && any (joins a b) edges))
          (AllBare-unseen a b nodes (collect_nodes-AllBare files [] tt))

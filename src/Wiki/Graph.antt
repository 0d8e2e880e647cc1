-- ===== src/Wiki/Graph.antt =====
-- app/wiki/graph.py: the graph of the pages, from the field `related` and the links of their bodies,
-- and its expansion by one hop.
pub mod Neighbors
pub mod Related
use llm_wiki_engine.Prelude.{
  ℕ, zero, suc, ◌+◌, ◌-◌, ◌*◌, Bool, true, false, not, ◌&&◌, ◌||◌, Option, none, some, List, [],
  ◌∷◌, ◌++◌, map, length, take, contains, leb, ◌==◌, nat_eq, if◌then◌else◌, sort_by,
}
use llm_wiki_engine.Text.{Text, codes, strip}
use llm_wiki_engine.Ingest.Writer.{text_eq, text_leb, dedupe}
use llm_wiki_engine.Wiki.Frontmatter.{PageMeta, Yaml, parse_frontmatter}

pub record GraphNode : Type 0 where
  pub page_id : Text
  pub title : Text
  pub page_type : Text
  pub path : Text
  pub neighbors : List Text

abbrev pub Edge : Type 0
Edge = Text × Text

-- The nodes by page id, as a dict keeps them.
pub record WikiGraph : Type 0 where
  pub nodes : List GraphNode
  pub edges : List Edge

-- What follows "[[" up to "]]", and the number of characters of both.
abbrev pub more : ℕ → Option (Text × ℕ) → Option (Text × ℕ)
more c none = none
more c (some (t, n)) = some (c ∷ t, suc n)

unfoldable pub closing : Text → Option (Text × ℕ)
closing [] = none
closing (c ∷ []) = none
closing (c ∷ d ∷ s) =
    let rest = more c (closing (d ∷ s)) in
    if c == b']' then (if d == b']' then some ([], 2) else none) else rest

abbrev pub nonempty_link : Option (Text × ℕ) → Option (Text × ℕ)
nonempty_link none = none
nonempty_link (some ([], n)) = none
nonempty_link (some (c ∷ t, n)) = some (c ∷ t, n)

-- A match of \[\[([^\]]+)\]\] at the start: its group, and its length less one.
unfoldable pub match_link : Text → Option (Text × ℕ)
match_link (c ∷ d ∷ s) =
    if c == b'[' && d == b'['
    then (elim (nonempty_link (closing s)) [ none ↦ none | some (t, n) ↦ some (t, suc n) ])
    else none
match_link _ = none

-- `re.findall`; the first argument counts the characters that the last match still covers.
unfoldable pub find_links : ℕ → Text → List Text
find_links skip [] = []
find_links (suc skip) (c ∷ s) = find_links skip s
find_links zero (c ∷ s) = elim (match_link (c ∷ s)) [
  | none ↦ find_links zero s
  | some (t, n) ↦ t ∷ find_links n s
]

unfoldable pub extract_wikilinks : Text → List Text
extract_wikilinks text = find_links 0 text

-- s.replace(" ", "-")
unfoldable pub dashes : Text → Text
dashes [] = []
dashes (c ∷ s) = (if c == b' ' then b'-' else c) ∷ dashes s

-- A file below wiki/: its stem, its path and its content.
pub record WikiFile : Type 0 where
  pub stem : Text
  pub path : Text
  pub content : Text

-- `nodes[page_id] = node`
unfoldable pub put_node : GraphNode → List GraphNode → List GraphNode
put_node n [] = n ∷ []
put_node n (m ∷ ms) =
    let rest = put_node n ms in if m.page_id == n.page_id then n ∷ ms else m ∷ rest

unfoldable pub find_node : Text → List GraphNode → Option GraphNode
find_node id [] = none
find_node id (n ∷ ns) = if n.page_id == id then some n else find_node id ns

abbrev pub append_neighbor : Text → GraphNode → GraphNode
append_neighbor x n = record n { neighbors = n.neighbors ++ x ∷ [] }

-- `if id in nodes: nodes[id].neighbors.append(x)`
unfoldable pub add_neighbor : Text → Text → List GraphNode → List GraphNode
add_neighbor id x [] = []
add_neighbor id x (n ∷ ns) =
    let rest = add_neighbor id x ns in
    if n.page_id == id then append_neighbor x n ∷ ns else n ∷ rest

-- The second pass, over the edges.
unfoldable pub link_nodes : List Edge → List GraphNode → List GraphNode
link_nodes [] nodes = nodes
link_nodes ((src, dst) ∷ es) nodes =
    link_nodes es (add_neighbor dst src (add_neighbor src dst nodes))

abbrev pub sort_neighbors : GraphNode → GraphNode
sort_neighbors n = record n { neighbors = sort_by text_leb (dedupe n.neighbors) }

-- `str.lower` and PyYAML.
module _ (lower : Text → Text) (yaml : Yaml) where
  unfoldable pub slug_of : Text → Text
  unfolding dashes strip
  slug_of target = dashes (lower (strip target))

  abbrev title_or_stem : Text → Text → Text
  title_or_stem [] stem = stem
  title_or_stem (c ∷ t) stem = c ∷ t

  unfoldable pub node_of : WikiFile → GraphNode
  node_of f =
      let meta = (parse_frontmatter yaml f.content).0 in
      record {
        page_id = f.stem;
        title = title_or_stem meta.title f.stem;
        page_type = meta.page_type;
        path = f.path;
        neighbors = [];
      }

  unfoldable pub edges_of : WikiFile → List Edge
  edges_of f =
      let (meta, body) = parse_frontmatter yaml f.content in
      map (λ slug. (f.stem, slug)) meta.related
      ++ map (λ target. (f.stem, slug_of target)) (extract_wikilinks body)

  -- The first pass, over the files.
  unfoldable pub collect_nodes : List WikiFile → List GraphNode → List GraphNode
  collect_nodes [] nodes = nodes
  collect_nodes (f ∷ fs) nodes = collect_nodes fs (put_node (node_of f) nodes)

  unfoldable pub collect_edges : List WikiFile → List Edge
  collect_edges [] = []
  collect_edges (f ∷ fs) = edges_of f ++ collect_edges fs

  unfoldable pub build_wiki_graph : List WikiFile → WikiGraph
  build_wiki_graph files = record {
    nodes = map sort_neighbors (link_nodes (collect_edges files) (collect_nodes files []));
    edges = collect_edges files;
  }

-- `expanded[neighbor] = expanded.get(neighbor, 0) + 1`
abbrev pub Counts : Type 0
Counts = List (Text × ℕ)

unfoldable pub bump : Text → Counts → Counts
bump x [] = (x, 1) ∷ []
bump x ((y, n) ∷ cs) = let rest = bump x cs in if y == x then (y, suc n) ∷ cs else (y, n) ∷ rest

-- The key is the negated count.
abbrev pub by_count : Text × ℕ → Text × ℕ → Bool
by_count a b = leb b.1 a.1

module _ (graph : WikiGraph) (seeds : List Text) where
  abbrev has_node : Option GraphNode → Bool
  has_node none = false
  has_node (some n) = true

  abbrev pub is_related : Text → Bool
  is_related x = not (contains seeds x) && has_node (find_node x graph.nodes)

  unfoldable pub count_neighbors : List Text → Counts → Counts
  count_neighbors [] cs = cs
  count_neighbors (x ∷ xs) cs = count_neighbors xs (if is_related x then bump x cs else cs)

  abbrev pub neighbors_at : Option GraphNode → List Text
  neighbors_at none = []
  neighbors_at (some n) = n.neighbors

  unfoldable pub count_seeds : List Text → Counts → Counts
  count_seeds [] cs = cs
  count_seeds (id ∷ ids) cs =
      count_seeds ids (count_neighbors (neighbors_at (find_node id graph.nodes)) cs)

  unfoldable pub graph_expand : ℕ → List Text
  graph_expand max_related =
      map (λ p. p.0) (take (max_related * length seeds) (sort_by by_count (count_seeds seeds [])))

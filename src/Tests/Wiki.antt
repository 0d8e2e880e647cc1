-- ===== src/Tests/Wiki.antt =====
-- app/wiki/graph.py on two pages, one of which links to the other.
use llm_wiki_engine.Prelude.{◌*◌, ◌≤◌, ◌≡◌, ◌&&◌, some, List, [], ◌∷◌, length, any, contains, All}
use llm_wiki_engine.Text.{codes}
use llm_wiki_engine.Ingest.Writer.{items, text_eq}
use llm_wiki_engine.Wiki.Frontmatter.{Yaml}
use llm_wiki_engine.Wiki.Graph.{WikiFile, WikiGraph, find_node, graph_expand}
use llm_wiki_engine.Wiki.Graph.Related.{IsRelated, graph_expand-AllRelated}
use llm_wiki_engine.Wiki.Graph.Neighbors.{
  neighbors_of, is_page, joins, pages_of, graph_of, build_wiki_graph-neighbors,
}

-- A reader that finds one related page in any frontmatter.
abbrev related_reader : Yaml
related_reader = record {
  safe_load = λ t. some ((codes "related", items (codes "c" ∷ [])) ∷ []);
  show = λ v. [];
}

abbrev two_files : List WikiFile
two_files =
    record {
      stem = codes "a";
      path = codes "wiki/a.md";
      content = codes "---\nrelated: c\n---\nSee [[b]].";
    }
    ∷ record { stem = codes "b"; path = codes "wiki/b.md"; content = codes "text" }
    ∷ []

abbrev small_graph : WikiGraph
small_graph = graph_of (λ t. t) related_reader two_files

build_wiki_graph-neighbors_example :
    contains (neighbors_of (find_node (codes "b") small_graph.nodes)) (codes "a") ≡ (
      is_page (find_node (codes "b") (pages_of (λ t. t) related_reader two_files))
      && any (joins (codes "b") (codes "a")) small_graph.edges)
build_wiki_graph-neighbors_example =
    build_wiki_graph-neighbors (λ t. t) related_reader (codes "b") (codes "a") two_files

graph_expand-AllRelated_example :
    All (IsRelated small_graph (codes "b" ∷ [])) (graph_expand small_graph (codes "b" ∷ []) 3)
    × (length (graph_expand small_graph (codes "b" ∷ []) 3) ≤ 3 * length (codes "b" ∷ []))
graph_expand-AllRelated_example = graph_expand-AllRelated small_graph (codes "b" ∷ []) 3

-- ===== src/Ingest/Parser/Paths.antt =====
-- Where a path that `is_safe_ingest_path` accepts leads.
use llm_wiki_engine.Prelude.{
  ◌≡◌, refl, true, false, ◌||◌, sym, ◌∙◌, ap, Option, none, some, List, [], ◌∷◌, ◌++◌, arith, inl,
  inr, Bool-cases, all, nat_eq, nat_beq_iff, if◌then◌else◌,
}
use mathlib.Core.List.{append_assoc}
use llm_wiki_engine.Text.{Text, codes, starts_with, is_empty, text_beq, ends_in, cons_part}
use llm_wiki_engine.Ingest.Parser.{is_safe_ingest_path, is_safe_segment, split_segments}

-- Where the segments lead from a directory, named by the segments below the project's directory,
-- the last one first; none if they leave the project's directory.
unfoldable pub walk : List Text → List Text → Option (List Text)
unfolding text_beq
walk [] dir = some dir
walk (seg ∷ segs) dir =
    if is_empty seg || text_beq seg (codes ".")
    then walk segs dir
    else if text_beq seg (codes "..")
    then elim dir [ [] ↦ none | d ∷ up ↦ walk segs up ]
    else walk segs (seg ∷ dir)

-- A safe segment is empty or names something in the directory.
safe_segment_plain :
    (seg : Text)
    → is_safe_segment seg ≡ true
    → (text_beq seg (codes ".") ≡ false) × (text_beq seg (codes "..") ≡ false)
unfolding is_safe_segment text_beq ends_in
safe_segment_plain [] h = (refl, refl)
safe_segment_plain (c ∷ []) h = ground (arith, nat_beq_iff c b'.', nat_beq_iff b'.' c)
safe_segment_plain (c ∷ d ∷ s) h = ground arith

-- A walk along safe segments goes down only.
walk_safe :
    (segs dir : List Text)
    → all is_safe_segment segs ≡ true
    → (below : List Text) × (walk segs dir ≡ some (below ++ dir))
unfolding walk
walk_safe [] dir h = ([], refl)
walk_safe (seg ∷ segs) dir h = elim (Bool-cases (is_empty seg)) [
  | inl e ↦ rw e (walk_safe segs dir (ground arith))
  | inr n ↦
      let (below, e) = walk_safe segs (seg ∷ dir) (ground arith) in
      (
        below ++ seg ∷ [],
        rw n (
            rw (safe_segment_plain seg (ground arith)).0 (
              rw (safe_segment_plain seg (ground arith)).1
                (e ∙ ap some (sym (append_assoc below (seg ∷ []) dir))))),
      )
]

prefix_of : (pre s : Text) → starts_with pre s ≡ true → (rest : Text) × (s ≡ pre ++ rest)
unfolding starts_with
prefix_of [] s h = (s, refl)
prefix_of (p ∷ ps) [] h = cc
prefix_of (p ∷ ps) (c ∷ s) h =
    let (rest, e) = prefix_of ps s (ground arith) in
    (rest, rw ((nat_beq_iff p c).0 (ground arith)) (ap (◌∷◌ c) e))

safe_segments :
    (p : Text) → is_safe_ingest_path p ≡ true → all is_safe_segment (split_segments p) ≡ true
unfolding is_safe_ingest_path
safe_segments p h = ground arith

safe_prefix : (p : Text) → is_safe_ingest_path p ≡ true → starts_with (codes "wiki/") p ≡ true
unfolding is_safe_ingest_path
safe_prefix p h = ground arith

-- A path that `is_safe_ingest_path` accepts, followed segment by segment with both `/` and the
-- backslash as separators, leads to a place under the directory `wiki` of the project.
pub is_safe_ingest_path-walk :
    (p : Text)
    → is_safe_ingest_path p ≡ true
    → (below : List Text) × (walk (split_segments p) [] ≡ some (below ++ codes "wiki" ∷ []))
unfolding split_segments cons_part walk is_safe_segment
is_safe_ingest_path-walk p h = go (prefix_of (codes "wiki/") p (safe_prefix p h))
  where
    go :
        (rest : Text) × (p ≡ codes "wiki/" ++ rest)
        → (below : List Text) × (walk (split_segments p) [] ≡ some (below ++ codes "wiki" ∷ []))
    go (rest, e) =
        rw e (walk_safe (split_segments rest) (codes "wiki" ∷ []) (rw e at (safe_segments p h)))

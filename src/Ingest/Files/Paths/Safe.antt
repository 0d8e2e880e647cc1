-- ===== src/Ingest/Files/Paths/Safe.antt =====
-- The files that `resolve_browser_source_files` lets through.
use llm_wiki_engine.Prelude.{
  ◌≡◌, refl, true, false, some, List, [], ◌∷◌, ◌++◌, any, contains, Bool-cases, Option-cases, ◌==◌,
  arith, inl, inr,
}
use llm_wiki_engine.Text.{Text, codes, starts_with}
use llm_wiki_engine.Ingest.Writer.{text_eq}
use llm_wiki_engine.Text.{text_beq_iff}
use llm_wiki_engine.Ingest.Files.Paths.{
  Disk, name, relative_to, excluded_dirs, is_project_source_file, Chosen, chosen, refused,
  check_choice, add_choice, resolve_browser_source_files,
}

-- The path lies below the root.
relative_to-append :
    (path root rel : List Text) → relative_to path root ≡ some rel → path ≡ root ++ rel
unfolding relative_to
relative_to-append path [] rel h = grind arith
relative_to-append [] (r ∷ root) rel h = absurd (grind arith)
relative_to-append (p ∷ path) (r ∷ root) rel h = elim (Bool-cases (p == r)) [
  | inl e ↦ grind (arith, relative_to-append path root rel, text_beq_iff p r)
  | inr e ↦ absurd (grind arith)
]

-- A file of the tree: it exists, is not hidden, and no part of it below the root is excluded.
pub record IsSource (disk : Disk) (root path : List Text) : Type 0 where
  pub below : List Text
  pub inside : path ≡ root ++ below
  pub exists : disk.is_file path ≡ true
  pub shown : starts_with (codes ".") (name path) ≡ false
  pub allowed : any (contains excluded_dirs) below ≡ false

check_choice-IsSource :
    (disk : Disk) (root : List Text) (file : Text) (src found : List Text)
    → check_choice disk root file src ≡ chosen found
    → (found ≡ src) × IsSource disk root src
unfolding check_choice is_project_source_file
check_choice-IsSource disk root file src found h = elim (Option-cases (relative_to src root)) [
  | inl e ↦ absurd (ground (arith, e, h))
  | inr (rel, e) ↦ (
    ground (arith, e, h),
    record {
      below = rel;
      inside = relative_to-append src root rel e;
      exists = ground (arith, e, h);
      shown = ground (arith, e, h);
      allowed = ground (arith, e, h);
    },
  )
]

-- What a successful resolution of a list of names gives.
abbrev pub Resolved :
    (disk : Disk) → (Text → Text) → List Text → List Text → List (List Text) → Type 0
Resolved disk below root [] [] = Unit
Resolved disk below root [] (p ∷ ps) = ⊥
Resolved disk below root (f ∷ fs) [] = ⊥
Resolved disk below root (f ∷ fs) (p ∷ ps) =
    ((p ≡ disk.resolved (below f)) × IsSource disk root p) × Resolved disk below root fs ps

add_choice-chosen :
    {disk : Disk} (c : Chosen disk (List Text)) (rest : Chosen disk (List (List Text)))
    (found : List (List Text))
    → add_choice disk c rest ≡ chosen found
    → (src : List Text) × (paths : List (List Text)) × (c ≡ chosen src)
      × (rest ≡ chosen paths)
      × (found ≡ src ∷ paths)
add_choice-chosen (refused r) rest found h = absurd (ground (arith, h))
add_choice-chosen (chosen src) (refused r) found h = absurd (ground (arith, h))
add_choice-chosen (chosen src) (chosen paths) found h = (src, paths, refl, refl, ground (arith, h))

-- When a selection of names is accepted, each name gives exactly one path, in the order of the names:
-- the file that it resolves to below the root, which exists, is not hidden, and has no part below
-- the root that is among the excluded directories.
pub resolve_browser_source_files-Resolved :
    (disk : Disk) (below : Text → Text) (root files : List Text) (found : List (List Text))
    → resolve_browser_source_files disk below root files ≡ chosen found
    → Resolved disk below root files found
unfolding resolve_browser_source_files
resolve_browser_source_files-Resolved disk below root [] found h =
    let e : found ≡ [] = ground (arith, h) in rw e tt
resolve_browser_source_files-Resolved disk below root (f ∷ fs) found h =
    let (src, paths, first, others, e) =
      add_choice-chosen (check_choice disk root f (disk.resolved (below f)))
        (resolve_browser_source_files disk below root fs) found h in
    let (same, good) = check_choice-IsSource disk root f (disk.resolved (below f)) src first in
    rw (e, same)
      ((refl, good), resolve_browser_source_files-Resolved disk below root fs paths others)

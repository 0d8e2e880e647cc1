-- ===== src/Ingest/Files/Paths.antt =====
-- app/ingest/files.py: the name of a source, the files of a source tree that count, and the files
-- that a user selects in it.
pub mod Safe
use llm_wiki_engine.Prelude.{
  ℕ, suc, Bool, true, false, not, ◌&&◌, ◌||◌, Option, none, some, List, [], ◌∷◌, ◌++◌, filter, any,
  contains, ◌==◌, nat_eq, if◌then◌else◌,
}
use llm_wiki_engine.Text.{Text, codes, split_on, join, starts_with, is_empty}
use llm_wiki_engine.Ingest.Writer.{text_eq}

-- A part between two separators that pathlib keeps.
unfoldable pub keeps_part : Text → Bool
keeps_part p = not (is_empty p || p == codes ".")

-- The root of a path: "//" for exactly two slashes, else "/" for one or more.
unfoldable pub root_parts : Text → List Text
unfolding starts_with
root_parts s =
    if starts_with (codes "///") s
    then codes "/" ∷ []
    else if starts_with (codes "//") s
    then codes "//" ∷ []
    else if starts_with (codes "/") s
    then codes "/" ∷ []
    else []

-- Path(s).parts
unfoldable pub parts : Text → List Text
unfolding split_on keeps_part root_parts
parts s = root_parts s ++ filter keeps_part (split_on b'/' s)

abbrev is_root : Text → Bool
is_root p = p == codes "/" || p == codes "//"

-- Path(*parts).name
unfoldable pub name : List Text → Text
name [] = []
name (p ∷ []) = if is_root p then [] else p
name (p ∷ q ∷ ps) = name (q ∷ ps)

-- The text of relative parts, with "." for none.
unfoldable pub as_posix : List Text → Text
unfolding join
as_posix [] = codes "."
as_posix (p ∷ ps) = join (codes "/") (p ∷ ps)

-- path.relative_to(root), which raises `ValueError` for a path outside of the root.
unfoldable pub relative_to : List Text → List Text → Option (List Text)
relative_to path [] = some path
relative_to [] (r ∷ root) = none
relative_to (p ∷ path) (r ∷ root) =
    let rest = relative_to path root in if p == r then rest else none

-- The parts after the first "raw", "sources".
unfoldable pub after_raw_sources : List Text → Option (List Text)
after_raw_sources [] = none
after_raw_sources (p ∷ []) = none
after_raw_sources (p ∷ q ∷ ps) =
    let rest = after_raw_sources (q ∷ ps) in
    if p == codes "raw" && q == codes "sources" then some ps else rest

unfoldable pub identity_of_parts : List Text → Text
unfolding name after_raw_sources as_posix
identity_of_parts path = elim (after_raw_sources path) [ none ↦ name path | some ps ↦ as_posix ps ]

abbrev pub excluded_dirs : List Text
excluded_dirs =
    codes ".git"
    ∷ codes ".llm-wiki"
    ∷ codes "__pycache__"
    ∷ codes "node_modules"
    ∷ codes "wiki"
    ∷ []

-- What the file system says: the parts of `Path(p).resolve()`, and what stands at a path.
pub record Disk : Type 0 where
  pub resolved : Text → List Text
  pub is_file : List Text → Bool
  pub file_size : List Text → ℕ

module _ (disk : Disk) where
  unfoldable pub source_identity : Text → Option Text → Text
  unfolding relative_to identity_of_parts parts as_posix
  source_identity path none = identity_of_parts (parts path)
  source_identity path (some root) = elim (relative_to (disk.resolved path) (disk.resolved root)) [
    | none ↦ identity_of_parts (parts path)
    | some rel ↦ as_posix rel
  ]

  abbrev no_part_excluded : Option (List Text) → Bool
  no_part_excluded none = false
  no_part_excluded (some rel) = not (any (contains excluded_dirs) rel)

  -- `path` with its resolved parts, below a resolved root.
  unfoldable pub is_project_source_file : List Text → List Text → List Text → Bool
  unfolding name starts_with relative_to
  is_project_source_file path at root =
      if not (disk.is_file path) || starts_with (codes ".") (name path)
      then false
      else no_part_excluded (relative_to at root)

  -- What `resolve_browser_source_files` raises.
  pub data Refusal : Type 0 where
    invalid_source missing_source : Text → Refusal

  pub data Chosen (A : Type 0) : Type 0 where
    chosen : A → Chosen A
    refused : Refusal → Chosen A

  -- One selected file; `src` is `(source_root / source_file).resolve()`.
  unfoldable pub check_choice : List Text → Text → List Text → Chosen (List Text)
  unfolding relative_to is_project_source_file
  check_choice root source_file src = elim (relative_to src root) [
    | none ↦ refused (invalid_source source_file)
    | some rel ↦
        if not (disk.is_file src)
        then refused (missing_source source_file)
        else if not (is_project_source_file src src root)
        then refused (invalid_source source_file)
        else chosen src
  ]

  abbrev pub add_choice : Chosen (List Text) → Chosen (List (List Text)) → Chosen (List (List Text))
  add_choice (refused r) rest = refused r
  add_choice (chosen src) (refused r) = refused r
  add_choice (chosen src) (chosen rest) = chosen (src ∷ rest)

  -- `below root file` is the text of `root / file`.
  unfoldable pub resolve_browser_source_files :
      (Text → Text) → List Text → List Text → Chosen (List (List Text))
  unfolding check_choice
  resolve_browser_source_files below root [] = chosen []
  resolve_browser_source_files below root (f ∷ fs) =
      add_choice (check_choice root f (disk.resolved (below f)))
        (resolve_browser_source_files below root fs)

-- ===== src/Ingest/Files/Selection.antt =====
-- app/ingest/files.py: patterns, the selection of items, sorting and pages. `str.lower` and
-- `fnmatchcase` are parameters.
pub mod Patterns
pub mod Pages
use llm_wiki_engine.Prelude.{
  ℕ, suc, ◌+◌, ◌-◌, ◌*◌, min, max, Bool, true, false, not, ◌&&◌, ◌||◌, Option, none, some, List, [],
  ◌∷◌, map, filter, contains, take, drop, length, is_nil, ◌==◌, nat_eq, if◌then◌else◌, sort_by,
}
use llm_wiki_engine.Text.{occurs_in, Text, codes, strip, starts_with, ends_in, is_empty}
use llm_wiki_engine.Ingest.Writer.{text_eq, text_leb}
use llm_wiki_engine.Ingest.Files.{
  FileStatus, file_status_eq, SortDirection, asc, desc, FileItem, FilePage, ℤ, nonneg,
}
use llm_wiki_engine.Ingest.Files.Paths.{parts, name}

-- s.replace("\\", "/")
unfoldable pub slashes : Text → Text
slashes [] = []
slashes (c ∷ s) = (if c == 0x5C then b'/' else c) ∷ slashes s

-- A pattern as `validate_source_pattern` returns it, or `ValueError`.
unfoldable pub normalized_pattern : Text → Option Text
unfolding starts_with occurs_in
normalized_pattern p =
    if is_empty p
    then none
    else if starts_with (codes "/") p
        || starts_with (codes "../") p
        || occurs_in (codes "/../") p
        || p == codes ".."
    then none
    else some p

unfoldable pub validate_source_pattern : Text → Option Text
unfolding strip slashes normalized_pattern
validate_source_pattern pattern = normalized_pattern (slashes (strip pattern))

-- Whether an expression raises before its value is used.
abbrev pub and_then {ℓ κ} : {A : Type ℓ} {B : Type κ} → Option A → (A → Option B) → Option B
and_then none f = none
and_then (some a) f = f a

-- any(p(x) for x in xs), where a test may raise: the tests after the first that holds do not run.
unfoldable pub any_raising : {A : Type 0} → (A → Option Bool) → List A → Option Bool
any_raising p [] = some false
any_raising p (x ∷ xs) = and_then (p x) (λ b. if b then some true else any_raising p xs)

-- [x for x in xs if p(x)]
unfoldable pub filter_raising : {A : Type 0} → (A → Option Bool) → List A → Option (List A)
filter_raising p [] = some []
filter_raising p (x ∷ xs) =
    and_then (p x)
      (λ b. and_then (filter_raising p xs) (λ rest. some (if b then x ∷ rest else rest)))

-- [validate_source_pattern(p) for p in patterns if p.strip()]
unfoldable pub validate_all : List Text → Option (List Text)
unfolding validate_source_pattern
validate_all [] = some []
validate_all (p ∷ ps) =
    let rest = validate_all ps in
    if is_empty (strip p)
    then rest
    else and_then (validate_source_pattern p) (λ q. and_then rest (λ qs. some (q ∷ qs)))

pub record Selection : Type 0 where
  pub statuses : List FileStatus
  pub include_globs : List Text
  pub exclude_globs : List Text
  pub search : Text
  pub limit : Option ℤ

unfoldable pub by_status : List FileStatus → List FileItem → List FileItem
by_status statuses items =
    if is_nil statuses then items else filter (λ item. contains statuses item.status) items

-- selected[:max(0, limit)], if there is a limit.
unfoldable pub limited : Option ℤ → List FileItem → List FileItem
limited none items = items
limited (some n) items = take (nonneg n) items

unfoldable pub filter_globs :
    (List Text → FileItem → Option Bool) → List Text → List FileItem → Option (List FileItem)
unfolding filter_raising
filter_globs test [] items = some items
filter_globs test (p ∷ ps) items = filter_raising (test (p ∷ ps)) items

module _ (lower : Text → Text) where
  unfoldable pub name_leb : FileItem → FileItem → Bool
  unfolding text_leb
  name_leb a b = text_leb (lower a.source_file) (lower b.source_file)

  -- `needle` is `search.strip().lower()`.
  unfoldable pub finds : Text → FileItem → Bool
  unfolding occurs_in
  finds needle item = is_empty needle || occurs_in needle (lower item.source_file)

  unfoldable pub direction_leb : SortDirection → FileItem → FileItem → Bool
  unfolding name_leb
  direction_leb asc a b = name_leb a b
  direction_leb desc a b = name_leb b a

  unfoldable pub filter_and_sort_items : Text → SortDirection → List FileItem → List FileItem
  unfolding finds strip direction_leb sort_by
  filter_and_sort_items search sort_dir items =
      sort_by (direction_leb sort_dir) (filter (finds (lower (strip search))) items)

module _ (fnmatchcase : Text → Text → Bool) where
  -- What `_matches_glob` answers for a pattern that it validated.
  unfoldable pub matches_normalized : Text → Text → Bool
  unfolding occurs_in ends_in starts_with parts name
  matches_normalized identity p =
      if fnmatchcase identity p
      then true
      else if not (contains p b'/') && fnmatchcase (name (parts identity)) p
      then true
      else if ends_in b'/' p
      then starts_with p identity
      else false

  unfoldable pub matches_glob : Text → Text → Option Bool
  unfolding validate_source_pattern matches_normalized
  matches_glob identity pattern =
      and_then (validate_source_pattern pattern) (λ p. some (matches_normalized identity p))

  unfoldable pub matches_any : List Text → FileItem → Option Bool
  unfolding any_raising matches_glob
  matches_any patterns item = any_raising (matches_glob item.source_file) patterns

  unfoldable pub matches_none : List Text → FileItem → Option Bool
  unfolding matches_any
  matches_none patterns item = and_then (matches_any patterns item) (λ b. some (not b))

module _ (lower : Text → Text) (fnmatchcase : Text → Text → Bool) where
  unfoldable pub apply_selection : List FileItem → Selection → Option (List FileItem)
  apply_selection items s =
      let found = filter (finds lower (lower (strip s.search))) (by_status s.statuses items) in
      and_then (validate_all s.include_globs) (λ includes.
        and_then (validate_all s.exclude_globs) (λ excludes.
          and_then (filter_globs (matches_any fnmatchcase) includes found) (λ kept.
            and_then (filter_globs (matches_none fnmatchcase) excludes kept)
              (λ rest. some (limited s.limit (sort_by (name_leb lower) rest))))))

-- min(100, max(1, page_size))
abbrev pub safe_size : ℤ → ℕ
safe_size page_size = min 100 (max 1 (nonneg page_size))

unfoldable pub paginate_items : List FileItem → ℤ → ℤ → FilePage
paginate_items items page page_size =
    let start = (max 1 (nonneg page) - 1) * safe_size page_size in
    record {
      items = take (safe_size page_size) (drop start items);
      total = length items;
      page = max 1 (nonneg page);
      page_size = safe_size page_size;
    }

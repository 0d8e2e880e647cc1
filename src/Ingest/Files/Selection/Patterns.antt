-- ===== src/Ingest/Files/Selection/Patterns.antt =====
-- Patterns that were validated are accepted as they stand, and the selection as a single test.
use llm_wiki_engine.Prelude.{
  ℕ, ◌≡◌, refl, sym, ap, ◌∙◌, Bool, true, not, ◌&&◌, ◌||◌, Option, some, List, [], ◌∷◌, filter, any,
  contains, is_nil, All, ◌==◌, nat_eq, if◌then◌else◌, sort_by, Bool-cases, Option-cases, inl, inr,
  arith,
}
use llm_wiki_engine.Text.{
  Text, is_space, cons_stripped, lstrip, rstrip, strip, is_empty, rstrip-rstrip, strip-cons,
  strip_space,
}
use llm_wiki_engine.Ingest.Files.{FileStatus, file_status_eq, FileItem}
use llm_wiki_engine.Ingest.Files.Selection.{
  slashes, normalized_pattern, validate_source_pattern, and_then, any_raising, filter_raising,
  validate_all, Selection, matches_normalized, matches_glob, matches_any, matches_none, name_leb,
  finds, by_status, limited, filter_globs, apply_selection,
}

slashes-slashes : (s : Text) → slashes (slashes s) ≡ slashes s
unfolding slashes
slashes-slashes [] = refl
slashes-slashes (c ∷ s) = grind (arith, slashes-slashes s)

abbrev slash : ℕ → ℕ
slash c = if c == 0x5C then b'/' else c

is_space-slash : (c : ℕ) → is_space (slash c) ≡ is_space c
unfolding is_space
is_space-slash c = ground arith

lstrip-slashes : (s : Text) → lstrip (slashes s) ≡ slashes (lstrip s)
unfolding lstrip slashes
lstrip-slashes [] = refl
lstrip-slashes (c ∷ s) = elim (Bool-cases (is_space c)) [
  | inl e ↦ rw (is_space-slash c, e) (lstrip-slashes s)
  | inr e ↦ rw (is_space-slash c, e) refl
]

cons_stripped-slashes :
    (c : ℕ) (s : Text) → cons_stripped (slash c) (slashes s) ≡ slashes (cons_stripped c s)
unfolding cons_stripped slashes
cons_stripped-slashes c [] = elim (Bool-cases (is_space c)) [
  | inl e ↦ rw (is_space-slash c, e) refl
  | inr e ↦ rw (is_space-slash c, e) refl
]
cons_stripped-slashes c (d ∷ s) = refl

rstrip-slashes : (s : Text) → rstrip (slashes s) ≡ slashes (rstrip s)
unfolding rstrip slashes
rstrip-slashes [] = refl
rstrip-slashes (c ∷ s) =
    ap (cons_stripped (slash c)) (rstrip-slashes s) ∙ cons_stripped-slashes c (rstrip s)

strip-slashes : (s : Text) → strip (slashes s) ≡ slashes (strip s)
unfolding strip
strip-slashes s = ap rstrip (lstrip-slashes s) ∙ rstrip-slashes (lstrip s)

strip_nil : strip [] ≡ []
unfolding strip lstrip rstrip
strip_nil = refl

strip-strip : (s : Text) → strip (strip s) ≡ strip s
strip-strip [] = ap strip strip_nil
strip-strip (c ∷ s) = elim (Bool-cases (is_space c)) [
  | inl e ↦ rw (strip_space c s e) (strip-strip s)
  | inr e ↦ rw (strip-cons c s e, strip-cons c (rstrip s) e, rstrip-rstrip s) refl
]

normalized_pattern-fixed : (p q : Text) → normalized_pattern p ≡ some q → q ≡ p
unfolding normalized_pattern
normalized_pattern-fixed p q h = ground arith

-- A validated pattern is validated to itself.
validate_source_pattern-fixed :
    (p q : Text) → validate_source_pattern p ≡ some q → validate_source_pattern q ≡ some q
unfolding validate_source_pattern
validate_source_pattern-fixed p q h =
    ap normalized_pattern (ap (λ t. slashes (strip t)) e ∙ stable) ∙ h
  where
    e : q ≡ slashes (strip p)
    e = normalized_pattern-fixed (slashes (strip p)) q h

    stable : slashes (strip (slashes (strip p))) ≡ slashes (strip p)
    stable =
        ap slashes (strip-slashes (strip p))
        ∙ slashes-slashes (strip (strip p))
        ∙ ap slashes (strip-strip p)

-- Every pattern is one that `validate_source_pattern` returned.
abbrev Validated : List Text → Type 0
Validated ps = All (λ p. validate_source_pattern p ≡ some p) ps

validate_all-Validated : (ps qs : List Text) → validate_all ps ≡ some qs → Validated qs
unfolding validate_all
validate_all-Validated [] qs h = let e : qs ≡ [] = ground (arith, h) in rw e tt
validate_all-Validated (p ∷ ps) qs h = elim (Bool-cases (is_empty (strip p))) [
  | inl e ↦ validate_all-Validated ps qs (ground (arith, e, h))
  | inr e ↦ elim (Option-cases (validate_source_pattern p)) [
    | inl none_of ↦ absurd (ground (arith, e, none_of, h))
    | inr (q, valid) ↦ elim (Option-cases (validate_all ps)) [
      | inl none_of ↦ absurd (ground (arith, e, valid, none_of, h))
      | inr (rest, others) ↦
          let same : qs ≡ q ∷ rest = ground (arith, e, valid, others, h) in
          rw same (validate_source_pattern-fixed p q valid, validate_all-Validated ps rest others)
    ]
  ]
]

module _ (lower : Text → Text) (fnmatchcase : Text → Text → Bool) where
  -- An item passes all rules of a selection.
  abbrev pub passes : Selection → List Text → List Text → FileItem → Bool
  passes s includes excludes item =
      (is_nil s.statuses || contains s.statuses item.status)
      && finds lower (lower (strip s.search)) item
      && (is_nil includes || any (matches_normalized fnmatchcase item.source_file) includes)
      && not (any (matches_normalized fnmatchcase item.source_file) excludes)

  any_raising-any :
      (identity : Text) (ps : List Text)
      → Validated ps
      → any_raising (matches_glob fnmatchcase identity) ps
        ≡ some (any (matches_normalized fnmatchcase identity) ps)
  unfolding any_raising matches_glob
  any_raising-any identity [] h = refl
  any_raising-any identity (p ∷ ps) h =
      elim (Bool-cases (matches_normalized fnmatchcase identity p)) [
        | inl e ↦ ground (arith, h.0, e)
        | inr e ↦ ground (arith, h.0, e, any_raising-any identity ps h.1)
      ]

  filter_raising-filter :
      (test : FileItem → Option Bool) (p : FileItem → Bool) (items : List FileItem)
      → ((item : FileItem) → test item ≡ some (p item))
      → filter_raising test items ≡ some (filter p items)
  unfolding filter_raising
  filter_raising-filter test p [] h = refl
  filter_raising-filter test p (x ∷ xs) h = rw (h x, filter_raising-filter test p xs h) refl

filter-filter :
    {A : Type 0} (p q r : A → Bool) (xs : List A)
    → ((x : A) → r x ≡ (p x && q x))
    → filter q (filter p xs) ≡ filter r xs
filter-filter p q r [] h = refl
filter-filter p q r (x ∷ xs) h = elim (Bool-cases (p x)) [
  | inl e ↦ elim (Bool-cases (q x)) [
    | inl e' ↦ rw (h x, e, e') (ap (◌∷◌ x) (filter-filter p q r xs h))
    | inr e' ↦ rw (h x, e, e') (filter-filter p q r xs h)
  ]
  | inr e ↦ rw (h x, e) (filter-filter p q r xs h)
]

filter-true : {A : Type 0} (r : A → Bool) (xs : List A) → ((x : A) → r x ≡ true) → filter r xs ≡ xs
filter-true r [] h = refl
filter-true r (x ∷ xs) h = rw (h x) (ap (◌∷◌ x) (filter-true r xs h))

module _ (lower : Text → Text) (fnmatchcase : Text → Text → Bool) where
  -- The rules on globs, and the rules on statuses and the search.
  abbrev included : List Text → FileItem → Bool
  included ps item = is_nil ps || any (matches_normalized fnmatchcase item.source_file) ps

  abbrev not_excluded : List Text → FileItem → Bool
  not_excluded ps item = not (any (matches_normalized fnmatchcase item.source_file) ps)

  filter_includes :
      (ps : List Text) (items : List FileItem)
      → Validated ps
      → filter_globs (matches_any fnmatchcase) ps items ≡ some (filter (included ps) items)
  unfolding filter_globs matches_any
  filter_includes [] items h = ap some (sym (filter-true (included []) items (λ x. refl)))
  filter_includes (p ∷ ps) items h =
      filter_raising-filter lower fnmatchcase (matches_any fnmatchcase (p ∷ ps)) (included (p ∷ ps))
        items (λ item. any_raising-any lower fnmatchcase item.source_file (p ∷ ps) h)

  filter_excludes :
      (ps : List Text) (items : List FileItem)
      → Validated ps
      → filter_globs (matches_none fnmatchcase) ps items ≡ some (filter (not_excluded ps) items)
  unfolding filter_globs matches_none matches_any
  filter_excludes [] items h = ap some (sym (filter-true (not_excluded []) items (λ x. refl)))
  filter_excludes (p ∷ ps) items h =
      filter_raising-filter lower fnmatchcase (matches_none fnmatchcase (p ∷ ps))
        (not_excluded (p ∷ ps)) items
        (λ item.
          ap (λ o. and_then o (λ b. some (not b)))
            (any_raising-any lower fnmatchcase item.source_file (p ∷ ps) h))

  by_status-filter :
      (statuses : List FileStatus) (items : List FileItem)
      → by_status statuses items
        ≡ filter (λ item. is_nil statuses || contains statuses item.status) items
  unfolding by_status
  by_status-filter [] items = sym (filter-true (λ item. true) items (λ x. refl))
  by_status-filter (s ∷ ss) items = refl

  -- The items after the rules on statuses and the search.
  abbrev found : Selection → List FileItem → List FileItem
  found s items = filter (finds lower (lower (strip s.search))) (by_status s.statuses items)

  -- With include and exclude patterns of which every one that is not blank is valid, a selection
  -- raises nothing, and gives the items that pass one test, sorted by their names and cut to the
  -- limit: the status is listed, unless no statuses are; the search occurs in the name; some include
  -- pattern matches, unless there are none; and no exclude pattern does.
  pub apply_selection_exact :
      (items : List FileItem) (s : Selection) (includes excludes : List Text)
      → validate_all s.include_globs ≡ some includes
      → validate_all s.exclude_globs ≡ some excludes
      → apply_selection lower fnmatchcase items s
        ≡ some (
            limited s.limit (
              sort_by
                (name_leb lower)
                (filter (passes lower fnmatchcase s includes excludes) items)))
  unfolding apply_selection
  apply_selection_exact items s includes excludes h k =
      rw
        (
          h,
          k,
          filter_includes includes (found s items)
              (validate_all-Validated s.include_globs includes h),
          filter_excludes excludes (filter (included includes) (found s items))
              (validate_all-Validated s.exclude_globs excludes k),
        )
        (ap (λ xs. some (limited s.limit (sort_by (name_leb lower) xs))) fused)
    where
      sought : FileItem → Bool
      sought = finds lower (lower (strip s.search))

      listed_only : FileItem → Bool
      listed_only item = is_nil s.statuses || contains s.statuses item.status

      fused :
          filter (not_excluded excludes) (filter (included includes) (found s items))
          ≡ filter (passes lower fnmatchcase s includes excludes) items
      fused =
          ap (λ xs. filter (not_excluded excludes) (filter (included includes) (filter sought xs)))
            (by_status-filter s.statuses items)
          ∙ ap (λ xs. filter (not_excluded excludes) (filter (included includes) xs))
              (filter-filter listed_only sought (λ x. listed_only x && sought x) items (λ x. refl))
          ∙ ap (filter (not_excluded excludes)) (
              filter-filter (λ x. listed_only x && sought x) (included includes)
                (λ x. (listed_only x && sought x) && included includes x) items (λ x. refl))
          ∙ filter-filter (λ x. (listed_only x && sought x) && included includes x)
              (not_excluded excludes) (passes lower fnmatchcase s includes excludes) items
              (λ x. ground arith)

-- ===== src/Ingest/Files/Status/Listed.antt =====
-- The list of items: one for each source, with the status that its jobs and the cache say.
use mathlib.Core.Path.{subst}
use llm_wiki_engine.Prelude.{
  ℕ, ◌≡◌, refl, sym, ap, ◌∙◌, Bool, true, false, not, ◌&&◌, ◌||◌, Option, none, some, List, [], ◌∷◌,
  map, contains, Distinct, All, ◌==◌, Bool-cases, inl, inr, arith, sort_by, insert_by,
}
use llm_wiki_engine.Text.{Text, text_beq_iff}
use llm_wiki_engine.Ingest.Writer.{text_eq}
use llm_wiki_engine.Ingest.Queue.{JobStatus, IngestJob}
use llm_wiki_engine.Ingest.Files.{FileStatus, FileItem}
use llm_wiki_engine.Ingest.Files.Paths.{Disk}
use llm_wiki_engine.Ingest.Files.Status.{
  by_sort_key, LatestJobs, find_latest, status_of, item_of, identity_of, latest_jobs, build_item,
  build_items, by_identity, resolve_file_statuses,
}
use llm_wiki_engine.Ingest.Files.Status.Choice.{
  IsStatus, status_of-IsStatus, jobs_say, jobs_of, job_status_of_latest,
}

swap_tests : (a b c : Bool) → (a || (b || c)) ≡ (b || (a || c))
swap_tests a b c = ground arith

module _ (le : Text → Text → Bool) (f : Text → Text) (a : Text) where
  contains-map-insert_by :
      (x : Text) (xs : List Text)
      → contains (map f (insert_by le x xs)) a ≡ (f x == a || contains (map f xs) a)
  unfolding insert_by
  contains-map-insert_by x [] = refl
  contains-map-insert_by x (y ∷ ys) = elim (Bool-cases (le x y)) [
    | inl e ↦ rw e refl
    | inr e ↦ rw e (
        ap (λ b. f y == a || b) (contains-map-insert_by x ys)
        ∙ swap_tests (f y == a) (f x == a) (contains (map f ys) a))
  ]

  contains-map-sort_by :
      (xs : List Text) → contains (map f (sort_by le xs)) a ≡ contains (map f xs) a
  unfolding sort_by
  contains-map-sort_by [] = refl
  contains-map-sort_by (x ∷ xs) =
      contains-map-insert_by x (sort_by le xs) ∙ ap (λ b. f x == a || b) (contains-map-sort_by xs)

item_of-source_file :
    (i p : Text) (size : Option ℕ) (s : FileStatus) (o : Option IngestJob)
    → (item_of i p size s o).source_file ≡ i
unfolding item_of
item_of-source_file i p size s none = refl
item_of-source_file i p size s (some j) = refl

item_of-source_path :
    (i p : Text) (size : Option ℕ) (s : FileStatus) (o : Option IngestJob)
    → (item_of i p size s o).source_path ≡ p
unfolding item_of
item_of-source_path i p size s none = refl
item_of-source_path i p size s (some j) = refl

item_of-status :
    (i p : Text) (size : Option ℕ) (s : FileStatus) (o : Option IngestJob)
    → (item_of i p size s o).status ≡ s
unfolding item_of
item_of-status i p size s none = refl
item_of-status i p size s (some j) = refl

module _ (disk : Disk) (lower : Text → Text) (source_root : Option Text) where
  module _ (latest : LatestJobs) (changed cached : List Text) where
    abbrev items_from : List Text → List Text → List FileItem
    items_from seen paths = build_items disk lower source_root latest changed cached seen paths

    abbrev names_from : List Text → List Text → List Text
    names_from seen paths = map (λ i. i.source_file) (items_from seen paths)

    abbrev id_of : Text → Text
    id_of = identity_of disk lower source_root

    items_seen :
        (seen : List Text) (p : Text) (ps : List Text)
        → contains seen (id_of p) ≡ true
        → items_from seen (p ∷ ps) ≡ items_from seen ps
    unfolding build_items
    items_seen seen p ps e = rw e refl

    items_new :
        (seen : List Text) (p : Text) (ps : List Text)
        → contains seen (id_of p) ≡ false
        → items_from seen (p ∷ ps)
          ≡ build_item disk lower source_root latest changed cached p
            ∷ items_from (id_of p ∷ seen) ps
    unfolding build_items
    items_new seen p ps e = rw e refl

    build_item-source_file :
        (p : Text)
        → (build_item disk lower source_root latest changed cached p).source_file ≡ id_of p
    unfolding build_item
    build_item-source_file p = item_of-source_file (id_of p) p _ _ (find_latest (id_of p) latest)

    names_new :
        (seen : List Text) (p : Text) (ps : List Text)
        → contains seen (id_of p) ≡ false
        → names_from seen (p ∷ ps) ≡ id_of p ∷ names_from (id_of p ∷ seen) ps
    names_new seen p ps e =
        ap (map (λ i. i.source_file)) (items_new seen p ps e)
        ∙ ap (λ n. n ∷ names_from (id_of p ∷ seen) ps) (build_item-source_file p)

    -- A name is listed exactly when some path has it and it was not seen before.
    contains-names_from :
        (seen paths : List Text) (a : Text)
        → contains (names_from seen paths) a
          ≡ (contains (map id_of paths) a && not (contains seen a))
    unfolding build_items
    contains-names_from seen [] a = refl
    contains-names_from seen (p ∷ ps) a = elim (Bool-cases (contains seen (id_of p))) [
      | inl e ↦
          ap (λ is. contains (map (λ i. i.source_file) is) a) (items_seen seen p ps e)
          ∙ contains-names_from seen ps a
          ∙ (elim (Bool-cases (id_of p == a)) [
            | inl q ↦
                let same : contains seen a ≡ true =
                  ap (contains seen) (sym ((text_beq_iff (id_of p) a).0 q)) ∙ e in
                ground (arith, same)
            | inr q ↦ ground (arith, q)
          ])
      | inr e ↦
          ap (λ ns. contains ns a) (names_new seen p ps e)
          ∙ ap (λ b. id_of p == a || b) (contains-names_from (id_of p ∷ seen) ps a)
          ∙ (elim (Bool-cases (id_of p == a)) [
            | inl q ↦
                let same : contains seen a ≡ false =
                  ap (contains seen) (sym ((text_beq_iff (id_of p) a).0 q)) ∙ e in
                ground (arith, same, q)
            | inr q ↦ ground (arith, q)
          ])
    ]

    Distinct-names_from : (seen paths : List Text) → Distinct (names_from seen paths)
    unfolding build_items
    Distinct-names_from seen [] = tt
    Distinct-names_from seen (p ∷ ps) = elim (Bool-cases (contains seen (id_of p))) [
      | inl e ↦
          rw (ap (map (λ i. i.source_file)) (items_seen seen p ps e)) (Distinct-names_from seen ps)
      | inr e ↦ rw (names_new seen p ps e) (
        contains-names_from (id_of p ∷ seen) ps (id_of p)
            ∙ ground (arith, (text_beq_iff (id_of p) (id_of p)).1 refl),
        Distinct-names_from (id_of p ∷ seen) ps,
      )
    ]

    All-items_from :
        (P : FileItem → Type 0) (seen paths : List Text)
        → ((p : Text) → P (build_item disk lower source_root latest changed cached p))
        → All P (items_from seen paths)
    unfolding build_items
    All-items_from P seen [] h = tt
    All-items_from P seen (p ∷ ps) h = elim (Bool-cases (contains seen (id_of p))) [
      | inl e ↦ rw (items_seen seen p ps e) (All-items_from P seen ps h)
      | inr e ↦ rw (items_new seen p ps e) (h p, All-items_from P (id_of p ∷ seen) ps h)
    ]

  module _ (jobs : List IngestJob) (changed cached : List Text) where
    abbrev sorted_jobs : List IngestJob
    sorted_jobs = sort_by by_sort_key jobs

    -- The statuses of the jobs of a source, oldest first.
    abbrev pub statuses_of : Text → List JobStatus
    statuses_of identity = map (λ j. j.status) (jobs_of disk lower source_root identity sorted_jobs)

    abbrev expected_status : Text → FileStatus
    expected_status identity =
        status_of (jobs_say (statuses_of identity)) (contains changed identity)
          (contains cached identity)

    abbrev IsRight : FileItem → Type 0
    IsRight item =
        (item.source_file ≡ identity_of disk lower source_root item.source_path)
        × IsStatus (statuses_of item.source_file) (contains changed item.source_file)
            (contains cached item.source_file) item.status

    IsRight-expected :
        (item : FileItem)
        → item.source_file ≡ identity_of disk lower source_root item.source_path
        → item.status ≡ expected_status item.source_file
        → IsRight item
    IsRight-expected item e h = (
      e,
      subst
          (IsStatus (statuses_of item.source_file) (contains changed item.source_file)
            (contains cached item.source_file))
          (sym h)
          (status_of-IsStatus (statuses_of item.source_file) (contains changed item.source_file)
            (contains cached item.source_file)),
    )

    build_item-IsRight :
        (p : Text)
        → IsRight (
            build_item disk lower source_root
              (latest_jobs disk lower source_root sorted_jobs [])
              changed
              cached
              p)
    unfolding build_item
    build_item-IsRight p =
        IsRight-expected
          (build_item disk lower source_root (latest_jobs disk lower source_root sorted_jobs [])
            changed cached p)
          (item_of-source_file id p _ _ job ∙ ap id_of (sym (item_of-source_path id p _ _ job)))
          (item_of-status id p _ _ job
            ∙ ap (λ o. status_of o (contains changed id) (contains cached id))
                (job_status_of_latest disk lower source_root id sorted_jobs)
            ∙ ap expected_status (sym (item_of-source_file id p _ _ job)))
      where
        id_of : Text → Text
        id_of = identity_of disk lower source_root

        id : Text
        id = id_of p

        job : Option IngestJob
        job = find_latest id (latest_jobs disk lower source_root sorted_jobs [])

    -- What `resolve_file_statuses` promises for its result.
    pub record IsListing (paths : List Text) (items : List FileItem) : Type 0 where
      pub right : All IsRight items
      pub once : Distinct (map (λ i. i.source_file) items)
      pub covers :
          (identity : Text)
          → contains (map (λ i. i.source_file) items) identity
            ≡ contains (map (identity_of disk lower source_root) paths) identity

    -- The listing has exactly one item for each source that some path names. The status of each item
    -- is processing if some job of its source runs; else queued if one waits or is paused; else
    -- failed if the newest job failed, even where the content changed since, against what the
    -- docstring says; else updated if the content changed, compiled if the cache has it, and not
    -- queued otherwise.
    pub resolve_file_statuses-IsListing :
        (paths : List Text)
        → IsListing paths (resolve_file_statuses disk lower source_root paths jobs changed cached)
    unfolding resolve_file_statuses
    resolve_file_statuses-IsListing paths = record {
      right =
          All-items_from (latest_jobs disk lower source_root sorted_jobs []) changed cached IsRight
            [] (sort_by (by_identity disk lower source_root) paths) build_item-IsRight;
      once =
          Distinct-names_from (latest_jobs disk lower source_root sorted_jobs []) changed cached []
            (sort_by (by_identity disk lower source_root) paths);
      covers = λ identity.
          contains-names_from (latest_jobs disk lower source_root sorted_jobs []) changed cached []
            (sort_by (by_identity disk lower source_root) paths) identity
          ∙ ground (
            arith,
            contains-map-sort_by (by_identity disk lower source_root)
                (identity_of disk lower source_root) identity paths,
          );
    }

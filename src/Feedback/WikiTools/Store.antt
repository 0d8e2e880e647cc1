-- ===== src/Feedback/WikiTools/Store.antt =====
-- The working copy as a map from paths to texts.
use llm_wiki_engine.Prelude.{
  ◌≡◌, ◌↔◌, refl, ◌∙◌, ap, Bool, true, false, none, some, [], ◌∷◌, arith, sort_by, insert_by,
  Bool-cases, inl, inr, if◌then◌else◌,
}
use llm_wiki_engine.Text.{Text, text_beq_iff}
use llm_wiki_engine.Feedback.WikiTools.{WikiPath, WikiFiles, path_beq, lookup, put}

path_beq_refl : (p : WikiPath) → path_beq p p ≡ true
unfolding path_beq
path_beq_refl [] = refl
path_beq_refl (c ∷ p) = ground (arith, text_beq_iff c c, path_beq_refl p)

path_beq→eq : (p q : WikiPath) → path_beq p q ≡ true → p ≡ q
unfolding path_beq
path_beq→eq [] [] h = refl
path_beq→eq [] (d ∷ q) h = cc
path_beq→eq (c ∷ p) [] h = cc
path_beq→eq (c ∷ p) (d ∷ q) h = ground (arith, text_beq_iff c d, path_beq→eq p q)

pub path_beq_iff : (p q : WikiPath) → (path_beq p q ≡ true) ↔ (p ≡ q)
path_beq_iff p q = (path_beq→eq p q, λ e. rw e (path_beq_refl q))

pub lookup-put :
    (q p : WikiPath) (c : Text) (fs : WikiFiles)
    → lookup q (put p c fs) ≡ (if path_beq p q then some c else lookup q fs)
unfolding lookup put
lookup-put q p c [] = refl
lookup-put q p c ((r, d) ∷ fs) =
    ground (arith, lookup-put q p c fs, path_beq_iff r p, path_beq_iff r q, path_beq_iff p q)

lookup-cons :
    (q p : WikiPath) (c : Text) (fs gs : WikiFiles)
    → lookup q fs ≡ lookup q gs
    → lookup q ((p, c) ∷ fs) ≡ lookup q ((p, c) ∷ gs)
unfolding lookup
lookup-cons q p c fs gs h = ap (λ o. if path_beq p q then some c else o) h

-- No path is listed twice.
abbrev pub Unique : WikiFiles → Type 0
Unique [] = Unit
Unique ((p, c) ∷ fs) = (lookup p fs ≡ none) × Unique fs

pub Unique-put : (p : WikiPath) (c : Text) (fs : WikiFiles) → Unique fs → Unique (put p c fs)
unfolding put lookup
Unique-put p c [] u = (refl, tt)
Unique-put p c ((r, d) ∷ fs) u = elim (Bool-cases (path_beq r p)) [
  | inl e ↦ rw (e, put) u
  | inr n ↦
      rw (n, put)
        (rw lookup-put (ground (arith, path_beq_iff p r, path_beq_iff r p)), Unique-put p c fs u.1)
]

module _ (le : WikiPath × Text → WikiPath × Text → Bool) where
  lookup-insert :
      (q p : WikiPath) (c : Text) (fs : WikiFiles)
      → lookup p fs ≡ none
      → lookup q (insert_by le (p, c) fs) ≡ lookup q ((p, c) ∷ fs)
  unfolding insert_by lookup
  lookup-insert q p c [] h = refl
  lookup-insert q p c ((r, d) ∷ fs) h =
      elim (le (p, c) (r, d))
        as (λ b.
          lookup q (if b then (p, c) ∷ (r, d) ∷ fs else (r, d) ∷ insert_by le (p, c) fs)
          ≡ lookup q ((p, c) ∷ (r, d) ∷ fs)) [
            | true ↦ refl
            | false ↦ ground (
              arith,
              lookup-insert q p c fs,
              path_beq_iff r p,
              path_beq_iff r q,
              path_beq_iff p q,
            )
          ]

  Unique-insert :
      (p : WikiPath) (c : Text) (fs : WikiFiles)
      → lookup p fs ≡ none
      → Unique fs
      → Unique (insert_by le (p, c) fs)
  unfolding insert_by
  Unique-insert p c [] h u = (h, u)
  Unique-insert p c ((r, d) ∷ fs) h u =
      elim (le (p, c) (r, d))
        as (λ b. Unique (if b then (p, c) ∷ (r, d) ∷ fs else (r, d) ∷ insert_by le (p, c) fs)) [
          | true ↦ (h, u)
          | false ↦ (
            lookup-insert r p c fs (absent_later h) ∙ apart h (path_beq_iff p r) u.0,
            Unique-insert p c fs (absent_later h) u.1,
          )
        ]
    where
      absent_later : lookup p ((r, d) ∷ fs) ≡ none → lookup p fs ≡ none
      absent_later k = unfold lookup in ground (arith, k)

      apart :
          lookup p ((r, d) ∷ fs) ≡ none
          → (path_beq p r ≡ true) ↔ (p ≡ r)
          → lookup r fs ≡ none
          → lookup r ((p, c) ∷ fs) ≡ none
      apart k i l = unfold lookup in ground (arith, k, i, l, path_beq_iff r p)

  -- Sorting the listing of a directory changes no file.
  pub lookup-sort :
      (q : WikiPath) (fs : WikiFiles) → Unique fs → lookup q (sort_by le fs) ≡ lookup q fs
  unfolding sort_by
  lookup-sort q [] u = refl
  lookup-sort q ((p, c) ∷ fs) u =
      lookup-insert q p c (sort_by le fs) (lookup-sort p fs u.1 ∙ u.0)
      ∙ lookup-cons q p c (sort_by le fs) fs (lookup-sort q fs u.1)

  pub Unique-sort : (fs : WikiFiles) → Unique fs → Unique (sort_by le fs)
  unfolding sort_by
  Unique-sort [] u = tt
  Unique-sort ((p, c) ∷ fs) u =
      Unique-insert p c (sort_by le fs) (lookup-sort p fs u.1 ∙ u.0) (Unique-sort fs u.1)

-- ===== src/Llm/Client/Entries.antt =====
-- The entry of each index in the tool map, as the fragments of that index make it.
use llm_wiki_engine.Prelude.{
  ℕ, ◌≡◌, refl, sym, ap, ◌∙◌, Bool, false, ◌||◌, Option, none, some, List, [], ◌∷◌, ◌++◌, map, any,
  All-mp, All-and, contains, Distinct, All, leb, ◌==◌, nat_eq, nat_beq_iff, if◌then◌else◌, sort_by,
  insert_by, Bool-cases, inl, inr, arith,
}
use llm_wiki_engine.Text.{Text}
use llm_wiki_engine.Llm.Client.{
  ToolCall, ToolDelta, Entry, empty_entry, ToolMap, replaced, extended, add_delta, put_delta,
  put_deltas, call_of, by_index,
}

-- The arguments of a call: its fragments one after the other.
abbrev pub arguments_of : ℕ → List ToolDelta → Text
arguments_of i [] = []
arguments_of i (d ∷ ds) =
    let rest = arguments_of i ds in if d.index == i then extended d.arguments [] ++ rest else rest

-- The last text that some fragments of a call give for a field, or else a given one.
abbrev pub last_text : (ToolDelta → Option Text) → ℕ → Text → List ToolDelta → Text
last_text field i old [] = old
last_text field i old (d ∷ ds) =
    last_text field i (if d.index == i then replaced (field d) old else old) ds

-- The entry that the fragments of an index make of a given one.
abbrev pub entry_of : ℕ → Entry → List ToolDelta → Entry
entry_of i e ds = record {
  id = last_text (λ d. d.id) i e.id ds;
  name = last_text (λ d. d.name) i e.name ds;
  arguments = e.arguments ++ arguments_of i ds;
}

abbrev pub call_for : List ToolDelta → ℕ → ToolCall
call_for ds i = call_of (i, entry_of i empty_entry ds)

pub or_assoc : (a b c : Bool) → ((a || b) || c) ≡ (a || (b || c))
or_assoc a b c = ground arith

-- The entry of an index, or an empty one.
abbrev pub get_entry : ℕ → ToolMap → Entry
get_entry i [] = empty_entry
get_entry i ((j, e) ∷ m) = if j == i then e else get_entry i m

abbrev pub keys : ToolMap → List ℕ
keys m = map (λ p. p.0) m

pub append_assoc : {A : Type 0} (xs ys zs : List A) → (xs ++ ys) ++ zs ≡ xs ++ (ys ++ zs)
append_assoc [] ys zs = refl
append_assoc (x ∷ xs) ys zs = ap (◌∷◌ x) (append_assoc xs ys zs)

pub append_nil : {A : Type 0} (xs : List A) → xs ++ [] ≡ xs
append_nil [] = refl
append_nil (x ∷ xs) = ap (◌∷◌ x) (append_nil xs)

pub extended_append :
    (o : Option Text) (old rest : Text) → extended o old ++ rest ≡ old ++ (extended o [] ++ rest)
extended_append none old rest = refl
extended_append (some s) old rest = append_assoc old s rest

pub get_entry-put_delta :
    (i : ℕ) (d : ToolDelta) (m : ToolMap)
    → get_entry i (put_delta d m)
      ≡ (if d.index == i then add_delta d (get_entry i m) else get_entry i m)
unfolding put_delta
get_entry-put_delta i d [] = refl
get_entry-put_delta i d ((j, e) ∷ m) = ground (arith, get_entry-put_delta i d m)

pub entry_of-add_delta :
    (i : ℕ) (d : ToolDelta) (e : Entry) (ds : List ToolDelta)
    → entry_of i (if d.index == i then add_delta d e else e) ds ≡ entry_of i e (d ∷ ds)
entry_of-add_delta i d e ds = elim (Bool-cases (d.index == i)) [
  | inl q ↦ rw q (
      ap
        (λ t. record {
          id = last_text (λ x. x.id) i (replaced d.id e.id) ds;
          name = last_text (λ x. x.name) i (replaced d.name e.name) ds;
          arguments = t;
        })
        (extended_append d.arguments e.arguments (arguments_of i ds)))
  | inr q ↦ rw q refl
]

pub get_entry-put_deltas :
    (i : ℕ) (ds : List ToolDelta) (m : ToolMap)
    → get_entry i (put_deltas ds m) ≡ entry_of i (get_entry i m) ds
unfolding put_deltas
get_entry-put_deltas i [] m =
    ap (λ t. record { id = (get_entry i m).id; name = (get_entry i m).name; arguments = t })
      (sym (append_nil (get_entry i m).arguments))
get_entry-put_deltas i (d ∷ ds) m =
    get_entry-put_deltas i ds (put_delta d m)
    ∙ ap (λ e. entry_of i e ds) (get_entry-put_delta i d m)
    ∙ entry_of-add_delta i d (get_entry i m) ds

pub keys-put_delta :
    (i : ℕ) (d : ToolDelta) (m : ToolMap)
    → contains (keys (put_delta d m)) i ≡ (contains (keys m) i || d.index == i)
unfolding put_delta
keys-put_delta i d [] = ground arith
keys-put_delta i d ((j, e) ∷ m) = ground (arith, keys-put_delta i d m)

Distinct-put_delta :
    (d : ToolDelta) (m : ToolMap) → Distinct (keys m) → Distinct (keys (put_delta d m))
unfolding put_delta
Distinct-put_delta d [] h = (refl, tt)
Distinct-put_delta d ((j, e) ∷ m) h = elim (Bool-cases (j == d.index)) [
  | inl q ↦ rw q h
  | inr q ↦ rw q (keys-put_delta j d m ∙ ground (arith, h.0, q), Distinct-put_delta d m h.1)
]

pub keys-put_deltas :
    (i : ℕ) (ds : List ToolDelta) (m : ToolMap)
    → contains (keys (put_deltas ds m)) i ≡ (contains (keys m) i || any (λ d. d.index == i) ds)
unfolding put_deltas
keys-put_deltas i [] m = ground arith
keys-put_deltas i (d ∷ ds) m =
    keys-put_deltas i ds (put_delta d m)
    ∙ ap (λ b. b || any (λ x. x.index == i) ds) (keys-put_delta i d m)
    ∙ or_assoc (contains (keys m) i) (d.index == i) (any (λ x. x.index == i) ds)

pub Distinct-put_deltas :
    (ds : List ToolDelta) (m : ToolMap) → Distinct (keys m) → Distinct (keys (put_deltas ds m))
unfolding put_deltas
Distinct-put_deltas [] m h = h
Distinct-put_deltas (d ∷ ds) m h = Distinct-put_deltas ds (put_delta d m) (Distinct-put_delta d m h)

-- The entries of a map with distinct keys are those that a lookup finds.
pub others_apart :
    (j : ℕ) (m : ToolMap) → contains (keys m) j ≡ false → All (λ p. (j == p.0) ≡ false) m
others_apart j [] h = tt
others_apart j ((i, e) ∷ m) h = (ground (arith, h), others_apart j m (ground (arith, h)))

pub get_entry-found : (m : ToolMap) → Distinct (keys m) → All (λ p. p.1 ≡ get_entry p.0 m) m
get_entry-found [] h = tt
get_entry-found ((j, e) ∷ m) h = (
  rw ((nat_beq_iff j j).1 refl) refl,
  All-mp (λ p. (p.1 ≡ get_entry p.0 m) × ((j == p.0) ≡ false))
      (λ p. p.1 ≡ get_entry p.0 ((j, e) ∷ m)) m (λ p k. rw k.1 k.0)
      (All-and (λ p. p.1 ≡ get_entry p.0 m) (λ p. (j == p.0) ≡ false) m (get_entry-found m h.1)
        (others_apart j m h.0)),
)

pub entries-map :
    (f : ℕ → Entry) (m : ToolMap) → All (λ p. p.1 ≡ f p.0) m → m ≡ map (λ i. (i, f i)) (keys m)
entries-map f [] h = refl
entries-map f ((i, e) ∷ m) h = ap (λ x. (i, x) ∷ m) h.0 ∙ ap (◌∷◌ (i, f i)) (entries-map f m h.1)

module _ (f : ℕ → Entry) where
  pub insert_by-map :
      (i : ℕ) (is : List ℕ)
      → insert_by by_index (i, f i) (map (λ k. (k, f k)) is)
        ≡ map (λ k. (k, f k)) (insert_by leb i is)
  unfolding insert_by
  insert_by-map i [] = refl
  insert_by-map i (j ∷ is) = elim (Bool-cases (leb i j)) [
    | inl q ↦ rw q refl
    | inr q ↦ rw q (ap (◌∷◌ (j, f j)) (insert_by-map i is))
  ]

  pub sort_by-map :
      (is : List ℕ)
      → sort_by by_index (map (λ k. (k, f k)) is) ≡ map (λ k. (k, f k)) (sort_by leb is)
  unfolding sort_by
  sort_by-map [] = refl
  sort_by-map (i ∷ is) =
      ap (insert_by by_index (i, f i)) (sort_by-map is) ∙ insert_by-map i (sort_by leb is)

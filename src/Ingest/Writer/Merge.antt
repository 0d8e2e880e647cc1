-- ===== src/Ingest/Writer/Merge.antt =====
-- What a merge of two frontmatters keeps.
use llm_wiki_engine.Prelude.{
  ◌≡◌, refl, ◌∙◌, ap, Bool, false, ◌||◌, some, List, [], ◌∷◌, ◌++◌, arith, contains, sort_by,
  insert_by,
}
use llm_wiki_engine.Text.{Text, codes, text_beq, text_beq_iff, is_empty}
use llm_wiki_engine.Ingest.Writer.{
  text_eq, Value, Frontmatter, get_value, set_value, update_all, to_str_list, text_leb, dedupe,
  sorted_union, merge_key, add_source, merge_frontmatter,
}

get_value-set_value :
    (k : Text) (v : Value) (fm : Frontmatter) → get_value k (set_value k v fm) ≡ some v
unfolding get_value set_value
get_value-set_value k v [] = rw ((text_beq_iff k k).1 refl) refl
get_value-set_value k v ((j, w) ∷ fm) =
    ground (arith, text_beq_iff k k, text_beq_iff j k, get_value-set_value k v fm)

get_value-set_value_other :
    (k l : Text) (v : Value) (fm : Frontmatter)
    → text_beq k l ≡ false
    → get_value l (set_value k v fm) ≡ get_value l fm
unfolding get_value set_value
get_value-set_value_other k l v [] h = rw h refl
get_value-set_value_other k l v ((j, w) ∷ fm) h =
    ground (arith, text_beq_iff j k, text_beq_iff k l, get_value-set_value_other k l v fm h)

pub contains-append :
    (xs ys : List Text) (x : Text) → contains (xs ++ ys) x ≡ (contains xs x || contains ys x)
contains-append [] ys x = refl
contains-append (z ∷ xs) ys x = ground (arith, contains-append xs ys x)

pub contains-dedupe : (xs : List Text) (x : Text) → contains (dedupe xs) x ≡ contains xs x
unfolding dedupe
contains-dedupe [] x = refl
contains-dedupe (z ∷ xs) x =
    ground (arith, contains-dedupe xs x, contains-dedupe xs z, text_beq_iff z x)

contains-insert :
    (z : Text) (xs : List Text) (x : Text)
    → contains (insert_by text_leb z xs) x ≡ contains (z ∷ xs) x
unfolding insert_by
contains-insert z [] x = refl
contains-insert z (y ∷ xs) x = ground (arith, contains-insert z xs x)

pub contains-sort : (xs : List Text) (x : Text) → contains (sort_by text_leb xs) x ≡ contains xs x
unfolding sort_by
contains-sort [] x = refl
contains-sort (z ∷ xs) x =
    contains-insert z (sort_by text_leb xs) x ∙ ground (arith, contains-sort xs x)

contains-sorted_union :
    (xs ys : List Text) (x : Text)
    → contains (sorted_union xs ys) x ≡ (contains xs x || contains ys x)
unfolding sorted_union
contains-sorted_union xs ys x =
    contains-sort (dedupe (xs ++ ys)) x ∙ contains-dedupe (xs ++ ys) x ∙ contains-append xs ys x

-- Whether a key of the frontmatter lists a text.
abbrev pub lists : Text → Frontmatter → Text → Bool
lists key fm x = contains (to_str_list (get_value key fm)) x

lists-merge_key :
    (e i : Frontmatter) (k : Text) (m : Frontmatter) (x : Text)
    → lists k (merge_key e i k m) x ≡ (lists k e x || lists k i x)
unfolding merge_key
lists-merge_key e i k m x =
    rw get_value-set_value (unfold to_str_list in contains-sorted_union _ _ x)

lists-merge_key_other :
    (e i : Frontmatter) (k l : Text) (m : Frontmatter) (x : Text)
    → text_beq k l ≡ false
    → lists l (merge_key e i k m) x ≡ lists l m x
unfolding merge_key
lists-merge_key_other e i k l m x h = rw (get_value-set_value_other k l _ m h) refl

lists-add_source_other :
    (src l : Text) (m : Frontmatter) (x : Text)
    → text_beq (codes "sources") l ≡ false
    → lists l (add_source src m) x ≡ lists l m x
unfolding add_source
lists-add_source_other [] l m x h = refl
lists-add_source_other (c ∷ src) l m x h =
    rw (get_value-set_value_other (codes "sources") l _ m h) refl

lists-add_source :
    (src : Text) (m : Frontmatter) (x : Text)
    → is_empty src ≡ false
    → lists (codes "sources") (add_source src m) x
      ≡ (lists (codes "sources") m x || contains (src ∷ []) x)
unfolding add_source
lists-add_source [] m x h = cc
lists-add_source (c ∷ src) m x h =
    rw get_value-set_value (unfold to_str_list in contains-sorted_union _ ((c ∷ src) ∷ []) x)

-- The union of what two pages list under a key.
abbrev pub either_lists : Text → Frontmatter → Frontmatter → Text → Bool
either_lists key e i x = lists key e x || lists key i x

-- A merged page lists as a tag, or as a related page, exactly what the existing or the incoming
-- page lists so; its sources are those of both pages and the file that is ingested.
pub merge_frontmatter-lists :
    (e i : Frontmatter) (source x : Text)
    → is_empty source ≡ false
    → let m = merge_frontmatter e i source in
      (lists (codes "tags") m x ≡ either_lists (codes "tags") e i x)
      × (lists (codes "related") m x ≡ either_lists (codes "related") e i x)
      × (lists (codes "sources") m x
          ≡ (either_lists (codes "sources") e i x || contains (source ∷ []) x))
unfolding merge_frontmatter text_beq
merge_frontmatter-lists e i source x h =
    let m1 = merge_key e i (codes "tags") (update_all e i) in
    let m2 = merge_key e i (codes "related") m1 in
    let m3 = merge_key e i (codes "sources") m2 in
    (
      lists-add_source_other source (codes "tags") m3 x refl
          ∙ lists-merge_key_other e i (codes "sources") (codes "tags") m2 x refl
          ∙ lists-merge_key_other e i (codes "related") (codes "tags") m1 x refl
          ∙ lists-merge_key e i (codes "tags") (update_all e i) x,
      lists-add_source_other source (codes "related") m3 x refl
          ∙ lists-merge_key_other e i (codes "sources") (codes "related") m2 x refl
          ∙ lists-merge_key e i (codes "related") m1 x,
      lists-add_source source m3 x h
          ∙ ap (λ b. b || contains (source ∷ []) x) (lists-merge_key e i (codes "sources") m2 x),
    )

-- ===== src/Text/Laws.antt =====
-- Laws of the text operations.
use llm_wiki_engine.Prelude.{
  any, All, Bool, ℕ, suc, ◌≤◌, ◌≡◌, refl, sym, ap, nat_beq_iff, ◌∙◌, ◌↔◌, true, false, List, [],
  ◌∷◌, ◌++◌, arith, inl, inr, Bool-cases, nat_eq, ◌==◌, length,
}
use llm_wiki_engine.Text.Defs.{
  Text, is_space, lstrip, cons_stripped, rstrip, strip, cons_part, split_on, join, text_beq,
  is_empty, newlines_from, newlines,
}

pub length-lstrip-le : (s : Text) → length (lstrip s) ≤ length s
unfolding lstrip
length-lstrip-le [] = omega arith
length-lstrip-le (c ∷ s) = ground (arith, length-lstrip-le s)

length-cons_stripped-le : (c : ℕ) (s : Text) → length (cons_stripped c s) ≤ suc (length s)
unfolding cons_stripped
length-cons_stripped-le c [] = ground arith
length-cons_stripped-le c (d ∷ s) = omega arith

pub length-rstrip-le : (s : Text) → length (rstrip s) ≤ length s
unfolding rstrip
length-rstrip-le [] = omega arith
length-rstrip-le (c ∷ s) = omega (arith, length-rstrip-le s, length-cons_stripped-le c (rstrip s))

pub length-strip-le : (s : Text) → length (strip s) ≤ length s
unfolding strip
length-strip-le s = omega (arith, length-rstrip-le (lstrip s), length-lstrip-le s)

text_beq_refl : (s : Text) → text_beq s s ≡ true
unfolding text_beq
text_beq_refl [] = refl
text_beq_refl (c ∷ s) = ground (arith, text_beq_refl s)

text_beq→eq : (s t : Text) → text_beq s t ≡ true → s ≡ t
unfolding text_beq
text_beq→eq [] [] h = refl
text_beq→eq [] (d ∷ t) h = cc
text_beq→eq (c ∷ s) [] h = cc
text_beq→eq (c ∷ s) (d ∷ t) h = ground (arith, text_beq→eq s t)

pub text_beq_iff : (s t : Text) → (text_beq s t ≡ true) ↔ (s ≡ t)
text_beq_iff s t = (text_beq→eq s t, λ e. rw e (text_beq_refl t))

-- What `rstrip` returns has no space at its end, so it is not changed by another `rstrip`.
pub rstrip-rstrip : (s : Text) → rstrip (rstrip s) ≡ rstrip s
unfolding rstrip
rstrip-rstrip [] = refl
rstrip-rstrip (c ∷ s) = go (rstrip s) (rstrip-rstrip s)
  where
    go : (r : Text) → rstrip r ≡ r → rstrip (cons_stripped c r) ≡ cons_stripped c r
    go [] h = ground arith
    go (d ∷ r) h = ap (cons_stripped c) h

cons_stripped_ne : (c : ℕ) (s : Text) → is_space c ≡ false → cons_stripped c s ≡ c ∷ s
unfolding cons_stripped
cons_stripped_ne c [] h = rw h
cons_stripped_ne c (d ∷ s) h = refl

-- A text that starts with a character other than space keeps it under `strip`.
pub strip-cons : (c : ℕ) (s : Text) → is_space c ≡ false → strip (c ∷ s) ≡ c ∷ rstrip s
unfolding strip lstrip
strip-cons c s h = rw h (unfold rstrip in cons_stripped_ne c (rstrip s) h)

pub strip_space : (c : ℕ) (s : Text) → is_space c ≡ true → strip (c ∷ s) ≡ strip s
unfolding strip lstrip
strip_space c s h = rw h

-- `strip` leaves nothing of a text only if all of it is space.
pub strip_nonempty :
    (s t : Text) (c : ℕ) → is_space c ≡ false → is_empty (strip (s ++ c ∷ t)) ≡ false
strip_nonempty [] t c h = rw (strip-cons c t h)
strip_nonempty (d ∷ s) t c h = elim (Bool-cases (is_space d)) [
  | inl e ↦ rw (strip_space d (s ++ c ∷ t) e) (strip_nonempty s t c h)
  | inr n ↦ rw (strip-cons d (s ++ c ∷ t) n)
]

pub split_on_cons : (sep : ℕ) (s : Text) → (p : Text) × (ps : List Text) × (split_on sep s ≡ p ∷ ps)
unfolding split_on cons_part
split_on_cons sep [] = ([], [], refl)
split_on_cons sep (c ∷ s) = elim (Bool-cases (c == sep)) [
  | inl e ↦ ([], split_on sep s, rw e)
  | inr n ↦ let (p, ps, e) = split_on_cons sep s in (c ∷ p, ps, rw n (rw e))
]

join_cons_char :
    (sep : Text) (c : ℕ) (p : Text) (ps : List Text)
    → join sep ((c ∷ p) ∷ ps) ≡ c ∷ join sep (p ∷ ps)
unfolding join
join_cons_char sep c p [] = refl
join_cons_char sep c p (q ∷ ps) = refl

-- Splitting at a separator and joining with it again gives the text back.
pub join-split_on : (sep : ℕ) (s : Text) → join (sep ∷ []) (split_on sep s) ≡ s
unfolding split_on join cons_part
join-split_on sep [] = refl
join-split_on sep (c ∷ s) = go (split_on_cons sep s) (join-split_on sep s)
  where
    go :
        (p : Text) × (ps : List Text) × (split_on sep s ≡ p ∷ ps)
        → join (sep ∷ []) (split_on sep s) ≡ s
        → join (sep ∷ []) (split_on sep (c ∷ s)) ≡ c ∷ s
    go (p, ps, e) ih = elim (Bool-cases (c == sep)) [
      | inl q ↦
          rw (q, split_on)
            (rw e (ap (◌∷◌ sep) (rw e at ih) ∙ ap (λ x. x ∷ s) (sym ((nat_beq_iff c sep).0 q))))
      | inr q ↦ rw (q, split_on) (rw e (join_cons_char (sep ∷ []) c p ps ∙ ap (◌∷◌ c) (rw e at ih)))
    ]

-- The separator does not occur.
abbrev pub Lacks : ℕ → Text → Type 0
Lacks sep s = any (λ c. c == sep) s ≡ false

split_on_last : (sep : ℕ) (s : Text) → Lacks sep s → split_on sep s ≡ s ∷ []
unfolding split_on cons_part
split_on_last sep [] h = refl
split_on_last sep (c ∷ s) h = ground (arith, split_on_last sep s)

split_on-append :
    (sep : ℕ) (s t : Text) → Lacks sep s → split_on sep (s ++ sep ∷ t) ≡ s ∷ split_on sep t
unfolding split_on cons_part
split_on-append sep [] t h = rw ((nat_beq_iff sep sep).1 refl) refl
split_on-append sep (c ∷ s) t h = ground (arith, split_on-append sep s t)

-- Joining parts that lack the separator and splitting again gives the parts back.
pub split_on-join :
    (sep : ℕ) (p : Text) (ps : List Text)
    → Lacks sep p
    → All (Lacks sep) ps
    → split_on sep (join (sep ∷ []) (p ∷ ps)) ≡ p ∷ ps
unfolding join
split_on-join sep p [] h k = split_on_last sep p h
split_on-join sep p (q ∷ ps) h k =
    split_on-append sep p (join (sep ∷ []) (q ∷ ps)) h ∙ ap (◌∷◌ p) (split_on-join sep q ps k.0 k.1)

-- A text without carriage returns.
abbrev HasNoCr : Text → Type 0
HasNoCr s = All (λ c. (c == 13) ≡ false) s

newlines_from-HasNoCr : (after_cr : Bool) (s : Text) → HasNoCr (newlines_from after_cr s)
unfolding newlines_from
newlines_from-HasNoCr after_cr [] = tt
newlines_from-HasNoCr after_cr (c ∷ s) =
    ground (arith, newlines_from-HasNoCr true s, newlines_from-HasNoCr false s)

newlines_unchanged : (s : Text) → HasNoCr s → newlines s ≡ s
unfolding newlines newlines_from
newlines_unchanged [] h = refl
newlines_unchanged (c ∷ s) h = ground (arith, h.0, newlines_unchanged s h.1)

-- A text that was read is not changed by another read.
pub newlines-newlines : (s : Text) → newlines (newlines s) ≡ newlines s
unfolding newlines
newlines-newlines s = newlines_unchanged (newlines s) (newlines_from-HasNoCr false s)

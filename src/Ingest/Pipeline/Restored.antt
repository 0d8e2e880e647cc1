-- ===== src/Ingest/Pipeline/Restored.antt =====
-- The files of the project under the writes of pages and their rollback.
use llm_wiki_engine.Prelude.{
  ◌≡◌, refl, ◌∙◌, ap, false, ◌||◌, Option, none, some, List, [], ◌∷◌, map, arith, contains,
  Bool-cases, inl, inr,
}
use llm_wiki_engine.Text.{Text, text_beq, text_beq_iff, newlines-newlines}
use llm_wiki_engine.Ingest.Parser.{ParsedFileBlock}
use llm_wiki_engine.Ingest.Writer.{
  text_eq, Files, Outside, Written, whole, torn, write_at, write_file_blocks, write_block, land,
  write_final, read_text, read_at,
}
use llm_wiki_engine.Ingest.Pipeline.{State, snapshot_targets, restore_targets}

-- The files that the blocks name.
abbrev pub files_of : Outside → List ParsedFileBlock → List Text
files_of o = map (λ b. o.file_of b.path)

land_other :
    (file text : Text) (files : Files) (w : Written) (f : Text)
    → text_beq file f ≡ false
    → (land file text files w).1 f ≡ files f
unfolding land write_at
land_other file text files whole f h = ground (arith, text_beq_iff f file, text_beq_iff file f)
land_other file text files (torn left) f h =
    ground (arith, text_beq_iff f file, text_beq_iff file f)

write_final_other :
    (o : Outside) (file : Text) (c : Option Text) (files : Files) (f : Text)
    → text_beq file f ≡ false
    → (write_final o file c files).1 f ≡ files f
unfolding write_final
write_final_other o file none files f h = refl
write_final_other o file (some text) files f h = land_other file text files _ f h

write_block_other :
    (o : Outside) (source : Text) (b : ParsedFileBlock) (files : Files) (f : Text)
    → text_beq (o.file_of b.path) f ≡ false
    → (write_block o source b files).1 f ≡ files f
unfolding write_block
write_block_other o source b files f h = write_final_other o (o.file_of b.path) _ files f h

-- A write changes no other file than those that the blocks name.
pub write_file_blocks_other :
    (o : Outside) (source : Text) (bs : List ParsedFileBlock) (files : Files) (f : Text)
    → contains (files_of o bs) f ≡ false
    → (write_file_blocks o source bs files).1 f ≡ files f
unfolding write_file_blocks
write_file_blocks_other o source [] files f h = refl
write_file_blocks_other o source (b ∷ bs) files f h = ground (
  arith,
  write_block_other o source b files f,
  write_file_blocks_other o source bs (write_block o source b files).1 f,
)

read_text-read_text : (t : Option Text) → read_text (read_text t) ≡ read_text t
read_text-read_text none = refl
read_text-read_text (some t) = ap some (newlines-newlines t)

-- The rollback gives back what was read of every file that the paths name, and leaves the others.
pub restore_snapshot :
    (file_of : Text → Text) (paths : List Text) (before after : Files) (f : Text)
    → (contains (map file_of paths) f ≡ false → read_at f after ≡ read_at f before)
    → read_at f (restore_targets (snapshot_targets file_of paths before) after) ≡ read_at f before
unfolding restore_targets write_at
restore_snapshot file_of [] before after f h = h refl
restore_snapshot file_of (p ∷ paths) before after f h =
    restore_snapshot file_of paths before (write_at (file_of p) (read_at (file_of p) before) after)
      f (λ c. written_back c)
  where
    written_back :
        contains (map file_of paths) f ≡ false
        → read_at f (write_at (file_of p) (read_at (file_of p) before) after) ≡ read_at f before
    written_back c = elim (Bool-cases (text_beq f (file_of p))) [
      | inl e ↦
          rw (e, write_at)
            (read_text-read_text (before (file_of p))
              ∙ ap (λ g. read_text (before g))
                  ((text_beq_iff (file_of p) f).0
                    (ground (arith, text_beq_iff f (file_of p), text_beq_iff (file_of p) f))))
      | inr n ↦
          rw (n, write_at)
            (h (ground (arith, text_beq_iff f (file_of p), text_beq_iff (file_of p) f)))
    ]

-- Every file of the project reads as before.
abbrev pub KeepsFiles : State → State → Type 0
KeepsFiles s s1 = (f : Text) → read_at f s1.files ≡ read_at f s.files

-- The files, and the cache.
abbrev pub Keeps : State → State → Type 0
Keeps s s1 = KeepsFiles s s1 × (s1.cached ≡ s.cached)

pub contains-files_of :
    (o : Outside) (bs : List ParsedFileBlock) (f : Text)
    → contains (map o.file_of (map (λ x. x.path) bs)) f ≡ contains (files_of o bs) f
contains-files_of o [] f = refl
contains-files_of o (b ∷ bs) f =
    ap (λ c. text_beq (o.file_of b.path) f || c) (contains-files_of o bs f)

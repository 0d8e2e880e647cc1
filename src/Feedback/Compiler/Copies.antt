-- ===== src/Feedback/Compiler/Copies.antt =====
-- What the tool calls of the compiler agent keep of its working copy.
use llm_wiki_engine.Prelude.{
  ◌≡◌, ◌≢◌, refl, Bool, true, false, Option, none, some, List, [], ◌∷◌, arith, ◌==◌, nat_eq,
  if◌then◌else◌,
}
use llm_wiki_engine.Text.{Text}
use llm_wiki_engine.Feedback.WikiTools.{
  WikiPath, WikiFiles, lookup, put, escapes, resolve, Call, read_file, list_files, grep, edit_file,
  create_file, submit_changes, unknown_tool, edit_content, edit_resolved, do_edit, create_resolved,
  do_create, count, execute_tool,
}
use llm_wiki_engine.Feedback.WikiTools.Store.{path_beq_iff, lookup-put, Unique, Unique-put}
use llm_wiki_engine.Feedback.Compiler.{run_calls}

-- The working copy lists every file of the wiki, each file once, and it agrees with the wiki where
-- a path would leave the root.
abbrev pub IsCopy : WikiFiles → WikiFiles → Type 0
IsCopy original files =
    Unique files
    × ((q : WikiPath) → lookup q original ≢ none → lookup q files ≢ none)
    × ((q : WikiPath) → escapes q ≡ true → lookup q files ≡ lookup q original)

put-IsCopy :
    (original files : WikiFiles) (p : WikiPath) (c : Text)
    → escapes p ≡ false
    → IsCopy original files
    → IsCopy original (put p c files)
put-IsCopy original files p c e (u, k, o) = (
  Unique-put p c files u,
  (λ q h. rw lookup-put (ground (arith, k q h))),
  λ q h. rw lookup-put (ground (arith, o q h, path_beq_iff p q)),
)

resolve-escapes : (t : Text) (p : WikiPath) → resolve t ≡ some p → escapes p ≡ false
unfolding resolve
resolve-escapes t p h = ground arith

IsCopy-if :
    {A : Type 0} (original : WikiFiles) (b : Bool) (x y : A × WikiFiles)
    → IsCopy original x.1
    → IsCopy original y.1
    → IsCopy original (if b then x else y).1
IsCopy-if original true x y h k = h
IsCopy-if original false x y h k = k

module _ (refused : WikiFiles → WikiPath → Bool) (original : WikiFiles) where
  edit_content-IsCopy :
      (p : WikiPath) (old new : Text) (content : Option Text) (files : WikiFiles)
      → escapes p ≡ false
      → IsCopy original files
      → IsCopy original (edit_content p old new content files).1
  unfolding edit_content
  edit_content-IsCopy p old new none files e h = h
  edit_content-IsCopy p old new (some content) files e h =
      IsCopy-if original (count old content == 1) _ _ (put-IsCopy original files p _ e h) h

  edit_resolved-IsCopy :
      (r : Option WikiPath) (old new : Text) (files : WikiFiles)
      → ((p : WikiPath) → r ≡ some p → escapes p ≡ false)
      → IsCopy original files
      → IsCopy original (edit_resolved r old new files).1
  unfolding edit_resolved
  edit_resolved-IsCopy none old new files e h = h
  edit_resolved-IsCopy (some p) old new files e h =
      edit_content-IsCopy p old new (lookup p files) files (e p refl) h

  create_resolved-IsCopy :
      (r : Option WikiPath) (content : Text) (files : WikiFiles)
      → ((p : WikiPath) → r ≡ some p → escapes p ≡ false)
      → IsCopy original files
      → IsCopy original (create_resolved refused r content files).1
  unfolding create_resolved
  create_resolved-IsCopy none content files e h = h
  create_resolved-IsCopy (some p) content files e h =
      IsCopy-if original (refused files p) _ _ h (put-IsCopy original files p _ (e p refl) h)

  execute_tool-IsCopy :
      (c : Call) (files : WikiFiles)
      → IsCopy original files
      → IsCopy original (execute_tool refused c files).1
  unfolding execute_tool do_edit do_create
  execute_tool-IsCopy (read_file path) files h = h
  execute_tool-IsCopy (list_files pattern) files h = h
  execute_tool-IsCopy (grep pattern path) files h = h
  execute_tool-IsCopy (edit_file path old new) files h =
      edit_resolved-IsCopy (resolve path) old new files (resolve-escapes path) h
  execute_tool-IsCopy (create_file path content) files h =
      create_resolved-IsCopy (resolve path) content files (resolve-escapes path) h
  execute_tool-IsCopy submit_changes files h = h
  execute_tool-IsCopy unknown_tool files h = h

  pub run_calls-IsCopy :
      (cs : List Call) (files : WikiFiles)
      → IsCopy original files
      → IsCopy original (run_calls refused cs files).1
  unfolding run_calls
  run_calls-IsCopy [] files h = h
  run_calls-IsCopy (c ∷ cs) files h =
      run_calls-IsCopy cs (execute_tool refused c files).1 (execute_tool-IsCopy c files h)

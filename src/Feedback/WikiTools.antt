-- ===== src/Feedback/WikiTools.antt =====
-- app/feedback/wiki_tools.py: the working copy of a wiki that the compiler agent edits. A file is
-- named by the components of its normalized path below the wiki's root, and a directory lists
-- each file once. The text of a file is what a read in text mode returns, so that a write keeps the
-- text of the next read. The texts that the searching tools return are not modelled.
pub mod Store
use llm_wiki_engine.Prelude.{
  ℕ, zero, suc, ◌-◌, sort_by, ◌≡◌, ◌↔◌, refl, arith, Bool, true, false, not, ◌&&◌, ◌||◌, Option,
  none, some, List, [], ◌∷◌, ◌++◌, map, length, drop, ltb, Eq, nat_eq, ◌==◌, if◌then◌else◌,
}
use llm_wiki_engine.Text.{Text, codes, split_on, starts_with, text_beq, is_empty, join, newlines}
use llm_wiki_engine.Ingest.Writer.{text_leb}

abbrev pub WikiPath : Type 0
WikiPath = List Text

unfoldable pub path_beq : WikiPath → WikiPath → Bool
path_beq [] [] = true
path_beq [] (d ∷ q) = false
path_beq (c ∷ p) [] = false
path_beq (c ∷ p) (d ∷ q) = text_beq c d && path_beq p q

abbrev pub WikiFiles : Type 0
WikiFiles = List (WikiPath × Text)

unfoldable pub lookup : WikiPath → WikiFiles → Option Text
lookup path [] = none
lookup path ((p, text) ∷ files) = if path_beq p path then some text else lookup path files

-- A write of a whole file.
unfoldable pub put : WikiPath → Text → WikiFiles → WikiFiles
put path text [] = (path, text) ∷ []
put path text ((p, old) ∷ files) =
    let rest = put path text files in if path_beq p path then (p, text) ∷ files else (p, old) ∷ rest

-- The components of `os.path.normpath`, the last one first.
unfoldable pub norm_loop : List Text → WikiPath → WikiPath
norm_loop [] dir = dir
norm_loop (seg ∷ segs) dir =
    if is_empty seg || text_beq seg (codes ".")
    then norm_loop segs dir
    else if not (text_beq seg (codes ".."))
    then norm_loop segs (seg ∷ dir)
    else elim dir [
      | [] ↦ norm_loop segs (seg ∷ [])
      | d ∷ up ↦
          if text_beq d (codes "..") then norm_loop segs (seg ∷ d ∷ up) else norm_loop segs up
    ]

unfoldable pub reverse_onto : WikiPath → WikiPath → WikiPath
reverse_onto [] out = out
reverse_onto (c ∷ p) out = reverse_onto p (c ∷ out)

unfoldable pub normpath : Text → WikiPath
normpath path = reverse_onto (norm_loop (split_on b'/' path) []) []

-- `clean.startswith("..")`
unfoldable pub escapes : WikiPath → Bool
escapes [] = false
escapes (c ∷ p) = starts_with (codes "..") c

-- `_resolve`; none if it raises.
unfoldable pub resolve : Text → Option WikiPath
resolve rel_path =
    if escapes (normpath rel_path) || starts_with (codes "/") rel_path
    then none
    else some (normpath rel_path)

-- The occurrences of `str.count`; `skip` characters still belong to the last one.
unfoldable pub count_from : Text → ℕ → Text → ℕ
count_from old skip [] = 0
count_from old (suc skip) (c ∷ s) = count_from old skip s
count_from old zero (c ∷ s) =
    let hit = suc (count_from old (length old - 1) s) in
    let miss = count_from old 0 s in if starts_with old (c ∷ s) then hit else miss

unfoldable pub count : Text → Text → ℕ
count old s = if is_empty old then suc (length s) else count_from old 0 s

-- `s.replace(old, new, 1)`
unfoldable pub replace_first : Text → Text → Text → Text
replace_first old new [] = if is_empty old then new else []
replace_first old new (c ∷ s) =
    let rest = replace_first old new s in
    if starts_with old (c ∷ s) then new ++ drop (length old) (c ∷ s) else c ∷ rest

-- Whether a tool answers with an error, with a text, or with its confirmation.
pub data Reply : Type 0 where
  error confirmed searched : Reply
  shown : Text → Reply

-- The calls of the agent.
pub data Call : Type 0 where
  read_file : Text → Call
  list_files : Text → Call
  grep : Text → Text → Call
  edit_file : Text → Text → Text → Call
  create_file : Text → Text → Call
  submit_changes : Call
  unknown_tool : Call

unfoldable pub do_read : Text → WikiFiles → Reply
do_read path files = elim (resolve path) [
  | none ↦ error
  | some p ↦ elim (lookup p files) [ none ↦ error | some text ↦ shown text ]
]

-- What `edit_file` does with the content that it read.
unfoldable pub edit_content : WikiPath → Text → Text → Option Text → WikiFiles → Reply × WikiFiles
edit_content p old_string new_string none files = (error, files)
edit_content p old_string new_string (some content) files =
    if count old_string content == 1
    then (confirmed, put p (newlines (replace_first old_string new_string content)) files)
    else (error, files)

unfoldable pub edit_resolved : Option WikiPath → Text → Text → WikiFiles → Reply × WikiFiles
edit_resolved none old_string new_string files = (error, files)
edit_resolved (some p) old_string new_string files =
    edit_content p old_string new_string (lookup p files) files

unfoldable pub do_edit : Text → Text → Text → WikiFiles → Reply × WikiFiles
do_edit path old_string new_string files = edit_resolved (resolve path) old_string new_string files

-- `refused` tells where the system does not create a file, as at a directory.
module _ (refused : WikiFiles → WikiPath → Bool) where
  unfoldable pub create_resolved : Option WikiPath → Text → WikiFiles → Reply × WikiFiles
  create_resolved none content files = (error, files)
  create_resolved (some p) content files =
      if refused files p then (error, files) else (confirmed, put p (newlines content) files)

  unfoldable pub do_create : Text → Text → WikiFiles → Reply × WikiFiles
  do_create path content files = create_resolved (resolve path) content files

  unfoldable pub execute_tool : Call → WikiFiles → Reply × WikiFiles
  execute_tool (read_file path) files = (do_read path files, files)
  execute_tool (list_files pattern) files = (searched, files)
  execute_tool (grep pattern path) files = (searched, files)
  execute_tool (edit_file path old_string new_string) files =
      do_edit path old_string new_string files
  execute_tool (create_file path content) files = do_create path content files
  execute_tool submit_changes files = (confirmed, files)
  execute_tool unknown_tool files = (error, files)

-- A change; its old content is none if its action is to create the file.
pub record FileChange : Type 0 where
  pub path : WikiPath
  pub old_content : Option Text
  pub new_content : Text

unfoldable pub change_of : WikiPath → Text → Option Text → List FileChange
change_of p new none = record { path = p; old_content = none; new_content = new } ∷ []
change_of p new (some old) =
    if text_beq old new
    then []
    else record { path = p; old_content = some old; new_content = new } ∷ []

-- The order of `sorted` on the paths as strings.
abbrev pub by_path : WikiPath × Text → WikiPath × Text → Bool
by_path (p, c) (q, d) = text_leb (join (codes "/") p) (join (codes "/") q)

-- The loop of `collect_changes`.
unfoldable pub collect_loop : WikiFiles → WikiFiles → List FileChange
collect_loop original [] = []
collect_loop original ((p, text) ∷ files) =
    change_of p text (lookup p original) ++ collect_loop original files

unfoldable pub collect_changes : WikiFiles → WikiFiles → List FileChange
collect_changes original files = collect_loop original (sort_by by_path files)

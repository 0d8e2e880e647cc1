-- ===== src/Ingest/Files.antt =====
-- app/ingest/files.py: which files of a source tree can be compiled, how a source is named, and the
-- items that the listing shows. A path is the list of its parts, as `Path(p).parts` gives them.
pub mod Paths
pub mod Selection
pub mod Status
pub mod Records
use llm_wiki_engine.Prelude.{
  ℕ, ◌≡◌, ◌↔◌, arith, String, Bool, true, false, Option, none, some, List, [], ◌∷◌, Eq, ◌==◌,
  nat_eq,
}
use llm_wiki_engine.Text.{Text, codes}
use llm_wiki_engine.Ingest.Queue.{JobStatus, Progress}

-- `IngestFileStatus`
pub data FileStatus : Type 0 where
  is_processing is_queued is_failed is_updated is_not_queued is_compiled : FileStatus

-- `_STATUS_PRIORITY`
abbrev pub status_priority : FileStatus → ℕ
status_priority is_processing = 0
status_priority is_queued = 1
status_priority is_failed = 2
status_priority is_updated = 3
status_priority is_not_queued = 4
status_priority is_compiled = 5

abbrev file_status_beq : FileStatus → FileStatus → Bool
file_status_beq a b = status_priority a == status_priority b

pub file_status_beq_iff : (a b : FileStatus) → (file_status_beq a b ≡ true) ↔ (a ≡ b)
file_status_beq_iff a b = ground arith

instance abbrev pub file_status_eq : Eq FileStatus
file_status_eq = record { equal = file_status_beq; equal_iff = file_status_beq_iff }

pub data SortDirection : Type 0 where
  asc desc : SortDirection

-- `IngestFileItem`; an empty `progress` is `none`.
pub record FileItem : Type 0 where
  pub source_file : Text
  pub source_path : Text
  pub status : FileStatus
  pub file_size : Option ℕ
  pub job_id : Option String
  pub job_status : Option JobStatus
  pub progress : Option Progress
  pub step : ℕ
  pub files_written : Option (List String)
  pub error : Option String
  pub retry_count : ℕ
  pub created_at : Option ℕ
  pub completed_at : Option ℕ

pub record FilePage : Type 0 where
  pub items : List FileItem
  pub total : ℕ
  pub page : ℕ
  pub page_size : ℕ

-- The integers of a request: `pos n` is n, `negsuc n` is -(n + 1).
pub data ℤ : Type 0 where
  pos negsuc : ℕ → ℤ

-- max(0, z)
abbrev pub nonneg : ℤ → ℕ
nonneg (pos n) = n
nonneg (negsuc n) = 0

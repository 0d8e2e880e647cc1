-- ===== src/Tests/Enqueue.antt =====
-- app/ingest/enqueue_service.py on a project with one file that waits and one that is compiled.
use llm_wiki_engine.Prelude.{◌≡◌, ◌==◌, refl, String, string_eq, false, none, some, List, [], ◌∷◌}
use llm_wiki_engine.Text.{codes, text_beq}
use llm_wiki_engine.Ingest.Queue.{IngestQueue}
use llm_wiki_engine.Ingest.Files.{is_not_queued, is_compiled}
use llm_wiki_engine.Ingest.EnqueueTasks.{EnqueueTask, new_task_row, get_enqueue_task}
use llm_wiki_engine.Ingest.EnqueueService.{ok, Site, EnqueueRequest, run_enqueue_task}
use llm_wiki_engine.Ingest.EnqueueService.Ends.{Finished, answer_of, run_enqueue_task-Finished}
use llm_wiki_engine.Tests.Files.{item}

abbrev site : Site
site = record {
  project = some (record { disk_path = "/p"; is_case_library = false });
  source_context = none;
  items = ok (item (codes "a.md") is_not_queued ∷ item (codes "b.md") is_compiled ∷ []);
  stage_sources =
      λ items. record { reported = codes "a.md" ∷ []; result = ok ("/p/raw/sources/a.md" ∷ []) };
  share = λ index total. 55;
  uuid4 = λ n. "j";
  lower = λ t. t;
  fnmatchcase = text_beq;
  error_text = λ f. codes "error";
}

abbrev body : EnqueueRequest
body = record {
  selection = none;
  all = false;
  status = none;
  source_files = codes "a.md" ∷ codes "b.md" ∷ [];
}

abbrev requests : List EnqueueTask
requests = new_task_row "u" "p" 0 ∷ new_task_row "t" "p" 0 ∷ []

abbrev before : IngestQueue
before = record { jobs = []; projects = []; tasks = []; clock = 1; drawn = 0 }

run_enqueue_task-Finished_example :
    let after = run_enqueue_task site "p" 1 "t" body (requests, before) in
    ((u : EnqueueTask) × (get_enqueue_task "t" after.0 ≡ some u)
      × (u.progress ≡ 100)
      × Finished site "p" 1 "t" body
          (answer_of site "p" 1 "t" body (requests, before))
          before
          u
          after.1)
    × ((o : String) → ("t" == o) ≡ false → get_enqueue_task o after.0 ≡ get_enqueue_task o requests)
unfolding get_enqueue_task
run_enqueue_task-Finished_example =
    run_enqueue_task-Finished site "p" 1 "t" body requests before (new_task_row "t" "p" 0) refl

-- ===== src/Ingest/Queue/Workers/Serial.antt =====
-- What the workers promise, without locks and coroutines: each project runs at most one job.
use mathlib.Core.Path.{subst}
use llm_wiki_engine.Prelude.{
  ℕ, String, ◌≡◌, refl, sym, ap, ◌∙◌, true, false, Option, none, some, List, [], ◌∷◌, ◌==◌, nat_eq,
  nat_beq_iff, string_eq, eq_iff, if◌then◌else◌, Bool-cases, Option-cases, inl, inr, arith,
}
use llm_wiki_engine.Ingest.Queue.{IngestQueue, Task}
use llm_wiki_engine.Ingest.Queue.Workers.{
  Stage, absent, created, waiting, polling, executing, over, holds, Lock, Server, project_of,
  lock_of, acquire, end_task, spawn, Step, spawns, changes, enters, lines_up, wakes, executes, ends,
  drops, Reach, start, later,
}
use llm_wiki_engine.Ingest.Queue.Workers.Exclusion.{IsExclusive, changed_stage, Reach-IsExclusive}

-- The task that runs for each project.
abbrev pub Running : Type 0
Running = String → Option ℕ

-- The rest of the projects.
abbrev pub SameBut : String → Running → Running → Type 0
SameBut p a b = (q : String) → (p == q) ≡ false → b q ≡ a q

-- What is seen of a project: that a task begins, or that it ends.
pub data Event : Type 0 where
  began ended : String → ℕ → Event

-- The specification, by what is seen of a step: a project that runs nothing begins a task, a project
-- ends the task that it runs, or nothing is seen.
pub data Serial (a b : Running) : Option Event → Type 0 where
  begins :
      (p : String) (i : ℕ)
      → a p ≡ none
      → b p ≡ some i
      → SameBut p a b
      → Serial a b (some (began p i))
  finishes :
      (p : String) (i : ℕ)
      → a p ≡ some i
      → b p ≡ none
      → SameBut p a b
      → Serial a b (some (ended p i))
  idles : ((q : String) → b q ≡ a q) → Serial a b none

-- What is seen of a step of the server: a task gets the lock of its project, or releases it.
abbrev pub event_of : {s s' : Server} → Step s s' → Option Event
event_of (spawns t) = none
event_of (changes q) = none
event_of {s} (enters i e free no_waiters) = some (began (project_of s i) i)
event_of (lines_up i e) = none
event_of {s} (wakes i rest e free first) = some (began (project_of s i) i)
event_of (executes i e p) = none
event_of {s} (ends i e) = some (ended (project_of s i) i)
event_of (drops i e) = none

abbrev pub with_event : Option Event → List Event → List Event
with_event none es = es
with_event (some e) es = e ∷ es

-- What was seen of the server, the last event first.
abbrev pub history : {q : IngestQueue} {t : Task} {s : Server} → Reach q t s → List Event
history start = []
history (later r st) = with_event (event_of st) (history r)

-- A server runs what the specification says.
pub record Runs (s : Server) (a : Running) : Type 0 where
  pub runs : (p : String) (i : ℕ) → a p ≡ some i → (holds (s.stage i) ≡ true) × (project_of s i ≡ p)
  pub seen : (i : ℕ) → holds (s.stage i) ≡ true → a (project_of s i) ≡ some i

abbrev update : String → Option ℕ → Running → Running
update p x a q = if p == q then x else a q

update_at : (p : String) (x : Option ℕ) (a : Running) → update p x a p ≡ x
update_at p x a = rw ((eq_iff p p).1 refl) refl

update-SameBut : (p : String) (x : Option ℕ) (a : Running) → SameBut p a (update p x a)
update-SameBut p x a q e = rw e refl

-- A project whose lock is free runs nothing.
idle :
    (s : Server) (a : Running) (i : ℕ)
    → IsExclusive s
    → Runs s a
    → (lock_of s i).locked ≡ false
    → a (project_of s i) ≡ none
idle s a i h r free = elim (Option-cases (a (project_of s i))) [
  | inl e ↦ e
  | inr (j, e) ↦
      let (hold, p) = r.runs (project_of s i) j e in
      let locked : (lock_of s j).locked ≡ true = h.held j hold in
      absurd (ground (arith, free, locked, ap (λ x. (s.locks x).locked) p))
]

acquire-Runs :
    (s : Server) (a : Running) (i : ℕ) (l : Lock)
    → IsExclusive s
    → Runs s a
    → (lock_of s i).locked ≡ false
    → Runs (acquire i l s) (update (project_of s i) (some i) a)
acquire-Runs s a i l h r free = record {
  runs = λ p j e. elim (Bool-cases (project_of s i == p)) [
    | inl q ↦
        let same : i ≡ j = ground (arith, q, e) in
        (
          ap (λ b. holds (if b then polling else s.stage j)) ((nat_beq_iff i j).1 same),
          ap (project_of s) (sym same) ∙ (eq_iff (project_of s i) p).0 q,
        )
    | inr q ↦
        let (hold, at) = r.runs p j (subst (λ b. (if b then some i else a p) ≡ some j) q e) in
        (keep j hold, at)
  ];
  seen = λ j e. elim (changed_stage s i j polling e) [
    | inl (same, t) ↦
        ap (λ k. update (project_of s i) (some i) a (project_of s k)) (sym same)
        ∙ update_at (project_of s i) (some i) a
        ∙ ap some same
    | inr hold ↦ elim (Bool-cases (project_of s i == project_of s j)) [
      | inl q ↦ absurd (alone j hold ((eq_iff (project_of s i) (project_of s j)).0 q))
      | inr q ↦ update-SameBut (project_of s i) (some i) a (project_of s j) q ∙ r.seen j hold
    ]
  ];
}
  where
    keep : (j : ℕ) → holds (s.stage j) ≡ true → holds (if i == j then polling else s.stage j) ≡ true
    keep j hold = elim (Bool-cases (i == j)) [ inl q ↦ rw q refl | inr q ↦ rw q hold ]

    alone : (k : ℕ) → holds (s.stage k) ≡ true → project_of s i ≡ project_of s k → ⊥
    alone k hold p =
        let locked : (lock_of s k).locked ≡ true = h.held k hold in
        ground (arith, free, locked, ap (λ x. (s.locks x).locked) p)

end_task-Runs :
    (s : Server) (a : Running) (i : ℕ)
    → IsExclusive s
    → Runs s a
    → holds (s.stage i) ≡ true
    → Runs (end_task i s) (update (project_of s i) none a)
end_task-Runs s a i h r now = record {
  runs = λ p j e. elim (Bool-cases (project_of s i == p)) [
    | inl q ↦ absurd (ground (arith, subst (λ b. (if b then none else a p) ≡ some j) q e))
    | inr q ↦
        let (hold, at) = r.runs p j (subst (λ b. (if b then none else a p) ≡ some j) q e) in
        (
          elim (Bool-cases (i == j)) [
            | inl k ↦ absurd (
                ground (
                  arith,
                  q,
                  (eq_iff (project_of s i) p).1 (ap (project_of s) ((nat_beq_iff i j).0 k) ∙ at),
                ))
            | inr k ↦ rw k hold
          ],
          at,
        )
  ];
  seen = λ j e. elim (changed_stage s i j over e) [
    | inl (same, t) ↦ absurd (ground (arith, t))
    | inr hold ↦ elim (Bool-cases (project_of s i == project_of s j)) [
      | inl q ↦
          let same : (i == j) ≡ true =
            (nat_beq_iff i j).1
              (h.one i j now hold ((eq_iff (project_of s i) (project_of s j)).0 q)) in
          absurd (ground (arith, subst (λ b. holds (if b then over else s.stage j) ≡ true) same e))
      | inr q ↦ update-SameBut (project_of s i) none a (project_of s j) q ∙ r.seen j hold
    ]
  ];
}

-- A change of stage by which nobody begins or stops to hold.
quiet-Runs :
    (s s' : Server) (a : Running)
    → Runs s a
    → ((j : ℕ)
        → holds (s.stage j) ≡ true
        → (holds (s'.stage j) ≡ true) × (project_of s' j ≡ project_of s j))
    → ((j : ℕ)
        → holds (s'.stage j) ≡ true
        → (holds (s.stage j) ≡ true) × (project_of s' j ≡ project_of s j))
    → Runs s' a
quiet-Runs s s' a r forth back = record {
  runs = λ p j e.
      let (hold, at) = r.runs p j e in let (hold', same) = forth j hold in (hold', same ∙ at);
  seen = λ j e. let (hold, same) = back j e in ap a same ∙ r.seen j hold;
}

-- One task changes its stage and does not hold the lock before or after.
stage-Runs :
    (s s' : Server) (a : Running) (i : ℕ) (x : Stage)
    → Runs s a
    → holds (s.stage i) ≡ holds x
    → ((j : ℕ) → s'.stage j ≡ (if i == j then x else s.stage j))
    → ((j : ℕ) → project_of s' j ≡ project_of s j)
    → Runs s' a
stage-Runs s s' a i x r same stages projects =
    quiet-Runs s s' a r (λ j e. (sym (equal j) ∙ e, projects j)) (λ j e. (equal j ∙ e, projects j))
  where
    equal : (j : ℕ) → holds (s.stage j) ≡ holds (s'.stage j)
    equal j = elim (Bool-cases (i == j)) [
      | inl q ↦
          ap (λ k. holds (s.stage k)) (sym ((nat_beq_iff i j).0 q))
          ∙ same
          ∙ ap holds (sym (stages j ∙ ap (λ b. if b then x else s.stage j) q))
      | inr q ↦ ap holds (sym (stages j ∙ ap (λ b. if b then x else s.stage j) q))
    ]

-- Each step of the server is a step of the specification.
abbrev pub Simulated : Server → Running → Option Event → Type 0
Simulated s' a e = (b : Running) × Serial a b e × Runs s' b

idles-Simulated : (s' : Server) (a : Running) → Runs s' a → Simulated s' a none
idles-Simulated s' a r = (a, idles (λ q. refl), r)

begins-Simulated :
    (s : Server) (a : Running) (i : ℕ) (l : Lock)
    → IsExclusive s
    → Runs s a
    → (lock_of s i).locked ≡ false
    → Simulated (acquire i l s) a (some (began (project_of s i) i))
begins-Simulated s a i l h r free = (
  update (project_of s i) (some i) a,
  begins (project_of s i) i (idle s a i h r free) (update_at (project_of s i) (some i) a)
      (update-SameBut (project_of s i) (some i) a),
  acquire-Runs s a i l h r free,
)

spawn-Runs : (s : Server) (a : Running) (t : Task) → IsExclusive s → Runs s a → Runs (spawn t s) a
spawn-Runs s a t h r = quiet-Runs s (spawn t s) a r forth back
  where
    born : (j : ℕ) → holds (s.stage j) ≡ true → (s.started == j) ≡ false
    born j e = elim (Bool-cases (s.started == j)) [
      | inl q ↦
          let none_yet : s.stage j ≡ absent =
            h.unborn j (ground (arith, (nat_beq_iff s.started j).0 q)) in
          absurd (ground (arith, e, none_yet))
      | inr q ↦ q
    ]

    forth :
        (j : ℕ)
        → holds (s.stage j) ≡ true
        → (holds ((spawn t s).stage j) ≡ true) × (project_of (spawn t s) j ≡ project_of s j)
    forth j e = let q = born j e in (rw q e, rw (q, project_of) refl)

    back :
        (j : ℕ)
        → holds ((spawn t s).stage j) ≡ true
        → (holds (s.stage j) ≡ true) × (project_of (spawn t s) j ≡ project_of s j)
    back j e = elim (Bool-cases (s.started == j)) [
      | inl q ↦
          absurd (ground (arith, subst (λ b. holds (if b then created else s.stage j) ≡ true) q e))
      | inr q ↦ (
        subst (λ b. holds (if b then created else s.stage j) ≡ true) q e,
        rw (q, project_of) refl,
      )
    ]

Step-Simulated :
    {s s' : Server} (a : Running)
    → IsExclusive s
    → Runs s a
    → (st : Step s s') → Simulated s' a (event_of st)
Step-Simulated {s} a h r (spawns t) = idles-Simulated (spawn t s) a (spawn-Runs s a t h r)
Step-Simulated a h r (changes q) = idles-Simulated _ a (record { runs = r.runs; seen = r.seen })
Step-Simulated {s} a h r (enters i e free no_waiters) =
    begins-Simulated s a i (lock_of s i) h r free
Step-Simulated {s} a h r (lines_up i e) =
    idles-Simulated _ a (stage-Runs s _ a i waiting r (ap holds e) (λ j. refl) (λ j. refl))
Step-Simulated {s} a h r (wakes i rest e free first) =
    begins-Simulated s a i (record { locked = false; waiters = rest }) h r free
Step-Simulated {s} a h r (executes i e p) =
    idles-Simulated _ a (stage-Runs s _ a i executing r (ap holds e) (λ j. refl) (λ j. refl))
Step-Simulated {s} a h r (ends i e) = (
  update (project_of s i) none a,
  finishes (project_of s i) i (r.seen i e) (update_at (project_of s i) none a)
      (update-SameBut (project_of s i) none a),
  end_task-Runs s a i h r e,
)
Step-Simulated {s} a h r (drops i e) =
    idles-Simulated _ a (stage-Runs s _ a i over r (ground (arith, e)) (λ j. refl) (λ j. refl))

-- What the specification may do from idle projects, and what is seen of it, the last event first.
pub data Behaves : Running → List Event → Type 0 where
  idle_at_first : Behaves (λ p. none) []
  then_does :
      {a b : Running} {es : List Event} {e : Option Event}
      → Behaves a es
      → Serial a b e
      → Behaves b (with_event e es)

-- The locks implement a serial executor of each project. Take any run of the server, and the
-- sequence of events in it: that a task gets the lock of its project, and that it releases the lock.
-- The specification has a behaviour with exactly this sequence, in which a project begins a task
-- only while it runs none and ends only the task that it runs; and the tasks that the server runs at
-- the end are the tasks that this behaviour then runs.
pub Reach-Runs :
    {q : IngestQueue} {t : Task} {s : Server} (r : Reach q t s)
    → (a : Running) × Behaves a (history r) × Runs s a
Reach-Runs start = (
  λ p. none,
  idle_at_first,
  record { runs = λ p i e. absurd (ground (arith, e)); seen = λ i e. absurd (ground (arith, e)) },
)
Reach-Runs (later r st) =
    let (a, behaves, runs) = Reach-Runs r in
    let (b, serial, runs') = Step-Simulated a (Reach-IsExclusive r) runs st in
    (b, then_does behaves serial, runs')

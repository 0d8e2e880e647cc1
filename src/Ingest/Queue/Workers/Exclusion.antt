-- ===== src/Ingest/Queue/Workers/Exclusion.antt =====
-- Jobs of one project run one at a time.
use mathlib.Core.Path.{subst}
use native.Mathlib.Decide.{dec_lt}
use llm_wiki_engine.Prelude.{
  ℕ, ◌≡◌, ◌≤◌, ◌<◌, refl, sym, ap, ◌∙◌, true, false, ◌==◌, nat_eq, nat_beq_iff, string_eq, eq_iff,
  if◌then◌else◌, Bool-cases, inl, inr, arith, ◌⊎◌, ◌≢◌,
}
use llm_wiki_engine.Ingest.Queue.{IngestQueue, Task}
use llm_wiki_engine.Ingest.Queue.Workers.{
  Stage, absent, created, waiting, polling, executing, over, holds, Lock, Server, project_of,
  lock_of, set_stage, set_lock, taken, released, acquire, end_task, spawn, Step, spawns, changes,
  enters, lines_up, wakes, executes, ends, drops, Reach, start, later,
}

-- The lock of a project is held while a task of it is in its critical part, and by one task only.
pub record IsExclusive (s : Server) : Type 0 where
  pub held : (i : ℕ) → holds (s.stage i) ≡ true → (lock_of s i).locked ≡ true
  pub one :
      (i j : ℕ)
      → holds (s.stage i) ≡ true
      → holds (s.stage j) ≡ true
      → project_of s i ≡ project_of s j
      → i ≡ j
  pub unborn : (i : ℕ) → s.started ≤ i → s.stage i ≡ absent

-- A task whose stage changed, or another one.
pub changed_stage :
    (s : Server) (i j : ℕ) (x : Stage)
    → holds (if i == j then x else s.stage j) ≡ true
    → ((i ≡ j) × (holds x ≡ true)) ⊎ (holds (s.stage j) ≡ true)
changed_stage s i j x e = elim (Bool-cases (i == j)) [
  | inl q ↦ inl ((nat_beq_iff i j).0 q, subst (λ b. holds (if b then x else s.stage j) ≡ true) q e)
  | inr q ↦ inr (subst (λ b. holds (if b then x else s.stage j) ≡ true) q e)
]

-- The lock of a project after a change of the lock of another task's project.
changed_lock :
    (s : Server) (i j : ℕ) (l : Lock)
    → ((project_of s i ≡ project_of s j) × (lock_of (set_lock (project_of s i) l s) j ≡ l))
      ⊎ (((project_of s i == project_of s j) ≡ false)
          × (lock_of (set_lock (project_of s i) l s) j ≡ lock_of s j))
changed_lock s i j l = elim (Bool-cases (project_of s i == project_of s j)) [
  | inl q ↦ inl ((eq_iff (project_of s i) (project_of s j)).0 q, rw q refl)
  | inr q ↦ inr (q, rw q refl)
]

pub same_project : (s : Server) (i j : ℕ) → i ≡ j → (project_of s i == project_of s j) ≡ true
same_project s i j e = (eq_iff (project_of s i) (project_of s j)).1 (ap (project_of s) e)

pub started_before : (s : Server) (i : ℕ) → IsExclusive s → s.stage i ≢ absent → i < s.started
started_before s i h n = elim (dec_lt i s.started) [
  | yes lt ↦ lt
  | no ge ↦ absurd (n (h.unborn i (omega (arith, ge))))
]

born :
    (s : Server) (i : ℕ) (x : Stage)
    → IsExclusive s
    → i < s.started
    → (j : ℕ) → s.started ≤ j
    → (if i == j then x else s.stage j) ≡ absent
born s i x h lt j le =
    let other : (i == j) ≡ false = ground (arith, lt, le) in rw other (h.unborn j le)

acquire-IsExclusive :
    (s : Server) (i : ℕ) (l : Lock)
    → IsExclusive s
    → i < s.started
    → (lock_of s i).locked ≡ false
    → IsExclusive (acquire i l s)
acquire-IsExclusive s i l h lt free = record {
  held = λ j e. elim (changed_lock s i j (taken l)) [
    | inl (p, q) ↦ ap (λ x. x.locked) q
    | inr (p, q) ↦ elim (changed_stage s i j polling e) [
      | inl (same, t) ↦ absurd (ground (arith, p, same_project s i j same))
      | inr hold ↦ ap (λ x. x.locked) q ∙ h.held j hold
    ]
  ];
  one = λ j k e f p. elim (changed_stage s i j polling e) [
    | inl (same, t) ↦ elim (changed_stage s i k polling f) [
      | inl (same', t') ↦ sym same ∙ same'
      | inr hold ↦ absurd (alone k hold (ap (project_of s) same ∙ p))
    ]
    | inr hold ↦ elim (changed_stage s i k polling f) [
      | inl (same', t') ↦ absurd (alone j hold (ap (project_of s) same' ∙ sym p))
      | inr hold' ↦ h.one j k hold hold' p
    ]
  ];
  unborn = born s i polling h lt;
}
  where
    -- Nobody else of the project can hold the free lock.
    alone : (k : ℕ) → holds (s.stage k) ≡ true → project_of s i ≡ project_of s k → ⊥
    alone k hold p =
        let locked : (lock_of s k).locked ≡ true = h.held k hold in
        ground (arith, free, locked, ap (λ x. (s.locks x).locked) p)

-- A change of a stage that takes no lock, with whatever change of the waiting tasks.
quiet-IsExclusive :
    (s : Server) (i : ℕ) (x : Stage) (l : Lock) (q : IngestQueue)
    → IsExclusive s
    → i < s.started
    → holds x ≡ false
    → l.locked ≡ (lock_of s i).locked
    → IsExclusive (record (set_stage i x (set_lock (project_of s i) l s)) { queue = q })
quiet-IsExclusive s i x l q h lt quiet same = record {
  held = λ j e. elim (changed_stage s i j x e) [
    | inl (eq, t) ↦ absurd (ground (arith, t, quiet))
    | inr hold ↦ elim (changed_lock s i j l) [
      | inl (p, e') ↦ ap (λ y. y.locked) e' ∙ same ∙ ap (λ y. (s.locks y).locked) p ∙ h.held j hold
      | inr (p, e') ↦ ap (λ y. y.locked) e' ∙ h.held j hold
    ]
  ];
  one = λ j k e f p. h.one j k (still j e) (still k f) p;
  unborn = born s i x h lt;
}
  where
    still : (j : ℕ) → holds (if i == j then x else s.stage j) ≡ true → holds (s.stage j) ≡ true
    still j e = elim (changed_stage s i j x e) [
      | inl (eq, t) ↦ absurd (ground (arith, t, quiet))
      | inr hold ↦ hold
    ]

-- The end of the task that held the lock.
end_task-IsExclusive :
    (s : Server) (i : ℕ) → IsExclusive s → holds (s.stage i) ≡ true → IsExclusive (end_task i s)
end_task-IsExclusive s i h hold = record {
  held = λ j e. elim (changed_stage s i j over e) [
    | inl (eq, t) ↦ absurd (ground (arith, t))
    | inr hold' ↦ elim (changed_lock s i j (released (lock_of s i))) [
      | inl (p, e') ↦ absurd (gone j e (h.one i j hold hold' p))
      | inr (p, e') ↦ ap (λ y. y.locked) e' ∙ h.held j hold'
    ]
  ];
  one = λ j k e f p. h.one j k (still j e) (still k f) p;
  unborn = born s i over h (started_before s i h (λ e. ground (arith, e, hold)));
}
  where
    still : (j : ℕ) → holds (if i == j then over else s.stage j) ≡ true → holds (s.stage j) ≡ true
    still j e = elim (changed_stage s i j over e) [
      | inl (eq, t) ↦ absurd (ground (arith, t))
      | inr k ↦ k
    ]

    gone : (j : ℕ) → holds (if i == j then over else s.stage j) ≡ true → i ≡ j → ⊥
    gone j e eq =
        let same : (i == j) ≡ true = (nat_beq_iff i j).1 eq in
        ground (arith, subst (λ b. holds (if b then over else s.stage j) ≡ true) same e)

-- A task that starts to execute held the lock before.
executing-IsExclusive :
    (s : Server) (i : ℕ)
    → IsExclusive s
    → s.stage i ≡ polling
    → IsExclusive (set_stage i executing s)
executing-IsExclusive s i h e = record {
  held = λ j f. h.held j (still j f);
  one = λ j k f g p. h.one j k (still j f) (still k g) p;
  unborn = born s i executing h (started_before s i h (λ f. ground (arith, e, f)));
}
  where
    still :
        (j : ℕ) → holds (if i == j then executing else s.stage j) ≡ true → holds (s.stage j) ≡ true
    still j f = elim (changed_stage s i j executing f) [
      | inl (eq, t) ↦ ap holds (ap s.stage (sym eq) ∙ e)
      | inr hold ↦ hold
    ]

spawn-IsExclusive : (s : Server) (t : Task) → IsExclusive s → IsExclusive (spawn t s)
spawn-IsExclusive s t h = record {
  held = λ i e. let (hold, q) = old i e in ap (λ x. (s.locks x).locked) (kept i q) ∙ h.held i hold;
  one = λ i j e f p.
      let (hold, q) = old i e in
      let (hold', q') = old j f in h.one i j hold hold' (sym (kept i q) ∙ p ∙ kept j q');
  unborn = λ i le.
      let other : (s.started == i) ≡ false = ground (arith, le) in
      rw other (h.unborn i (omega (arith, le)));
}
  where
    old :
        (i : ℕ)
        → holds (if s.started == i then created else s.stage i) ≡ true
        → (holds (s.stage i) ≡ true) × ((s.started == i) ≡ false)
    old i e = elim (Bool-cases (s.started == i)) [
      | inl q ↦
          absurd (ground (arith, subst (λ b. holds (if b then created else s.stage i) ≡ true) q e))
      | inr q ↦ (subst (λ b. holds (if b then created else s.stage i) ≡ true) q e, q)
    ]

    kept : (i : ℕ) → (s.started == i) ≡ false → project_of (spawn t s) i ≡ project_of s i
    kept i q = rw (q, project_of) refl

pub Step-IsExclusive : {s s' : Server} → Step s s' → IsExclusive s → IsExclusive s'
Step-IsExclusive (spawns {s} t) h = spawn-IsExclusive s t h
Step-IsExclusive (changes q) h = record { held = h.held; one = h.one; unborn = h.unborn }
Step-IsExclusive (enters {s} i e free none_waits) h =
    acquire-IsExclusive s i (lock_of s i) h (started_before s i h (λ f. ground (arith, e, f))) free
Step-IsExclusive (lines_up {s} i e) h =
    quiet-IsExclusive s i waiting _ s.queue h (started_before s i h (λ f. ground (arith, e, f)))
      refl refl
Step-IsExclusive (wakes {s} i rest e free first) h =
    acquire-IsExclusive s i (record { locked = false; waiters = rest }) h
      (started_before s i h (λ f. ground (arith, e, f))) free
Step-IsExclusive (executes {s} i e p) h = executing-IsExclusive s i h e
Step-IsExclusive (ends {s} i e) h = end_task-IsExclusive s i h e
Step-IsExclusive (drops {s} i e) h =
    quiet-IsExclusive s i over _ _ h (started_before s i h (λ f. ground (arith, e, f))) refl refl

pub Reach-IsExclusive : {q : IngestQueue} {t : Task} {s : Server} → Reach q t s → IsExclusive s
Reach-IsExclusive start = record {
  held = λ i e. absurd (ground (arith, e));
  one = λ i j e f p. absurd (ground (arith, e));
  unborn = λ i le. refl;
}
Reach-IsExclusive (later r st) = Step-IsExclusive st (Reach-IsExclusive r)

-- However tasks are scheduled, paused, resumed, cancelled and interleaved, and whatever the rest of
-- the server does to the tables meanwhile: at no time do two tasks of one project run `_execute`, or
-- wait under its lock for their jobs to be resumed.
pub Reach-exclusive :
    {q : IngestQueue} {t : Task} {s : Server}
    → Reach q t s
    → (i j : ℕ) → holds (s.stage i) ≡ true
    → holds (s.stage j) ≡ true
    → project_of s i ≡ project_of s j
    → i ≡ j
Reach-exclusive r = (Reach-IsExclusive r).one

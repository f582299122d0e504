-- ===== src/Bootstrap/Registered.antt =====
-- When the loop of `register_connector` (cdc/bootstrap.py) returns, and that it ends.
use local_data_platform.Prelude.{
  ◌↔◌, every, eq_iff, nat_beq_iff, some, some_inj, ap, ◌∙◌, none, ℕ, ◌≤◌, ◌<◌, String, ◌≡◌, ◌≢◌,
  refl, Bool, true, false, Option, List, [], ◌∷◌, ◌++◌, All, arith, ◌==◌, nat_eq, string_eq, ltb,
  any, if◌then◌else◌, In, here, there, inl, inr, ◌⊎◌, Bool-cases,
}
use local_data_platform.Bootstrap.{
  Status, connector_status, http_error, StatusRound, Registration, running, still_waiting,
  is_running, some_task, has_state, Verdict, returns, breaks, continues, raises, judge, settle,
  register_connector,
}

retried : (b : Bool) (code : ℕ) → (if b then continues else raises code) ≢ returns
retried true code h = cc
retried false code h = cc

first_test :
    (a b : Bool) → (if a then returns else if b then breaks else continues) ≡ returns → a ≡ true
first_test true b h = refl
first_test false true h = cc
first_test false false h = cc

settle-running :
    (v : Verdict) (rest : Registration) → settle v rest ≡ running → (v ≡ returns) ⊎ (rest ≡ running)
settle-running returns rest h = inl refl
settle-running breaks rest h = cc
settle-running continues rest h = inr h
settle-running (raises code) rest h = cc

settle_waiting :
    (v : Verdict) (rest : Registration) → settle v rest ≡ still_waiting → rest ≡ still_waiting
settle_waiting returns rest h = cc
settle_waiting breaks rest h = cc
settle_waiting continues rest h = h
settle_waiting (raises code) rest h = cc

judge-returns :
    (s : Status)
    → judge s ≡ returns
    → (connector : Option String) × (tasks : List (Option String)) × (s
        ≡ connector_status connector tasks)
      × (is_running connector tasks ≡ true)
judge-returns (http_error code) h = absurd (retried (code == 404) code h)
judge-returns (connector_status connector tasks) h = (
  connector,
  tasks,
  refl,
  first_test (is_running connector tasks) (any (has_state "FAILED") tasks) h,
)

-- If the registration succeeds, some round before the deadline saw the connector RUNNING with at
-- least one task and all its tasks RUNNING.
pub register_connector_sound :
    (deadline : ℕ) (rounds : List StatusRound)
    → register_connector deadline rounds ≡ running
    → (r : StatusRound) × (connector : Option String) × (tasks : List (Option String)) × In r rounds
      × (r.monotonic < deadline)
      × (r.status ≡ connector_status connector tasks)
      × (is_running connector tasks ≡ true)
unfolding register_connector
register_connector_sound deadline [] h = cc
register_connector_sound deadline (r ∷ rs) h = elim (Bool-cases (ltb r.monotonic deadline)) [
  | inr late ↦ absurd (ground arith)
  | inl early ↦
      elim (settle-running (judge r.status) (register_connector deadline rs) (ground arith)) [
        | inl now ↦
            let (connector, tasks, is, all) = judge-returns r.status now in
            (r, connector, tasks, here, ground arith, is, all)
        | inr later ↦
            let (x, connector, tasks, i, before, is, all) =
              register_connector_sound deadline rs later in
            (x, connector, tasks, there i, before, is, all)
      ]
]

-- The loop has ended by the first round at or after the deadline, whatever the answers are.
pub register_connector_ends :
    (deadline : ℕ) (rounds : List StatusRound) (r : StatusRound)
    → In r rounds
    → deadline ≤ r.monotonic
    → register_connector deadline rounds ≢ still_waiting
unfolding register_connector
register_connector_ends deadline [] r i late h = elim i [ ]
register_connector_ends deadline (_ ∷ rs) r here late h = ground arith
register_connector_ends deadline (x ∷ rs) r (there i) late h =
    elim (Bool-cases (ltb x.monotonic deadline)) [
      | inr over ↦ ground arith
      | inl early ↦
          register_connector_ends deadline rs r i late
            (settle_waiting (judge x.status) (register_connector deadline rs) (ground arith))
    ]

-- Connect says that the connector runs, with one task at least, and that all its tasks run.
abbrev pub IsReady : Status → Type 0
IsReady (http_error code) = ⊥
IsReady (connector_status connector tasks) =
    (connector ≡ some "RUNNING")
    × (tasks ≢ [])
    × All (λ (t : Option String). t ≡ some "RUNNING") tasks

-- Connect has not stored the connector yet, or is starting it: no task has failed.
abbrev pub IsPending : Status → Type 0
IsPending (http_error code) = code ≡ 404
IsPending (connector_status connector tasks) =
    (¬ IsReady (connector_status connector tasks))
    × All (λ (t : Option String). t ≢ some "FAILED") tasks

pub record Succeeds (deadline : ℕ) (rounds : List StatusRound) : Type 0 where
  pub before : List StatusRound
  pub last : StatusRound
  pub after : List StatusRound
  pub split : rounds ≡ before ++ last ∷ after
  pub waited : All (λ (r : StatusRound). (r.monotonic < deadline) × IsPending r.status) before
  pub early : last.monotonic < deadline
  pub ready : IsReady last.status

has_state_iff : (name : String) (o : Option String) → (has_state name o ≡ true) ↔ (o ≡ some name)
has_state_iff name none = (λ h. cc, λ h. cc)
has_state_iff name (some state) =
    (λ h. ap some ((eq_iff state name).0 h), λ h. (eq_iff state name).1 (some_inj h))

every_iff :
    (name : String) (tasks : List (Option String))
    → (every (has_state name) tasks ≡ true) ↔ All (λ (t : Option String). t ≡ some name) tasks
every_iff name [] = (λ h. tt, λ h. refl)
every_iff name (t ∷ ts) = (
  λ h. ((has_state_iff name t).0 (ground arith), (every_iff name ts).0 (ground arith)),
  λ all. rw ((has_state_iff name t).1 all.0) ((every_iff name ts).1 all.1),
)

any_iff :
    (name : String) (tasks : List (Option String))
    → (any (has_state name) tasks ≡ false) ↔ All (λ (t : Option String). t ≢ some name) tasks
any_iff name [] = (λ h. tt, λ h. refl)
any_iff name (t ∷ ts) = (
  λ h. (
    λ is. absurd (ground (arith, (has_state_iff name t).1 is)),
    (any_iff name ts).0 (ground arith),
  ),
  λ none. elim (Bool-cases (has_state name t)) [
    | inl is ↦ absurd (none.0 ((has_state_iff name t).0 is))
    | inr not ↦ rw not ((any_iff name ts).1 none.1)
  ],
)

some_task_iff : (tasks : List (Option String)) → (some_task tasks ≡ true) ↔ (tasks ≢ [])
some_task_iff [] = (λ h. cc, λ h. absurd (h refl))
some_task_iff (t ∷ ts) = (λ h. λ e. cc, λ h. refl)

is_running_iff :
    (connector : Option String) (tasks : List (Option String))
    → (is_running connector tasks ≡ true) ↔ IsReady (connector_status connector tasks)
is_running_iff connector tasks = (
  λ h. (
    (has_state_iff "RUNNING" connector).0 (ground arith),
    (some_task_iff tasks).0 (ground arith),
    (every_iff "RUNNING" tasks).0 (ground arith),
  ),
  λ (c, t, all).
      rw ((has_state_iff "RUNNING" connector).1 c, (some_task_iff tasks).1 t)
        ((every_iff "RUNNING" tasks).1 all),
)

judge-ready : (s : Status) → IsReady s → judge s ≡ returns
judge-ready (http_error code) h = absurd h
judge-ready (connector_status connector tasks) h = rw ((is_running_iff connector tasks).1 h) refl

judge-pending : (s : Status) → IsPending s → judge s ≡ continues
judge-pending (http_error code) h = rw h refl
judge-pending (connector_status connector tasks) h =
    elim (Bool-cases (is_running connector tasks)) [
      | inl runs ↦ absurd (h.0 ((is_running_iff connector tasks).0 runs))
      | inr waits ↦ rw (waits, (any_iff "FAILED" tasks).1 h.1) refl
    ]

-- What a round says when the registration succeeds in it or after it.
judge_cases :
    (s : Status) (rest : Registration)
    → settle (judge s) rest ≡ running
    → IsReady s ⊎ (IsPending s × (rest ≡ running))
judge_cases (http_error code) rest h = elim (Bool-cases (code == 404)) [
  | inl missing ↦ inr ((nat_beq_iff code 404).0 missing, rw missing at h)
  | inr other ↦ absurd (not_raised (rw other at h))
]
  where
    not_raised : settle (raises code) rest ≡ running → ⊥
    not_raised e = cc
judge_cases (connector_status connector tasks) rest h =
    elim (Bool-cases (is_running connector tasks)) [
      | inl runs ↦ inl ((is_running_iff connector tasks).0 runs)
      | inr waits ↦ elim (Bool-cases (any (has_state "FAILED") tasks)) [
        | inl failed ↦ absurd (ground (arith, failed, waits, h))
        | inr pending ↦ inr (
          (
            λ ready. absurd (ground (arith, (is_running_iff connector tasks).1 ready)),
            (any_iff "FAILED" tasks).0 pending,
          ),
          ground (arith, waits, pending, h),
        )
      ]
    ]

registered_after :
    (deadline : ℕ) (before after : List StatusRound) (r : StatusRound)
    → All (λ (r : StatusRound). (r.monotonic < deadline) × IsPending r.status) before
    → r.monotonic < deadline
    → IsReady r.status
    → register_connector deadline (before ++ r ∷ after) ≡ running
unfolding register_connector
registered_after deadline [] after r waited early ready =
    let now : judge r.status ≡ returns = judge-ready r.status ready in rw now (ground arith)
registered_after deadline (x ∷ xs) after r waited early ready =
    let later = registered_after deadline xs after r waited.1 early ready in
    let next : judge x.status ≡ continues = judge-pending x.status waited.0.1 in
    let soon : x.monotonic < deadline = waited.0.0 in rw next (ground arith)

register_connector-Succeeds :
    (deadline : ℕ) (rounds : List StatusRound)
    → register_connector deadline rounds ≡ running
    → Succeeds deadline rounds
unfolding register_connector
register_connector-Succeeds deadline [] h = cc
register_connector-Succeeds deadline (r ∷ rs) h = elim (Bool-cases (ltb r.monotonic deadline)) [
  | inr late ↦ absurd (ground arith)
  | inl early ↦
      let soon : r.monotonic < deadline = ground arith in
      elim (judge_cases r.status (register_connector deadline rs) (ground arith)) [
        | inl ready ↦ record {
          before = [];
          last = r;
          after = rs;
          split = refl;
          waited = tt;
          early = soon;
          ready = ready;
        }
        | inr (pending, later) ↦
            let k = register_connector-Succeeds deadline rs later in
            record {
              before = r ∷ k.before;
              last = k.last;
              after = k.after;
              split = ap (λ xs. r ∷ xs) k.split;
              waited = ((soon, pending), k.waited);
              early = k.early;
              ready = k.ready;
            }
      ]
]

-- The registration succeeds exactly when a round before the deadline finds the connector RUNNING with
-- one task at least and every task RUNNING, and each round up to it was before the deadline and found
-- either a 404 or a connector that is not in that state and has no FAILED task.
pub register_connector_iff :
    (deadline : ℕ) (rounds : List StatusRound)
    → (register_connector deadline rounds ≡ running) ↔ Succeeds deadline rounds
register_connector_iff deadline rounds = (
  register_connector-Succeeds deadline rounds,
  λ k.
      ap (register_connector deadline) k.split
      ∙ registered_after deadline k.before k.after k.last k.waited k.early k.ready,
)

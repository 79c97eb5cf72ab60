-- ===== src/Server/Queue.antt =====
-- The queue of src/server/engine.rs: the count of jobs that all callers of `submit` share, and the
-- slots they take in it. One atomic counter is the whole of the shared state, so an execution is a
-- sequence of its operations, in any interleaving of the callers. A slot that is dropped wherever the
-- code drops it is a step of its holder. The channel to the worker is an environment that accepts a
-- job or does not.
pub mod Invariant
pub mod Admission
mod Tests
use inferq.Prelude.{
  ℕ, zero, suc, ◌+◌, ◌≡◌, List, [], ◌∷◌, some, max, set, get_elem?, leb, if◌then◌else◌, u64_max,
}

pub data SubmitError : Type 0 where
  busy : SubmitError
  stopped : SubmitError

-- Where a call of `submit` stands, and its job after it: before the first load of the counter, before
-- the exchange with the count last observed, with a slot but not sent, sent to the worker, returned
-- with an error, and with the job dropped by the worker.
pub data Caller : Type 0 where
  loading : Caller
  comparing : ℕ → Caller
  holding : Caller
  queued : Caller
  refused : SubmitError → Caller
  finished : Caller

pub record Queue : Type 0 where
  pub pending : ℕ
  pub callers : List Caller

-- The head of the loop of `reserve_slot`, on the count observed.
unfoldable pub examine : ℕ → ℕ → Caller
examine max_queue observed =
    if leb max_queue observed then Caller.refused SubmitError.busy else Caller.comparing observed

-- `fetch_sub` of one wraps around at 0.
unfoldable pub fetch_sub : ℕ → ℕ
fetch_sub zero = u64_max
fetch_sub (suc n) = n

-- One step of a caller, with the count before it, after it and where the caller stands then. The weak
-- exchange may fail on the count it expects, too. No `pending + 1` overflows: the observed count is
-- below `max_queue`.
pub data Move (max_queue pending : ℕ) : Caller → ℕ → Caller → Type 0 where
  load : Move max_queue pending Caller.loading pending (examine max_queue pending)
  exchange :
      {n : ℕ} → n ≡ pending → Move max_queue pending (Caller.comparing n) (n + 1) Caller.holding
  fail : {n : ℕ} → Move max_queue pending (Caller.comparing n) pending (examine max_queue pending)
  send : Move max_queue pending Caller.holding pending Caller.queued
  stop :
      Move max_queue pending Caller.holding (fetch_sub pending) (Caller.refused SubmitError.stopped)
  drop : Move max_queue pending Caller.queued (fetch_sub pending) Caller.finished

-- A step of the caller `i`.
pub data Step (max_queue i : ℕ) (q : Queue) : Queue → Type 0 where
  step :
      {c c' : Caller} {pending : ℕ}
      → get_elem? q.callers i ≡ some c
      → Move max_queue q.pending c pending c'
      → Step max_queue i q (record { pending = pending; callers = set q.callers i c' })

-- The handle that `start` returns: the bound on the queue, and nothing pending.
unfoldable pub start_max_queue : ℕ → ℕ
start_max_queue configured = max configured 1

abbrev pub start : Queue
start = record { pending = 0; callers = [] }

-- Callers arrive and take steps in any order.
pub data Reach (max_queue : ℕ) : Queue → Type 0 where
  started : Reach max_queue start
  arrived :
      {q : Queue}
      → Reach max_queue q
      → Reach max_queue (record q { callers = Caller.loading ∷ q.callers })
  stepped : {q q' : Queue} (i : ℕ) → Reach max_queue q → Step max_queue i q q' → Reach max_queue q'

-- Steps of one caller while the others stand still.
pub data Solo (max_queue i : ℕ) : Queue → Queue → Type 0 where
  here : (q : Queue) → Solo max_queue i q q
  then_solo :
      {q q' q'' : Queue} → Step max_queue i q q' → Solo max_queue i q' q'' → Solo max_queue i q q''

-- ===== src/Server/Queue/Tests.antt =====
-- A queue configured with no room, which keeps one place: a first call loads the count, a second call
-- takes the slot, and the first one's count is then outdated.
use inferq.Prelude.{◌≡◌, ◌≤◌, refl, [], ◌∷◌, some, get_elem?}
use inferq.Server.Queue.{
  Caller, Queue, Move, Step, Reach, Solo, examine, SubmitError, start_max_queue,
}
use inferq.Server.Queue.Invariant.{held, Reach-pending}
use inferq.Server.Queue.Admission.{reserved, reserve_slot-returns}

abbrev raced : Queue
raced = record { pending = 1; callers = Caller.holding ∷ Caller.comparing 0 ∷ [] }

abbrev both_looked : Queue
both_looked = record { pending = 0; callers = Caller.comparing 0 ∷ Caller.comparing 0 ∷ [] }

both_looked-Reach : Reach (start_max_queue 0) both_looked
unfolding start_max_queue examine
both_looked-Reach =
    Reach.stepped 0
      (Reach.arrived (
        Reach.stepped 0 (Reach.arrived Reach.started)
          (Step.step {c = Caller.loading} refl Move.load)))
      (Step.step {c = Caller.loading} refl Move.load)

raced-Reach : Reach (start_max_queue 0) raced
unfolding start_max_queue
raced-Reach =
    Reach.stepped 0 both_looked-Reach (Step.step {c = Caller.comparing 0} refl (Move.exchange refl))

Reach-pending_example : (1 ≡ held raced.callers) × (1 ≤ start_max_queue 0)
Reach-pending_example = Reach-pending raced-Reach

reserve_slot-returns_example :
    (q' : Queue) × Solo (start_max_queue 0) 1 raced q'
    × (get_elem? q'.callers 1 ≡ some (reserved (start_max_queue 0) 1))
reserve_slot-returns_example = reserve_slot-returns 1 (Caller.comparing 0) raced-Reach refl tt

reserved_run : reserved (start_max_queue 0) 1 ≡ Caller.refused SubmitError.busy
unfolding reserved start_max_queue
reserved_run = refl

-- ===== src/Server/Queue/Invariant.antt =====
-- The count against the slots, in every interleaving.
use inferq.Prelude.{
  ℕ, zero, suc, ◌+◌, ◌≤◌, ◌<◌, ◌≡◌, refl, List, [], ◌∷◌, some, set, get_elem?, All, arith,
}
use mathlib.Core.Option.{some-injective}
use inferq.Server.Queue.{Caller, Queue, Move, Step, Reach, examine, fetch_sub}

-- The slots a caller or its job owns.
unfoldable pub slots : Caller → ℕ
slots Caller.loading = 0
slots (Caller.comparing n) = 0
slots Caller.holding = 1
slots Caller.queued = 1
slots (Caller.refused e) = 0
slots Caller.finished = 0

unfoldable pub held : List Caller → ℕ
held [] = 0
held (c ∷ cs) = slots c + held cs

-- A caller that is about to exchange has seen room.
abbrev pub HasSeenRoom : ℕ → Caller → Type 0
HasSeenRoom max_queue (Caller.comparing n) = n < max_queue
HasSeenRoom max_queue c = Unit

abbrev pub IsAccounted : ℕ → Queue → Type 0
IsAccounted max_queue q =
    (q.pending ≡ held q.callers)
    × (held q.callers ≤ max_queue)
    × All (HasSeenRoom max_queue) q.callers

pub held-set :
    (cs : List Caller) (i : ℕ) {c : Caller} (c' : Caller)
    → get_elem? cs i ≡ some c
    → held (set cs i c') + slots c ≡ held cs + slots c'
unfolding held
held-set [] i c' h = ground arith
held-set (x ∷ cs) zero {c} c' h = grind arith
held-set (x ∷ cs) (suc i) c' h = omega (arith, held-set cs i c' h)

All-set :
    (P : Caller → Type 0) (cs : List Caller) (i : ℕ) (c : Caller)
    → All P cs
    → P c
    → All P (set cs i c)
All-set P [] i c h p = h
All-set P (x ∷ cs) zero c h p = (p, h.1)
All-set P (x ∷ cs) (suc i) c h p = (h.0, All-set P cs i c h.1 p)

pub All-get_elem? :
    (P : Caller → Type 0) (cs : List Caller) (i : ℕ) {c : Caller}
    → All P cs
    → get_elem? cs i ≡ some c
    → P c
All-get_elem? P [] i all h = ground arith
All-get_elem? P (x ∷ cs) zero all h = rw (← some-injective x _ h) all.0
All-get_elem? P (x ∷ cs) (suc i) all h = All-get_elem? P cs i all.1 h

examine-HasSeenRoom : (max_queue n : ℕ) → HasSeenRoom max_queue (examine max_queue n)
unfolding examine
examine-HasSeenRoom max_queue n = ground arith

examine-slots : (max_queue n : ℕ) → slots (examine max_queue n) ≡ 0
unfolding examine slots
examine-slots max_queue n = ground arith

fetch_sub_lem : (n : ℕ) → 1 ≤ n → fetch_sub n + 1 ≡ n
unfolding fetch_sub
fetch_sub_lem zero h = absurd (omega arith)
fetch_sub_lem (suc n) h = omega arith

-- A step moves the count by the slots it takes or gives up, and takes one where there was room.
Move-slots :
    {max_queue pending pending' : ℕ} {c c' : Caller}
    → Move max_queue pending c pending' c'
    → HasSeenRoom max_queue c
    → slots c ≤ pending
    → pending ≤ max_queue
    → (pending' + slots c ≡ pending + slots c') × (pending' ≤ max_queue) × HasSeenRoom max_queue c'
unfolding slots
Move-slots {max_queue} {pending} Move.load h s le =
    (omega (arith, examine-slots max_queue pending), le, examine-HasSeenRoom max_queue pending)
Move-slots (Move.exchange e) h s le = (omega arith, omega arith, tt)
Move-slots {max_queue} {pending} Move.fail h s le =
    (omega (arith, examine-slots max_queue pending), le, examine-HasSeenRoom max_queue pending)
Move-slots Move.send h s le = (refl, le, tt)
Move-slots {pending} Move.stop h s le =
    (omega (arith, fetch_sub_lem pending s), omega (arith, fetch_sub_lem pending s), tt)
Move-slots {pending} Move.drop h s le =
    (omega (arith, fetch_sub_lem pending s), omega (arith, fetch_sub_lem pending s), tt)

slots_le_held :
    (cs : List Caller) (i : ℕ) {c : Caller} → get_elem? cs i ≡ some c → slots c ≤ held cs
unfolding slots
slots_le_held cs i {c} h = omega (arith, held-set cs i Caller.loading h)

Step-IsAccounted :
    {max_queue i : ℕ} {q q' : Queue}
    → Step max_queue i q q'
    → IsAccounted max_queue q
    → IsAccounted max_queue q'
Step-IsAccounted {max_queue} {i} {q} (Step.step {c} {c'} at_i move) (count, bound, seen) =
    let (moved, room, seen') =
      Move-slots move (All-get_elem? (HasSeenRoom max_queue) q.callers i seen at_i)
        (omega (arith, count, slots_le_held q.callers i at_i)) (omega (arith, count, bound)) in
    let total = held-set q.callers i c' at_i in
    (
      omega (arith, moved, total, count),
      omega (arith, moved, total, count, room),
      All-set (HasSeenRoom max_queue) q.callers i c' seen seen',
    )

pub Reach-IsAccounted : {max_queue : ℕ} {q : Queue} → Reach max_queue q → IsAccounted max_queue q
unfolding held slots
Reach-IsAccounted Reach.started = (refl, omega arith, tt)
Reach-IsAccounted (Reach.arrived r) =
    let (count, bound, seen) = Reach-IsAccounted r in
    (omega (arith, count), omega (arith, bound), (tt, seen))
Reach-IsAccounted (Reach.stepped i r s) = Step-IsAccounted s (Reach-IsAccounted r)

-- However the callers of `submit` and the worker interleave, the count is the number of slots that
-- calls and queued jobs own, and at most `max_queue`.
pub Reach-pending :
    {max_queue : ℕ} {q : Queue}
    → Reach max_queue q
    → (q.pending ≡ held q.callers) × (q.pending ≤ max_queue)
Reach-pending r =
    let (count, bound, seen) = Reach-IsAccounted r in (count, omega (arith, count, bound))

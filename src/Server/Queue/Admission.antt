-- ===== src/Server/Queue/Admission.antt =====
-- What a call of `reserve_slot` comes to when nothing interferes with it.
use inferq.Prelude.{
  ℕ, zero, suc, ◌+◌, ◌<◌, ◌≡◌, refl, List, [], ◌∷◌, some, set, get_elem?, arith, leb, if◌then◌else◌,
  false, Bool-cases, inl, inr, ◌==◌, ==_iff,
}
use inferq.Server.Queue.{Caller, Queue, Move, Step, Reach, Solo, examine, SubmitError}
use inferq.Server.Queue.Invariant.{HasSeenRoom, Reach-IsAccounted, All-get_elem?}

-- A call that is inside `reserve_slot`.
abbrev pub IsReserving : ℕ → Caller → Type 0
IsReserving max_queue Caller.loading = Unit
IsReserving max_queue (Caller.comparing n) = Unit
IsReserving max_queue c = ⊥

-- The result of `reserve_slot` as a function of the count.
unfoldable pub reserved : ℕ → ℕ → Caller
reserved max_queue pending =
    if leb max_queue pending then Caller.refused SubmitError.busy else Caller.holding

get_elem?-set :
    (cs : List Caller) (i : ℕ) {c : Caller} (c' : Caller)
    → get_elem? cs i ≡ some c
    → get_elem? (set cs i c') i ≡ some c'
get_elem?-set [] i c' h = ground arith
get_elem?-set (x ∷ cs) zero c' h = refl
get_elem?-set (x ∷ cs) (suc i) c' h = get_elem?-set cs i c' h

-- What one step leaves of the queue.
abbrev after : Queue → ℕ → ℕ → Caller → Queue
after q i pending c = record { pending = pending; callers = set q.callers i c }

examined-reserved :
    (max_queue i : ℕ) (q : Queue)
    → get_elem? q.callers i ≡ some (examine max_queue q.pending)
    → (q' : Queue) × Solo max_queue i q q'
      × (get_elem? q'.callers i ≡ some (reserved max_queue q.pending))
unfolding examine reserved
examined-reserved max_queue i q h = elim (Bool-cases (leb max_queue q.pending)) [
  | inl full ↦ (q, Solo.here q, simp (full, h))
  | inr room ↦
      let h' : get_elem? q.callers i ≡ some (Caller.comparing q.pending) = rw (h, room) refl in
      (
        after q i (q.pending + 1) Caller.holding,
        Solo.then_solo (Step.step h' (Move.exchange refl)) (Solo.here _),
        rw (room, get_elem?-set q.callers i Caller.holding h') refl,
      )
]

-- A step that observes the count leads to the result.
observed-reserved :
    (max_queue i : ℕ) (q : Queue) (c : Caller)
    → get_elem? q.callers i ≡ some c
    → Move max_queue q.pending c q.pending (examine max_queue q.pending)
    → (q' : Queue) × Solo max_queue i q q'
      × (get_elem? q'.callers i ≡ some (reserved max_queue q.pending))
observed-reserved max_queue i q c h move =
    let (q', run, end) =
      examined-reserved max_queue i (after q i q.pending (examine max_queue q.pending))
        (get_elem?-set q.callers i (examine max_queue q.pending) h) in
    (q', Solo.then_solo (Step.step h move) run, end)

exchanged-reserved :
    (max_queue i n : ℕ) (q : Queue)
    → get_elem? q.callers i ≡ some (Caller.comparing n)
    → n < max_queue
    → n ≡ q.pending
    → (q' : Queue) × Solo max_queue i q q'
      × (get_elem? q'.callers i ≡ some (reserved max_queue q.pending))
unfolding reserved
exchanged-reserved max_queue i n q h room e =
    let full : leb max_queue q.pending ≡ false = ground arith in
    (
      after q i (n + 1) Caller.holding,
      Solo.then_solo (Step.step h (Move.exchange e)) (Solo.here _),
      rw full (get_elem?-set q.callers i Caller.holding h),
    )

-- A call that is inside `reserve_slot`, at any point that an interleaving of all callers has brought it
-- to, and whose own steps are then the only ones, has steps that return: with a slot if the count is
-- below `max_queue`, and with `Busy` if it is not. An outdated count costs it one more turn of the loop.
pub reserve_slot-returns :
    {max_queue : ℕ} {q : Queue} (i : ℕ) (c : Caller)
    → Reach max_queue q
    → get_elem? q.callers i ≡ some c
    → IsReserving max_queue c
    → (q' : Queue) × Solo max_queue i q q'
      × (get_elem? q'.callers i ≡ some (reserved max_queue q.pending))
reserve_slot-returns {max_queue} {q} i Caller.loading r h is =
    observed-reserved max_queue i q Caller.loading h Move.load
reserve_slot-returns {max_queue} {q} i (Caller.comparing n) r h is =
    let (count, bound, seen) = Reach-IsAccounted r in
    let room = All-get_elem? (HasSeenRoom max_queue) q.callers i seen h in
    elim (Bool-cases (n == q.pending)) [
      | inl same ↦ exchanged-reserved max_queue i n q h room ((==_iff n q.pending).0 same)
      | inr other ↦ observed-reserved max_queue i q (Caller.comparing n) h Move.fail
    ]
reserve_slot-returns i Caller.holding r h is = elim is [ ]
reserve_slot-returns i Caller.queued r h is = elim is [ ]
reserve_slot-returns i (Caller.refused e) r h is = elim is [ ]
reserve_slot-returns i Caller.finished r h is = elim is [ ]

-- ===== src/PromptCache/Evict/Budget.antt =====
-- How far `evict` of src/prompt_cache/mod.rs goes.
use inferq.Prelude.{
  ℕ, ◌≤◌, ◌≡◌, ap, arith, Bool, true, false, Option, none, some, List, [], ◌∷◌, ◌++◌, leb, Any,
  Bool-cases, Option-cases, inl, inr, ◌⊎◌,
}
use inferq.PromptCache.Index.{EntryKey, EntryMeta, Entries, Index, key_eq, remove, entry_of}
use mathlib.Core.Option.{none-ne-some}
use inferq.PromptCache.Index.Accounts.{key_eq-eq, entry_of-without-none, entry_of-without}
use inferq.PromptCache.Evict.{
  Candidate, is_kept, foreign_candidates, own_candidates, sorts_before, place, sort_candidates,
  drop_candidate, evict_from, evict,
}

-- The candidate of an entry.
abbrev IsCandidate : EntryKey → ℕ → Candidate → Type 0
IsCandidate key path c = (c.key ≡ some key) × (c.path ≡ path)

Any-append : (P : Candidate → Type 0) (cs ds : List Candidate) → Any P ds → Any P (cs ++ ds)
Any-append P [] ds h = h
Any-append P (c ∷ cs) ds h = inr (Any-append P cs ds h)

Any-place_head :
    (P : Candidate → Type 0) (c : Candidate) (cs : List Candidate) → P c → Any P (place c cs)
unfolding place
Any-place_head P c [] h = inl h
Any-place_head P c (d ∷ ds) h = elim (Bool-cases (sorts_before d c)) [
  | inl before ↦ simp before (inr (Any-place_head P c ds h))
  | inr not_before ↦ simp not_before (inl h)
]

Any-place_rest :
    (P : Candidate → Type 0) (c : Candidate) (cs : List Candidate) → Any P cs → Any P (place c cs)
unfolding place
Any-place_rest P c [] h = absurd h
Any-place_rest P c (d ∷ ds) h = elim (Bool-cases (sorts_before d c)) [
  | inl before ↦
      simp before (elim h [ inl here ↦ inl here | inr there ↦ inr (Any-place_rest P c ds there) ])
  | inr not_before ↦ simp not_before (inr h)
]

Any-sort_candidates :
    (P : Candidate → Type 0) (cs : List Candidate) → Any P cs → Any P (sort_candidates cs)
unfolding sort_candidates
Any-sort_candidates P [] h = absurd h
Any-sort_candidates P (c ∷ cs) (inl here) = Any-place_head P c (sort_candidates cs) here
Any-sort_candidates P (c ∷ cs) (inr there) =
    Any-place_rest P c (sort_candidates cs) (Any-sort_candidates P cs there)

Any-own_candidates :
    (keep : Option EntryKey) (key : EntryKey) (meta : EntryMeta) (entries : Entries)
    → entry_of key entries ≡ some meta
    → is_kept keep key ≡ false
    → Any (IsCandidate key meta.path) (own_candidates keep entries)
unfolding entry_of own_candidates
Any-own_candidates keep key meta [] h apart = none-ne-some meta h
Any-own_candidates keep key meta ((k, m) ∷ entries) h apart = elim (Bool-cases (key_eq k key)) [
  | inl same ↦
      let is : k ≡ key = key_eq-eq k key same in
      let found : m ≡ meta = let both : some m ≡ some meta = rw same at h in cc in
      let spared : is_kept keep k ≡ false = rw is apart in
      rw spared (inl (ap some is, ap (λ (x : EntryMeta). x.path) found))
  | inr other ↦
      let rest = Any-own_candidates keep key meta entries (rw other at h) apart in
      elim (Bool-cases (is_kept keep k)) [
        | inl kept ↦ rw kept rest
        | inr spared ↦ rw spared (inr rest)
      ]
]

entry_of-drop_none :
    (key : EntryKey) (index : Index) (c : Candidate)
    → (entry_of key index.entries ≡ none) ⊎ (c.key ≡ some key)
    → entry_of key (drop_candidate index c).entries ≡ none
unfolding drop_candidate remove
entry_of-drop_none key index c (inr own) = elim (Option-cases (entry_of key index.entries)) [
  | inl fresh ↦ rw (drop_candidate, own, remove, fresh) fresh
  | inr (meta, there) ↦ rw (drop_candidate, own, remove, there) (entry_of-without key index.entries)
]
entry_of-drop_none key index c (inl absent) = elim (Option-cases c.key) [
  | inl foreign ↦ rw (drop_candidate, foreign) absent
  | inr (other, own) ↦ elim (Option-cases (entry_of other index.entries)) [
    | inl fresh ↦ rw (drop_candidate, own, remove, fresh) absent
    | inr (meta, there) ↦
        rw (drop_candidate, own, remove, there)
          (entry_of-without-none other key index.entries absent)
  ]
]

-- What is gone stays gone.
evict_from-absent :
    (removable : ℕ → Bool) (budget : ℕ) (cs : List Candidate) (key : EntryKey) (index : Index)
    → entry_of key index.entries ≡ none
    → entry_of key (evict_from removable budget cs index).entries ≡ none
unfolding evict_from
evict_from-absent removable budget [] key index h = h
evict_from-absent removable budget (c ∷ cs) key index h =
    elim (Bool-cases (leb index.bytes budget)) [
      | inl fits ↦ simp fits h
      | inr over ↦ elim (Bool-cases (removable c.path)) [
        | inl removed ↦
            simp (over, removed)
              (evict_from-absent removable budget cs key (drop_candidate index c)
                (entry_of-drop_none key index c (inl h)))
        | inr failed ↦ simp (over, failed) (evict_from-absent removable budget cs key index h)
      ]
    ]

evict_from-reaches :
    (removable : ℕ → Bool) (budget : ℕ) (cs : List Candidate) (key : EntryKey) (path : ℕ)
    (index : Index)
    → Any (IsCandidate key path) cs
    → removable path ≡ true
    → ((evict_from removable budget cs index).bytes ≤ budget)
      ⊎ (entry_of key (evict_from removable budget cs index).entries ≡ none)
unfolding evict_from
evict_from-reaches removable budget [] key path index h can = absurd h
evict_from-reaches removable budget (c ∷ cs) key path index h can =
    elim (Bool-cases (leb index.bytes budget)) [
      | inl fits ↦ simp fits (inl (ground arith))
      | inr over ↦ elim h [
        | inl (own, at) ↦
            let removed : removable c.path ≡ true = rw at can in
            simp (over, removed)
              (inr (
                evict_from-absent removable budget cs key (drop_candidate index c)
                  (entry_of-drop_none key index c (inr own))))
        | inr there ↦ elim (Bool-cases (removable c.path)) [
          | inl removed ↦
              simp (over, removed)
                (evict_from-reaches removable budget cs key path (drop_candidate index c) there can)
          | inr failed ↦
              simp (over, failed) (evict_from-reaches removable budget cs key path index there can)
        ]
      ]
    ]

-- Eviction goes on until the index fits the budget: afterwards it does, or an entry that is not the
-- kept one, and whose file can be removed, is gone.
pub evict-reaches_budget :
    (removable : ℕ → Bool) (budget : ℕ) (keep : Option EntryKey) (index : Index) (key : EntryKey)
    (meta : EntryMeta)
    → entry_of key index.entries ≡ some meta
    → is_kept keep key ≡ false
    → removable meta.path ≡ true
    → ((evict removable budget keep index).bytes ≤ budget)
      ⊎ (entry_of key (evict removable budget keep index).entries ≡ none)
unfolding evict
evict-reaches_budget removable budget keep index key meta there apart can =
    elim (Bool-cases (leb index.bytes budget)) [
      | inl fits ↦ simp fits (inl (ground arith))
      | inr over ↦ simp over (
          evict_from-reaches removable budget _ key meta.path index
            (Any-sort_candidates (IsCandidate key meta.path) _ (
              Any-append (IsCandidate key meta.path) (foreign_candidates index.foreign)
                (own_candidates keep index.entries)
                (Any-own_candidates keep key meta index.entries there apart)))
            can)
    ]

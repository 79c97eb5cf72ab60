-- ===== src/PromptCache/Evict/Keep.antt =====
-- What `evict` of src/prompt_cache/mod.rs leaves alone.
use inferq.Prelude.{
  ℕ, ◌≡◌, refl, ◌∙◌, arith, Bool, true, false, Option, none, some, List, [], ◌∷◌, ◌++◌, leb, All,
  Bool-cases, Option-cases, inl, inr,
}
use inferq.PromptCache.Index.{
  EntryKey, EntryMeta, Entries, Index, key_eq, remove, entry_of, without,
}
use inferq.PromptCache.Evict.{
  Candidate, is_kept, foreign_candidates, own_candidates, sorts_before, place, sort_candidates,
  drop_candidate, evict_from, evict,
}

-- A candidate that is not the kept entry.
abbrev Spares : EntryKey → Option EntryKey → Type 0
Spares keep none = Unit
Spares keep (some key) = key_eq key keep ≡ false

abbrev Safe : EntryKey → List Candidate → Type 0
Safe keep = All (λ c. Spares keep c.key)

Safe-append :
    (keep : EntryKey) (cs ds : List Candidate) → Safe keep cs → Safe keep ds → Safe keep (cs ++ ds)
Safe-append keep [] ds hc hd = hd
Safe-append keep (c ∷ cs) ds (h, hc) hd = (h, Safe-append keep cs ds hc hd)

Safe-foreign_candidates :
    (keep : EntryKey) (metas : List EntryMeta) → Safe keep (foreign_candidates metas)
unfolding foreign_candidates
Safe-foreign_candidates keep [] = tt
Safe-foreign_candidates keep (m ∷ metas) = (tt, Safe-foreign_candidates keep metas)

Safe-own_candidates :
    (keep : EntryKey) (entries : Entries) → Safe keep (own_candidates (some keep) entries)
unfolding own_candidates is_kept
Safe-own_candidates keep [] = tt
Safe-own_candidates keep ((key, meta) ∷ entries) = elim (Bool-cases (key_eq key keep)) [
  | inl same ↦ simp same (Safe-own_candidates keep entries)
  | inr other ↦ simp other (refl, Safe-own_candidates keep entries)
]

Safe-place :
    (keep : EntryKey) (c : Candidate) (cs : List Candidate)
    → Spares keep c.key
    → Safe keep cs
    → Safe keep (place c cs)
unfolding place
Safe-place keep c [] h hs = (h, tt)
Safe-place keep c (d ∷ ds) h (hd, hs) = elim (Bool-cases (sorts_before d c)) [
  | inl before ↦ simp before (hd, Safe-place keep c ds h hs)
  | inr not_before ↦ simp not_before (h, (hd, hs))
]

Safe-sort_candidates :
    (keep : EntryKey) (cs : List Candidate) → Safe keep cs → Safe keep (sort_candidates cs)
unfolding sort_candidates
Safe-sort_candidates keep [] h = tt
Safe-sort_candidates keep (c ∷ cs) (h, hs) = Safe-place keep c _ h (Safe-sort_candidates keep cs hs)

key_eq-right : (a b c : EntryKey) → key_eq a b ≡ true → key_eq a c ≡ key_eq b c
unfolding key_eq
key_eq-right a b c h = ground arith

entry_of-without_other :
    (key keep : EntryKey) (entries : Entries)
    → key_eq key keep ≡ false
    → entry_of keep (without key entries) ≡ entry_of keep entries
unfolding entry_of without
entry_of-without_other key keep [] h = refl
entry_of-without_other key keep ((k, meta) ∷ entries) h =
    let rest = entry_of-without_other key keep entries h in
    elim (Bool-cases (key_eq k key)) [
      | inl gone ↦
          let apart : key_eq k keep ≡ false = key_eq-right k key keep gone ∙ h in
          simp (gone, apart) rest
      | inr stays ↦ elim (Bool-cases (key_eq k keep)) [
        | inl here ↦ simp (stays, here)
        | inr there ↦ simp (stays, there) rest
      ]
    ]

entry_of-remove_other :
    (key keep : EntryKey) (index : Index)
    → key_eq key keep ≡ false
    → entry_of keep (remove index key).0.entries ≡ entry_of keep index.entries
unfolding remove
entry_of-remove_other key keep index h = elim (Option-cases (entry_of key index.entries)) [
  | inl fresh ↦ rw (remove, fresh) refl
  | inr (meta, there) ↦ rw (remove, there) (entry_of-without_other key keep index.entries h)
]

entry_of-drop_candidate :
    (keep : EntryKey) (index : Index) (c : Candidate)
    → Spares keep c.key
    → entry_of keep (drop_candidate index c).entries ≡ entry_of keep index.entries
unfolding drop_candidate
entry_of-drop_candidate keep index c h = elim (Option-cases c.key) [
  | inl foreign ↦ rw (drop_candidate, foreign) refl
  | inr (key, own) ↦ rw (drop_candidate, own) (entry_of-remove_other key keep index (rw own at h))
]

entry_of-evict_from :
    (removable : ℕ → Bool) (budget : ℕ) (cs : List Candidate) (keep : EntryKey) (index : Index)
    → Safe keep cs
    → entry_of keep (evict_from removable budget cs index).entries ≡ entry_of keep index.entries
unfolding evict_from
entry_of-evict_from removable budget [] keep index h = refl
entry_of-evict_from removable budget (c ∷ cs) keep index (h, hs) =
    elim (Bool-cases (leb index.bytes budget)) [
      | inl fits ↦ simp fits
      | inr over ↦ elim (Bool-cases (removable c.path)) [
        | inl removed ↦
            simp (over, removed)
              (entry_of-evict_from removable budget cs keep (drop_candidate index c) hs
                ∙ entry_of-drop_candidate keep index c h)
        | inr failed ↦ simp (over, failed) (entry_of-evict_from removable budget cs keep index hs)
      ]
    ]

-- Whatever the budget and whatever files can be removed, eviction never drops the entry it was told
-- to keep: what is found under its key stays the same.
pub entry_of-evict :
    (removable : ℕ → Bool) (budget : ℕ) (keep : EntryKey) (index : Index)
    → entry_of keep (evict removable budget (some keep) index).entries ≡ entry_of keep index.entries
unfolding evict
entry_of-evict removable budget keep index = elim (Bool-cases (leb index.bytes budget)) [
  | inl fits ↦ simp fits
  | inr over ↦ simp over (
      entry_of-evict_from removable budget _ keep index (
        Safe-sort_candidates keep _ (
          Safe-append keep (foreign_candidates index.foreign)
            (own_candidates (some keep) index.entries) (Safe-foreign_candidates keep index.foreign)
            (Safe-own_candidates keep index.entries))))
]

-- ===== src/PromptCache/Evict.antt =====
-- `evict` of src/prompt_cache/mod.rs: files are removed, the least recently used first, until the
-- index fits its budget. Whether the file of a path can be removed is an argument.
pub mod Keep
pub mod Budget
use inferq.Prelude.{
  ℕ, ◌-◌, Bool, true, false, not, ◌&&◌, ◌||◌, Option, none, some, List, [], ◌∷◌, ◌++◌, map, ltb,
  leb, ◌==◌, if◌then◌else◌,
}
use inferq.PromptCache.Index.{EntryKey, EntryMeta, Entries, Index, key_eq, remove}

pub record Candidate : Type 0 where
  pub used : ℕ
  pub key : Option EntryKey
  pub path : ℕ
  pub bytes : ℕ

-- `Some(key) != keep`, turned round.
unfoldable pub is_kept : Option EntryKey → EntryKey → Bool
unfolding key_eq
is_kept none key = false
is_kept (some keep) key = key_eq key keep

-- Foreign files count as last used at the epoch.
unfoldable pub foreign_candidates : List EntryMeta → List Candidate
foreign_candidates [] = []
foreign_candidates (meta ∷ metas) =
    record { used = 0; key = none; path = meta.path; bytes = meta.bytes } ∷ foreign_candidates metas

unfoldable pub own_candidates : Option EntryKey → Entries → List Candidate
unfolding is_kept
own_candidates keep [] = []
own_candidates keep ((key, meta) ∷ entries) =
    let rest = own_candidates keep entries in
    if is_kept keep key
    then rest
    else record { used = meta.used; key = some key; path = meta.path; bytes = meta.bytes } ∷ rest

-- Whether the sort key of one candidate is smaller than that of another.
unfoldable pub sorts_before : Candidate → Candidate → Bool
sorts_before a b = ltb a.used b.used || (a.used == b.used && ltb a.path b.path)

-- The stable sort by that key.
unfoldable pub place : Candidate → List Candidate → List Candidate
unfolding sorts_before
place c [] = c ∷ []
place c (other ∷ others) =
    let rest = place c others in if sorts_before other c then other ∷ rest else c ∷ other ∷ others

unfoldable pub sort_candidates : List Candidate → List Candidate
unfolding place
sort_candidates [] = []
sort_candidates (c ∷ cs) = place c (sort_candidates cs)

unfoldable pub without_path : ℕ → List EntryMeta → List EntryMeta
without_path path [] = []
without_path path (meta ∷ metas) =
    let rest = without_path path metas in if meta.path == path then rest else meta ∷ rest

-- The index after the file of a candidate is removed.
unfoldable pub drop_candidate : Index → Candidate → Index
unfolding without_path
drop_candidate index c = elim c.key [
  | some key ↦ (remove index key).0
  | none ↦ record index {
    foreign = without_path c.path index.foreign;
    bytes = index.bytes - c.bytes;
  }
]

-- The loop over the candidates that are left.
unfoldable pub evict_from : (ℕ → Bool) → ℕ → List Candidate → Index → Index
unfolding drop_candidate
evict_from removable budget [] index = index
evict_from removable budget (c ∷ cs) index =
    let next : Index = if removable c.path then drop_candidate index c else index in
    let rest = evict_from removable budget cs next in if leb index.bytes budget then index else rest

unfoldable pub evict : (ℕ → Bool) → ℕ → Option EntryKey → Index → Index
unfolding foreign_candidates own_candidates sort_candidates evict_from
evict removable budget keep index =
    if leb index.bytes budget
    then index
    else evict_from removable budget
        (sort_candidates (foreign_candidates index.foreign ++ own_candidates keep index.entries))
        index

-- ===== src/PromptCache/Index.antt =====
-- The index of the entries on disk: `EntryKey`, `EntryMeta` and `Index` of
-- src/prompt_cache/mod.rs. A path is known by its rank among the paths, a time by its distance from
-- the epoch, and the hash map of entries is the list of its pairs.
pub mod Accounts
mod Tests
use inferq.Prelude.{
  ℕ, zero, suc, ◌+◌, ◌-◌, Bool, true, false, not, ◌&&◌, Option, none, some, List, [], ◌∷◌, length,
  ltb, leb, ◌==◌, if◌then◌else◌, saturating_add,
}
use inferq.Ngram.{Token, fnv1a_tokens}

pub record EntryKey : Type 0 where
  pub tokens : ℕ
  pub hash : ℕ

unfoldable pub key_of : List Token → EntryKey
unfolding fnv1a_tokens
key_of tokens = record { tokens = length tokens; hash = fnv1a_tokens tokens }

pub record EntryMeta : Type 0 where
  pub path : ℕ
  pub bytes : ℕ
  pub used : ℕ

abbrev pub Entries : Type 0
Entries = List (EntryKey × EntryMeta)

pub record Index : Type 0 where
  pub entries : Entries
  pub foreign : List EntryMeta
  pub bytes : ℕ

unfoldable pub key_eq : EntryKey → EntryKey → Bool
key_eq a b = a.tokens == b.tokens && a.hash == b.hash

-- `HashMap::get`.
unfoldable pub entry_of : EntryKey → Entries → Option EntryMeta
unfolding key_eq
entry_of key [] = none
entry_of key ((other, meta) ∷ entries) =
    let rest = entry_of key entries in if key_eq other key then some meta else rest

unfoldable pub without : EntryKey → Entries → Entries
unfolding key_eq
without key [] = []
without key ((other, meta) ∷ entries) =
    let rest = without key entries in if key_eq other key then rest else (other, meta) ∷ rest

unfoldable pub insert : Index → EntryKey → EntryMeta → Index
unfolding entry_of without
insert index key meta =
    let freed : ℕ = elim (entry_of key index.entries) [
      | none ↦ index.bytes
      | some previous ↦ index.bytes - previous.bytes
    ] in
    record index {
      entries = (key, meta) ∷ without key index.entries;
      bytes = saturating_add freed meta.bytes;
    }

unfoldable pub remove : Index → EntryKey → Index × Option EntryMeta
unfolding entry_of without
remove index key = elim (entry_of key index.entries) [
  | none ↦ (index, none)
  | some meta ↦ (
    record index { entries = without key index.entries; bytes = index.bytes - meta.bytes },
    some meta,
  )
]

-- `entry_path`.
unfoldable pub entry_path : Index → EntryKey → Option ℕ
unfolding entry_of
entry_path index key = elim (entry_of key index.entries) [
  | none ↦ none
  | some meta ↦ some meta.path
]

-- `touch`, in memory.
unfoldable pub touch_entries : EntryKey → ℕ → Entries → Entries
unfolding key_eq
touch_entries key now [] = []
touch_entries key now ((other, meta) ∷ entries) =
    let rest = touch_entries key now entries in
    let touched : EntryMeta = if key_eq other key then record meta { used = now } else meta in
    (other, touched) ∷ rest

unfoldable pub touch : Index → EntryKey → ℕ → Index
unfolding touch_entries
touch index key now = record index { entries = touch_entries key now index.entries }

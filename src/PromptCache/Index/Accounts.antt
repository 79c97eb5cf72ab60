-- ===== src/PromptCache/Index/Accounts.antt =====
-- The bytes that the index of src/prompt_cache/mod.rs accounts for.
use inferq.Prelude.{
  ℕ, ◌+◌, ◌≤◌, ◌≡◌, refl, ap, ◌∙◌, arith, true, Option, none, some, List, [], ◌∷◌, u64_max,
  Bool-cases, Option-cases, inl, inr,
}
use inferq.PromptCache.Index.{
  EntryKey, EntryMeta, Entries, Index, key_eq, entry_of, without, insert, remove,
}

unfoldable pub entry_bytes : Entries → ℕ
entry_bytes [] = 0
entry_bytes ((key, meta) ∷ entries) = meta.bytes + entry_bytes entries

unfoldable pub foreign_bytes : List EntryMeta → ℕ
foreign_bytes [] = 0
foreign_bytes (meta ∷ metas) = meta.bytes + foreign_bytes metas

-- No key stands twice.
abbrev pub AreDistinct : Entries → Type 0
AreDistinct [] = Unit
AreDistinct ((key, meta) ∷ entries) = (entry_of key entries ≡ none) × AreDistinct entries

-- The index accounts for the bytes of its entries and of the foreign files, and for no more.
pub record IsAccounted (index : Index) : Type 0 where
  pub total : index.bytes ≡ entry_bytes index.entries + foreign_bytes index.foreign
  pub distinct : AreDistinct index.entries

abbrev size_of : Option EntryMeta → ℕ
size_of none = 0
size_of (some meta) = meta.bytes

pub key_eq-eq : (a b : EntryKey) → key_eq a b ≡ true → a ≡ b
unfolding key_eq
key_eq-eq a b h =
    let tokens : a.tokens ≡ b.tokens = ground arith in
    let hash : a.hash ≡ b.hash = ground arith in
    ap (λ n. record a { tokens = n }) tokens ∙ ap (λ n. record b { hash = n }) hash

entry_bytes-without :
    (key : EntryKey) (entries : Entries)
    → AreDistinct entries
    → entry_bytes entries ≡ size_of (entry_of key entries) + entry_bytes (without key entries)
unfolding entry_bytes entry_of without
entry_bytes-without key [] d = refl
entry_bytes-without key ((other, meta) ∷ entries) (fresh, d) =
    let rest = entry_bytes-without key entries d in
    elim (Bool-cases (key_eq other key)) [
      | inl same ↦
          let gone : entry_of key entries ≡ none = rw (key_eq-eq other key same) at fresh in
          let part : entry_bytes entries ≡ 0 + entry_bytes (without key entries) =
            simp gone at rest in
          simp same (omega (arith, part))
      | inr other_key ↦ simp other_key (omega (arith, rest))
    ]

pub entry_of-without-none :
    (key other : EntryKey) (entries : Entries)
    → entry_of other entries ≡ none
    → entry_of other (without key entries) ≡ none
unfolding entry_of without
entry_of-without-none key other [] h = refl
entry_of-without-none key other ((k, meta) ∷ entries) h = elim (Bool-cases (key_eq k other)) [
  | inl same ↦ let both : some meta ≡ none = rw same at h in cc
  | inr apart ↦
      let rest = entry_of-without-none key other entries (simp apart at h) in
      elim (Bool-cases (key_eq k key)) [
        | inl gone ↦ simp gone rest
        | inr stays ↦ simp (stays, apart) rest
      ]
]

pub entry_of-without :
    (key : EntryKey) (entries : Entries) → entry_of key (without key entries) ≡ none
unfolding entry_of without
entry_of-without key [] = refl
entry_of-without key ((k, meta) ∷ entries) = elim (Bool-cases (key_eq k key)) [
  | inl gone ↦ simp gone (entry_of-without key entries)
  | inr stays ↦ simp stays (entry_of-without key entries)
]

AreDistinct-without :
    (key : EntryKey) (entries : Entries) → AreDistinct entries → AreDistinct (without key entries)
unfolding without
AreDistinct-without key [] d = tt
AreDistinct-without key ((k, meta) ∷ entries) (fresh, d) = elim (Bool-cases (key_eq k key)) [
  | inl gone ↦ simp gone (AreDistinct-without key entries d)
  | inr stays ↦
      simp stays (entry_of-without-none key k entries fresh, AreDistinct-without key entries d)
]

key_eq_refl : (key : EntryKey) → key_eq key key ≡ true
unfolding key_eq
key_eq_refl key = ground arith

-- Storing an entry keeps the account right, whether the key was there before or not, and the entry
-- is the one that is found under its key afterwards. The bytes fit 64 bits.
pub insert-IsAccounted :
    (index : Index) (key : EntryKey) (meta : EntryMeta)
    → IsAccounted index
    → index.bytes + meta.bytes ≤ u64_max
    → IsAccounted (insert index key meta)
      × (entry_of key (insert index key meta).entries ≡ some meta)
unfolding insert entry_bytes entry_of
insert-IsAccounted index key meta h fits =
    let apart = entry_of-without key index.entries in
    let distinct = AreDistinct-without key index.entries h.distinct in
    let bytes = entry_bytes-without key index.entries h.distinct in
    elim (Option-cases (entry_of key index.entries)) [
      | inl fresh ↦
          let part : entry_bytes index.entries ≡ 0 + entry_bytes (without key index.entries) =
            simp fresh at bytes in
          (
            record {
              total = rw fresh (omega (arith, h.total, part));
              distinct = (apart, distinct);
            },
            rw (key_eq_refl key) refl,
          )
      | inr (old, there) ↦
          let part : entry_bytes index.entries
              ≡ old.bytes + entry_bytes (without key index.entries) =
            simp there at bytes in
          (
            record {
              total = rw there (omega (arith, h.total, part));
              distinct = (apart, distinct);
            },
            rw (key_eq_refl key) refl,
          )
    ]

-- Removing a key keeps the account right, gives what was found under it, and leaves nothing there.
pub remove-IsAccounted :
    (index : Index) (key : EntryKey)
    → IsAccounted index
    → IsAccounted (remove index key).0
      × ((remove index key).1 ≡ entry_of key index.entries)
      × (entry_of key (remove index key).0.entries ≡ none)
unfolding remove
remove-IsAccounted index key h =
    let apart = entry_of-without key index.entries in
    let distinct = AreDistinct-without key index.entries h.distinct in
    let bytes = entry_bytes-without key index.entries h.distinct in
    elim (Option-cases (entry_of key index.entries)) [
      | inl fresh ↦ rw (remove, fresh) (h, refl, fresh)
      | inr (old, there) ↦
          let part : entry_bytes index.entries
              ≡ old.bytes + entry_bytes (without key index.entries) =
            simp there at bytes in
          rw (remove, there)
            (record { total = omega (arith, h.total, part); distinct = distinct }, refl, apart)
    ]

-- ===== src/PromptCache/Index/Tests.antt =====
-- Runs of the index and of eviction.
use inferq.Prelude.{◌≤◌, ◌≡◌, ◌⊎◌, refl, arith, true, false, none, some, [], ◌∷◌, ◌==◌, not}
use inferq.PromptCache.Index.{EntryKey, EntryMeta, Index, entry_of, insert, remove}
use inferq.PromptCache.Index.Accounts.{
  IsAccounted, insert-IsAccounted, remove-IsAccounted, entry_bytes, foreign_bytes,
}
use inferq.PromptCache.Evict.{evict, is_kept}
use inferq.PromptCache.Evict.Keep.{entry_of-evict}
use inferq.PromptCache.Evict.Budget.{evict-reaches_budget}

abbrev key_of_256 : EntryKey
key_of_256 = record { tokens = 256; hash = 7 }

abbrev key_of_512 : EntryKey
key_of_512 = record { tokens = 512; hash = 8 }

abbrev old_meta : EntryMeta
old_meta = record { path = 1; bytes = 100; used = 10 }

abbrev new_meta : EntryMeta
new_meta = record { path = 2; bytes = 300; used = 20 }

abbrev index : Index
index = record {
  entries = (key_of_256, old_meta) ∷ (key_of_512, new_meta) ∷ [];
  foreign = record { path = 3; bytes = 50; used = 30 } ∷ [];
  bytes = 450;
}

index-IsAccounted : IsAccounted index
unfolding entry_bytes foreign_bytes entry_of
index-IsAccounted = record { total = refl; distinct = (refl, (refl, tt)) }

insert-IsAccounted_example :
    IsAccounted (insert index key_of_256 new_meta)
    × (entry_of key_of_256 (insert index key_of_256 new_meta).entries ≡ some new_meta)
insert-IsAccounted_example =
    insert-IsAccounted index key_of_256 new_meta index-IsAccounted (omega arith)

remove-IsAccounted_example :
    IsAccounted (remove index key_of_512).0
    × ((remove index key_of_512).1 ≡ entry_of key_of_512 index.entries)
    × (entry_of key_of_512 (remove index key_of_512).0.entries ≡ none)
remove-IsAccounted_example = remove-IsAccounted index key_of_512 index-IsAccounted

least_recently_used_goes :
    evict (λ path. true) 350 none index
    ≡ record { entries = (key_of_512, new_meta) ∷ []; foreign = []; bytes = 300 }
unfolding evict remove
least_recently_used_goes = refl

entry_of-evict_example :
    entry_of key_of_256 (evict (λ path. true) 0 (some key_of_256) index).entries
    ≡ entry_of key_of_256 index.entries
entry_of-evict_example = entry_of-evict (λ path. true) 0 key_of_256 index

found_there : entry_of key_of_256 index.entries ≡ some old_meta
unfolding entry_of
found_there = refl

spared : is_kept none key_of_256 ≡ false
unfolding is_kept
spared = refl

evict-reaches_budget_example :
    ((evict (λ path. not (path == 2)) 350 none index).bytes ≤ 350)
    ⊎ (entry_of key_of_256 (evict (λ path. not (path == 2)) 350 none index).entries ≡ none)
evict-reaches_budget_example =
    evict-reaches_budget (λ path. not (path == 2)) 350 none index key_of_256 old_meta found_there
      spared refl

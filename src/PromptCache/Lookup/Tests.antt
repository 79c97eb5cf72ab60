-- ===== src/PromptCache/Lookup/Tests.antt =====
-- Runs of the lookup, with a number for an image.
use inferq.Prelude.{ℕ, ◌≡◌, refl, Option, some, List, [], ◌∷◌, if◌then◌else◌, ◌==◌}
use inferq.Ngram.{Token}
use inferq.PromptCache.{PromptCacheConfig, boundaries}
use inferq.PromptCache.Index.{key_of, entry_path, remove}
use inferq.PromptCache.Lookup.{Cache, lookup}
use inferq.PromptCache.Lookup.Prefix.{IsPrefixImage, lookup-IsPrefixImage}

abbrev config : PromptCacheConfig
config = record { budget_bytes = 1000; block_tokens = 2; min_tokens = 2 }

-- One file holds the first two tokens of the request, and one claims to hold the first four.
abbrev read_header : ℕ → Option (List Token)
read_header path = if path == 1 then some (5 ∷ 6 ∷ []) else some (5 ∷ 6 ∷ 7 ∷ 9 ∷ [])

abbrev read : ℕ → Option ℕ
read path = some path

abbrev request : List Token
request = 5 ∷ 6 ∷ 7 ∷ 8 ∷ 9 ∷ []

abbrev cache : Cache
cache = record {
  index = record {
    entries =
        (key_of (5 ∷ 6 ∷ []), record { path = 1; bytes = 10; used = 0 })
        ∷ (key_of (5 ∷ 6 ∷ 7 ∷ 8 ∷ []), record { path = 2; bytes = 20; used = 0 })
        ∷ [];
    foreign = [];
    bytes = 30;
  };
  stats = record { hits = 0; misses = 0; reused_tokens = 0; failures = 0 };
}

shorter_is_found : (lookup read_header read 99 config request 0 cache).0 ≡ some 1
unfolding lookup boundaries key_of entry_path remove
shorter_is_found = refl

lookup-IsPrefixImage_example : IsPrefixImage read_header read 99 request 0 1
lookup-IsPrefixImage_example =
    lookup-IsPrefixImage read_header read 99 config request 0 cache 1 shorter_is_found

-- ===== src/PromptCache/Lookup.antt =====
-- `lookup` of src/prompt_cache/mod.rs: the longest cached prefix of a request. What reading a file
-- gives is an argument: the token ids of its header, and its image, each none where it fails.
pub mod Prefix
mod Tests
use inferq.Prelude.{
  ℕ, ◌+◌, Bool, true, false, Option, none, some, List, [], ◌∷◌, length, take, ltb, leb,
  if◌then◌else◌,
}
use inferq.Ngram.{Token, tokens_eq}
use inferq.PromptCache.{PromptCacheConfig, boundaries}
use inferq.PromptCache.Index.{EntryKey, Index, key_of, remove, entry_path, touch}

-- The counters that a lookup moves.
pub record Stats : Type 0 where
  pub hits : ℕ
  pub misses : ℕ
  pub reused_tokens : ℕ
  pub failures : ℕ

pub record Cache : Type 0 where
  pub index : Index
  pub stats : Stats

-- `discard`, but for the file.
unfoldable pub discard : Cache → EntryKey → Cache
discard cache key =
    let stats = cache.stats in
    record cache {
      index = (remove cache.index key).0;
      stats = record stats { failures = stats.failures + 1 };
    }

unfoldable pub hit : Cache → EntryKey → ℕ → ℕ → Cache
hit cache key now boundary =
    let stats = cache.stats in
    record cache {
      index = touch cache.index key now;
      stats = record stats {
        hits = stats.hits + 1;
        reused_tokens = stats.reused_tokens + boundary;
      };
    }

unfoldable pub miss : Cache → Cache
miss cache =
    let stats = cache.stats in record cache { stats = record stats { misses = stats.misses + 1 } }

-- What a boundary comes to.
pub data Outcome (Image : Type 0) : Type 0 where
  skipped refused : Outcome Image
  loaded : Image → Outcome Image

module _ {Image : Type 0} (read_header : ℕ → Option (List Token)) (read : ℕ → Option Image)
    (now : ℕ) where
  unfoldable pub try_path : List Token → ℕ → Outcome Image
  unfolding tokens_eq
  try_path prefix path = elim (read_header path) [
    | none ↦ refused
    | some stored ↦
        if tokens_eq stored prefix
        then elim (read path) [ none ↦ refused | some image ↦ loaded image ]
        else refused
  ]

  unfoldable pub try_entry : List Token → Index → Outcome Image
  unfolding try_path key_of
  try_entry prefix index = elim (entry_path index (key_of prefix)) [
    | none ↦ skipped
    | some path ↦ try_path prefix path
  ]

  -- The loop over the boundaries that are left.
  unfoldable pub lookup_from : List Token → ℕ → List ℕ → Cache → Option Image × Cache
  unfolding try_entry discard hit miss
  lookup_from tokens above [] cache = (none, miss cache)
  lookup_from tokens above (boundary ∷ rest) cache =
      let key = key_of (take boundary tokens) in
      if leb boundary above
      then (none, miss cache)
      else elim (try_entry (take boundary tokens) cache.index) [
        | skipped ↦ lookup_from tokens above rest cache
        | refused ↦ lookup_from tokens above rest (discard cache key)
        | loaded image ↦ (some image, hit cache key now boundary)
      ]

  unfoldable pub lookup : PromptCacheConfig → List Token → ℕ → Cache → Option Image × Cache
  unfolding lookup_from
  lookup config tokens above cache =
      lookup_from tokens above (boundaries (length tokens) config.block_tokens config.min_tokens)
        cache

-- ===== src/PromptCache/Lookup/Prefix.antt =====
-- What `lookup` of src/prompt_cache/mod.rs may return.
use inferq.Prelude.{
  ℕ, ◌≡◌, ◌<◌, refl, arith, Option, some, List, [], ◌∷◌, length, take, leb, Bool-cases,
  Option-cases, inl, inr, ◌⊎◌, ap, ◌∙◌,
}
use mathlib.Core.Option.{none-ne-some}
use inferq.Ngram.{Token, tokens_eq}
use inferq.Ngram.Windows.{tokens_eq_iff}
use inferq.PromptCache.{PromptCacheConfig, boundaries}
use inferq.PromptCache.Index.{Index, key_of, entry_path}
use inferq.PromptCache.Lookup.{
  Cache, Outcome, skipped, refused, loaded, discard, try_path, try_entry, lookup_from, lookup,
}

module _ {Image : Type 0} (read_header : ℕ → Option (List Token)) (read : ℕ → Option Image)
    (now : ℕ) where
  -- An image was read from a file whose header holds a prefix of the request beyond `above`.
  pub record IsPrefixImage (tokens : List Token) (above : ℕ) (image : Image) : Type 0 where
    pub boundary : ℕ
    pub path : ℕ
    pub beyond : above < boundary
    pub stored : read_header path ≡ some (take boundary tokens)
    pub read_there : read path ≡ some image

  try_path-loaded :
      (prefix : List Token) (path : ℕ) (image : Image)
      → try_path read_header read now prefix path ≡ loaded image
      → (read_header path ≡ some prefix) × (read path ≡ some image)
  unfolding try_path
  try_path-loaded prefix path image h = elim (Option-cases (read_header path)) [
    | inl failed ↦ let both : refused ≡ loaded image = rw (try_path, failed) at h in cc
    | inr (stored, found) ↦ elim (Bool-cases (tokens_eq stored prefix)) [
      | inl same ↦
          let is : stored ≡ prefix = (tokens_eq_iff stored prefix).0 same in
          elim (Option-cases (read path)) [
            | inl broken ↦
                let both : refused ≡ loaded image = rw (try_path, found, same, broken) at h in cc
            | inr (got, there) ↦
                let both : loaded got ≡ loaded image = rw (try_path, found, same, there) at h in
                let image_is : got ≡ image = cc in
                (rw found (ap some is), rw there (ap some image_is))
          ]
      | inr other ↦ let both : refused ≡ loaded image = rw (try_path, found, other) at h in cc
    ]
  ]

  try_entry-loaded :
      (prefix : List Token) (index : Index) (image : Image)
      → try_entry read_header read now prefix index ≡ loaded image
      → (path : ℕ) × (read_header path ≡ some prefix) × (read path ≡ some image)
  unfolding try_entry
  try_entry-loaded prefix index image h = elim (Option-cases (entry_path index (key_of prefix))) [
    | inl absent ↦ let both : skipped ≡ loaded image = rw (try_entry, absent) at h in cc
    | inr (path, there) ↦
        let (header, body) = try_path-loaded prefix path image (rw (try_entry, there) at h) in
        (path, header, body)
  ]

  outcome_cases :
      (o : Outcome Image) → (o ≡ skipped) ⊎ ((o ≡ refused) ⊎ ((image : Image) × (o ≡ loaded image)))
  outcome_cases skipped = inl refl
  outcome_cases refused = inr (inl refl)
  outcome_cases (loaded image) = inr (inr (image, refl))

  lookup_from-IsPrefixImage :
      (tokens : List Token) (above : ℕ) (rest : List ℕ) (cache : Cache) (image : Image)
      → (lookup_from read_header read now tokens above rest cache).0 ≡ some image
      → IsPrefixImage tokens above image
  unfolding lookup_from
  lookup_from-IsPrefixImage tokens above [] cache image h = absurd (none-ne-some image h)
  lookup_from-IsPrefixImage tokens above (b ∷ rest) cache image h =
      elim (Bool-cases (leb b above)) [
        | inl reached ↦ absurd (none-ne-some image (rw reached at h))
        | inr beyond ↦
            elim (outcome_cases (try_entry read_header read now (take b tokens) cache.index)) [
              | inl skip ↦
                  lookup_from-IsPrefixImage tokens above rest cache image (rw (beyond, skip) at h)
              | inr (inl refuse) ↦
                  lookup_from-IsPrefixImage tokens above rest
                    (discard cache (key_of (take b tokens))) image (rw (beyond, refuse) at h)
              | inr (inr (got, load)) ↦
                  let both : some got ≡ some image = rw (beyond, load) at h in
                  let same : got ≡ image = cc in
                  let (path, header, body) =
                    try_entry-loaded (take b tokens) cache.index got load in
                  record {
                    boundary = b;
                    path = path;
                    beyond = ground arith;
                    stored = header;
                    read_there = body ∙ ap some same;
                  }
            ]
      ]

  -- Whatever the files and the hashes, an image that the lookup returns was read from a file whose
  -- header holds exactly the first tokens of the request, more of them than the caller has already.
  pub lookup-IsPrefixImage :
      (config : PromptCacheConfig) (tokens : List Token) (above : ℕ) (cache : Cache) (image : Image)
      → (lookup read_header read now config tokens above cache).0 ≡ some image
      → IsPrefixImage tokens above image
  unfolding lookup
  lookup-IsPrefixImage config tokens above cache image h =
      lookup_from-IsPrefixImage tokens above
        (boundaries (length tokens) config.block_tokens config.min_tokens) cache image h

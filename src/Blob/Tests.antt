-- ===== src/Blob/Tests.antt =====
-- The theorems on rfed/src/blob_store.rs at a store that is full.
use rfed.Base.{
  ◌≤◌, ◌≡◌, refl, ◌∙◌, ◌⊎◌, [], ◌∷◌, none, some, Bytes, bytes_dec, Bool, true, arith, max,
  ℕ_discrete,
}
use rfed.Dict
use rfed.Dict.{holds}
use rfed.Base.{◌^◌, ◌<◌, Option, List}
use rfed.Blob.Sizes.{sizes, Keyed}
use rfed.Blob.Open.{is_tmp, DestEntry, open_store, tree_bytes, last_of, tree_blobs}
use rfed.Blob.Started.{open_store-indexed}
use rfed.Blob.Index.{BlobPath, BlobStore, stored, store_with_id, get}
use rfed.Blob.Sizes.{IsValid}
use rfed.Blob.Storing.{answer, store_with_id-answer, store_with_id-IsValid, store_with_id-get}

abbrev full : BlobStore
full = record {
  index =
      (1 ∷ [], record { message_id = 1 ∷ []; destination_hash = 7 ∷ []; received = 5; size = 2 })
      ∷ [];
  storage_limit_bytes = 3;
  used_bytes = 2;
  last_eviction = 5;
  files = ((7 ∷ [], 1 ∷ []), 40 ∷ 41 ∷ []) ∷ [];
}

abbrev removes : BlobPath → Bool
removes path = true

full-IsValid : IsValid full
unfolding Dict.find
full-IsValid = record { distinct = (refl, tt); keyed = (refl, tt); used = refl }

store_with_id-answer_example :
    (store_with_id removes full (7 ∷ []) (2 ∷ []) (42 ∷ 43 ∷ []) 9 true).1
    ≡ answer full (7 ∷ []) (2 ∷ []) (42 ∷ 43 ∷ []) true
store_with_id-answer_example =
    store_with_id-answer removes full (7 ∷ []) (2 ∷ []) (42 ∷ 43 ∷ []) 9 true full-IsValid
      (omega arith)

store_with_id-IsValid_example :
    let r = (store_with_id removes full (7 ∷ []) (2 ∷ []) (42 ∷ 43 ∷ []) 9 true).0 in
    IsValid r
    × (r.used_bytes ≤ max 2 3)
    × (r.storage_limit_bytes ≡ 3)
    × ((j : Bytes) → (2 ∷ [] ≡ j) ⊎ ((get r j ≡ none) ⊎ (get r j ≡ get full j)))
store_with_id-IsValid_example =
    store_with_id-IsValid removes full (7 ∷ []) (2 ∷ []) (42 ∷ 43 ∷ []) 9 true full-IsValid
      (omega arith)

new_id : Dict.find bytes_dec (2 ∷ []) full.index ≡ none
unfolding Dict.find bytes_dec ℕ_discrete
new_id = refl

full-stored :
    (store_with_id removes full (7 ∷ []) (2 ∷ []) (42 ∷ 43 ∷ []) 9 true).1 ≡ stored (2 ∷ [])
unfolding Dict.find bytes_dec ℕ_discrete
full-stored = store_with_id-answer_example ∙ refl

store_with_id-get_example :
    get (store_with_id removes full (7 ∷ []) (2 ∷ []) (42 ∷ 43 ∷ []) 9 true).0 (2 ∷ [])
    ≡ some (42 ∷ 43 ∷ [])
store_with_id-get_example =
    store_with_id-get removes full (7 ∷ []) (2 ∷ []) (42 ∷ 43 ∷ []) 9 true full-IsValid
      (omega arith) new_id full-stored

abbrev dests : List DestEntry
dests =
    record {
      name = 55 ∷ [];
      messages =
          record { name = 49 ∷ []; size = 2; received = 5 }
          ∷ record { name = 50 ∷ 46 ∷ 116 ∷ 109 ∷ 112 ∷ []; size = 9; received = 5 }
          ∷ [];
    }
    ∷ []

abbrev decode_hex : Bytes → Option Bytes
decode_hex name = some name

dests-small : tree_bytes decode_hex dests < 2 ^ 64
unfolding is_tmp bytes_dec ℕ_discrete
dests-small = omega arith

open_store-indexed_example :
    let b = open_store decode_hex dests [] 100 in
    ((id : Bytes) → Dict.find bytes_dec id b.index ≡ last_of id (tree_blobs decode_hex dests) none)
    × Dict.Distinct bytes_dec b.index
    × Keyed b.index
    × (b.used_bytes ≡ tree_bytes decode_hex dests)
    × (sizes b.index ≤ b.used_bytes)
open_store-indexed_example = open_store-indexed decode_hex dests [] 100 dests-small

-- ===== src/Blob/Index.antt =====
-- `BlobStore` of rfed/src/blob_store.rs: its index, its limit, its evictions, and the files it keeps
-- by destination and message id. Times are whole seconds, and `received` is 0 where it is not known.
use rfed.Base.{
  ℕ, ◌+◌, ◌-◌, ◌%◌, ◌^◌, ◌*◌, List, [], ◌∷◌, Option, none, some, Bytes, bytes_dec, same, Bool, ◌&&◌,
  ◌||◌, ltb, leb, ◌==◌, if◌then◌else◌, length,
}
use rfed.Dict
use rfed.Dict.{Dict}

pub record BlobMeta : Type 0 where
  pub message_id : Bytes
  pub destination_hash : Bytes
  pub received : ℕ
  pub size : ℕ

-- A file's path: the destination's directory and the message id.
abbrev pub BlobPath : Type 0
BlobPath = Bytes × Bytes

unfoldable pub path_dec : Discrete BlobPath
path_dec = hlevel bytes_dec

pub record BlobStore : Type 0 where
  pub index : Dict Bytes BlobMeta
  pub storage_limit_bytes : ℕ
  pub used_bytes : ℕ
  pub last_eviction : ℕ
  pub files : Dict BlobPath Bytes

abbrev pub blob_ttl_secs : ℕ
blob_ttl_secs = 30 * 24 * 3600

abbrev pub evict_check_interval_secs : ℕ
evict_check_interval_secs = 3600

-- `+` on `u64`.
abbrev pub add64 : ℕ → ℕ → ℕ
add64 a b = (a + b) % 2 ^ 64

pub data StoreError : Type 0 where
  message_id_collision storage_limit_reached not_written : StoreError

pub data StoreResult : Type 0 where
  stored : Bytes → StoreResult
  failed : StoreError → StoreResult

abbrev pub expired : ℕ → BlobMeta → Bool
expired cutoff meta = ltb 0 meta.received && ltb meta.received cutoff

unfoldable pub expired_ids : ℕ → Dict Bytes BlobMeta → List Bytes
expired_ids cutoff [] = []
expired_ids cutoff ((id, meta) ∷ m) =
    let rest = expired_ids cutoff m in if expired cutoff meta then meta.message_id ∷ rest else rest

-- The comparison of `sort_by`, not greater: an unknown age counts as the newest.
abbrev pub no_newer : ℕ → ℕ → Bool
no_newer a b = if a == 0 then b == 0 else b == 0 || leb a b

abbrev pub insert_by_age : Bytes × ℕ → List (Bytes × ℕ) → List (Bytes × ℕ)
insert_by_age x [] = x ∷ []
insert_by_age x (y ∷ ys) = if no_newer x.1 y.1 then x ∷ y ∷ ys else y ∷ insert_by_age x ys

-- The ids with their ages, sorted stably.
unfoldable pub by_age : Dict Bytes BlobMeta → List (Bytes × ℕ)
by_age [] = []
by_age ((id, meta) ∷ m) = insert_by_age (meta.message_id, meta.received) (by_age m)

abbrev pub fits : BlobStore → ℕ → Bool
fits b needed = leb (add64 b.used_bytes needed) b.storage_limit_bytes

-- The directory, the temporary file and the rename, which succeed or do not.
unfoldable pub write_blob : BlobStore → Bytes → Bytes → Bytes → ℕ → Bool → BlobStore × StoreResult
unfolding path_dec
write_blob b destination id blob now wrote =
    if wrote
    then (
      record b {
        files = Dict.put path_dec (destination, id) blob b.files;
        index =
            Dict.put bytes_dec id
              (record {
                message_id = id;
                destination_hash = destination;
                received = now;
                size = length blob;
              })
              b.index;
        used_bytes = add64 b.used_bytes (length blob);
      },
      stored id,
    )
    else (b, failed not_written)

-- Whether the file system removes a file that it is asked to; the store does not look.
module _ (removes : BlobPath → Bool) where
  unfoldable pub remove_file : BlobPath → Dict BlobPath Bytes → Dict BlobPath Bytes
  unfolding path_dec
  remove_file path files = if removes path then Dict.remove path_dec path files else files

  unfoldable pub delete : BlobStore → Bytes → BlobStore
  unfolding remove_file
  delete b id = elim (Dict.find bytes_dec id b.index) [
    | none ↦ b
    | some meta ↦ record b {
      index = Dict.remove bytes_dec id b.index;
      files = remove_file (meta.destination_hash, id) b.files;
      used_bytes = b.used_bytes - meta.size;
    }
  ]

  unfoldable pub delete_all : BlobStore → List Bytes → BlobStore
  unfolding delete
  delete_all b [] = b
  delete_all b (id ∷ ids) = delete_all (delete b id) ids

  unfoldable pub evict_older_than : BlobStore → ℕ → BlobStore × ℕ
  unfolding expired_ids delete_all
  evict_older_than b cutoff =
      let stale = expired_ids cutoff b.index in (delete_all b stale, length stale)

  unfoldable pub evict_loop : BlobStore → ℕ → List (Bytes × ℕ) → BlobStore
  unfolding delete
  evict_loop b needed [] = b
  evict_loop b needed ((id, age) ∷ entries) =
      let rest = evict_loop (delete b id) needed entries in if fits b needed then b else rest

  unfoldable pub evict_to_fit : BlobStore → ℕ → BlobStore
  unfolding by_age evict_loop
  evict_to_fit b needed = if fits b needed then b else evict_loop b needed (by_age b.index)

  -- The periodic eviction of a store at time `now`.
  unfoldable pub evict_periodically : BlobStore → ℕ → BlobStore
  unfolding evict_older_than
  evict_periodically b now =
      if ltb evict_check_interval_secs (now - b.last_eviction)
      then record ((evict_older_than b (now - blob_ttl_secs)).0) { last_eviction = now }
      else b

  unfoldable pub admit : BlobStore → Bytes → Bytes → Bytes → ℕ → Bool → BlobStore × StoreResult
  unfolding evict_periodically evict_to_fit write_blob
  admit b destination id blob now wrote =
      let room = evict_to_fit (evict_periodically b now) (length blob) in
      if fits room (length blob)
      then write_blob room destination id blob now wrote
      else (room, failed storage_limit_reached)

  unfoldable pub store_with_id :
      BlobStore → Bytes → Bytes → Bytes → ℕ → Bool → BlobStore × StoreResult
  unfolding admit
  store_with_id b destination id blob now wrote = elim (Dict.find bytes_dec id b.index) [
    | some existing ↦
        if same existing.destination_hash destination
        then (b, stored id)
        else (b, failed message_id_collision)
    | none ↦ admit b destination id blob now wrote
  ]

unfoldable pub get : BlobStore → Bytes → Option Bytes
unfolding path_dec
get b id = elim (Dict.find bytes_dec id b.index) [
  | none ↦ none
  | some meta ↦ Dict.find path_dec (meta.destination_hash, id) b.files
]

unfoldable pub message_ids_for_channel : Dict Bytes BlobMeta → Bytes → List Bytes
message_ids_for_channel [] channel = []
message_ids_for_channel ((id, meta) ∷ m) channel =
    let rest = message_ids_for_channel m channel in
    if same meta.destination_hash channel then meta.message_id ∷ rest else rest

-- ===== src/Sync/Ingest.antt =====
-- `ingest_message_get_response` of rfed/src/sync.rs. What `rmp_serde` reads in the response, whether
-- a file of the store is removed and whether one is written are parameters.
use rfed.Base.{
  ℕ, zero, suc, List, [], ◌∷◌, ◌++◌, Option, none, some, Bytes, bytes_dec, Bool, true, false, ltb,
  if◌then◌else◌, length, take, drop,
}
use rfed.Dict
use rfed.Blob.Index.{BlobPath, BlobStore, StoreResult, stored, failed, store_with_id}
use rfed.Sync.Wire.{Entry, from_be_bytes}

-- One record of the response and the bytes after it; none is the end of the loop or its `break`.
abbrev pub with_length : Bytes → ℕ → Bytes → Option (Entry × Bytes)
with_length bytes blob_len rest =
    if ltb (length rest) blob_len
    then none
    else some (
      record {
        channel_hash = take 16 bytes;
        message_id = take 16 (drop 16 bytes);
        blob = take blob_len rest;
      },
      drop blob_len rest,
    )

unfoldable pub next_entry : Bytes → Option (Entry × Bytes)
unfolding from_be_bytes
next_entry bytes =
    if ltb (length bytes) 36
    then none
    else with_length bytes (from_be_bytes (take 4 (drop 32 bytes))) (drop 36 bytes)

-- The store, what was ingested, and whether a store failed.
pub record Ingested : Type 0 where
  pub store : BlobStore
  pub ingested : List (Bytes × Bytes)
  pub is_broken : Bool

-- The result of one store.
unfoldable pub push_result : Ingested → Entry → BlobStore × StoreResult → Ingested
push_result s e (b, stored id) = record s {
  store = b;
  ingested = s.ingested ++ (e.channel_hash, e.blob) ∷ [];
}
push_result s e (b, failed error) = record s { store = b; is_broken = true }

abbrev pub unwrapped : (Bytes → Option Bytes) → Bytes → Bytes
unwrapped decode bytes = elim (decode bytes) [ none ↦ bytes | some raw ↦ raw ]

module _ (removes : BlobPath → Bool) (wrote : Bytes → Bool) (now : ℕ) where
  unfoldable pub ingest_entry : Ingested → Entry → Ingested
  unfolding push_result
  ingest_entry s e = elim (Dict.find bytes_dec e.message_id s.store.index) [
    | some known ↦ s
    | none ↦
        push_result s e (
          store_with_id removes s.store e.channel_hash e.message_id e.blob now (wrote e.message_id))
  ]

  -- The loop, on fuel; none is that it ran out.
  unfoldable pub ingest_loop : ℕ → Ingested → Bytes → Option Ingested
  unfolding next_entry ingest_entry
  ingest_loop zero s bytes = none
  ingest_loop (suc fuel) s bytes = elim (next_entry bytes) [
    | none ↦ some s
    | some (e, rest) ↦
        let next = ingest_entry s e in
        let more = ingest_loop fuel next rest in if next.is_broken then some next else more
  ]

  module _ (decode : Bytes → Option Bytes) where
    -- A record takes 36 bytes at least, so the loop makes no more rounds than there are bytes.
    unfoldable pub ingest_message_get_response : BlobStore → Bytes → Option Ingested
    unfolding ingest_loop
    ingest_message_get_response b bytes =
        ingest_loop (suc (length (unwrapped decode bytes)))
          (record { store = b; ingested = []; is_broken = false }) (unwrapped decode bytes)

-- ===== src/Sync/Pull.antt =====
-- A pull in rfed/src/sync.rs, from one node's store to another's: `handle_message_get` at one end,
-- `ingest_message_get_response` at the other.
use rfed.Base.{
  ℕ, ◌-◌, ◌^◌, ◌≤◌, ◌<◌, ◌≡◌, List, [], ◌∷◌, Option, some, Bytes, bytes_dec, Bool, false, length,
  arith, Option-cases, Bool-cases, ◌∙◌, inl, inr, min, All, ap, leb,
}
use rfed.Dict
use rfed.Blob.Index.{BlobMeta, BlobPath, BlobStore}
use rfed.Sync.Peers.{FedSync}
use rfed.Sync.Wire.{Entry}
use rfed.Sync.Serve.{handle_message_get}
use rfed.Sync.Ingest.{ingest_message_get_response}
use rfed.Sync.Caps.{SmallBlobs, sent_before}
use rfed.Sync.Budget.{
  Readable, held_entry, held_entries, within_budget, handle_message_get-within_budget,
}
use rfed.Sync.RoundTrip.{IsEntry, ingest_each, ingest-encode_all}

-- A store whose hashes have 16 bytes and whose blobs have fewer than 2 ^ 32, all readable.
pub record Servable (b : BlobStore) : Type 0 where
  pub small : SmallBlobs (2 ^ 32) b
  pub readable : Readable b
  pub hashes :
      (id : Bytes) (meta : BlobMeta)
      → Dict.find bytes_dec id b.index ≡ some meta
      → (length meta.destination_hash ≡ 16) × (length id ≡ 16)

held_entries-All :
    (b : BlobStore) (ids : List Bytes) → Servable b → All IsEntry (held_entries b ids)
unfolding held_entries held_entry
held_entries-All b [] v = tt
held_entries-All b (id ∷ ids) v =
    let rest = held_entries-All b ids v in
    elim (Option-cases (Dict.find bytes_dec id b.index)) [
      | inl absent ↦ rw (absent, held_entry) rest
      | inr (meta, found) ↦
          let (blob, read, size) = v.readable id meta found in
          let (to, name) = v.hashes id meta found in
          rw (found, held_entry, read)
            ((to, name, omega (arith, size, v.small id meta found)), rest)
    ]

within_budget-All : (n : ℕ) (es : List Entry) → All IsEntry es → All IsEntry (within_budget n es)
unfolding within_budget
within_budget-All n [] w = tt
within_budget-All n (e ∷ es) w = elim (Bool-cases (leb (length e.blob) n)) [
  | inl fits ↦ rw fits (w.0, within_budget-All (n - length e.blob) es w.1)
  | inr over ↦ rw over tt
]

module _ (removes : BlobPath → Bool) (wrote : Bytes → Bool) (now : ℕ) where
  -- Where the wrapper reads back what it wraps, the caps are under 2 ^ 63 bytes, the counter is within
  -- its cap and the serving store's hashes have 16 bytes and its blobs fewer than 2 ^ 32, all
  -- readable: what the asking node ingests of the response, whatever its own store holds, is the
  -- requested blobs that the serving store has, from the front of the request, as long as they come
  -- to no more than the caps leave, one after the other until one fails.
  pub pull :
      (encode : Bytes → Bytes) (decode : Bytes → Option Bytes) (f : FedSync)
      (server client : BlobStore) (ids : List Bytes) (then' : ℕ)
      → ((raw : Bytes) → decode (encode raw) ≡ some raw)
      → f.transfer_limit_bytes < 2 ^ 63
      → f.sync_limit_bytes < 2 ^ 63
      → f.sync_bytes_sent ≤ f.sync_limit_bytes
      → Servable server
      → ingest_message_get_response removes wrote now decode client
          (handle_message_get encode f server ids then').1
        ≡ some (
            ingest_each removes wrote now
              (record { store = client; ingested = []; is_broken = false })
              (within_budget
                (min f.transfer_limit_bytes (f.sync_limit_bytes - sent_before f then'))
                (held_entries server ids)))
  pull encode decode f server client ids then' reads t u within v =
      ap (ingest_message_get_response removes wrote now decode client)
        (handle_message_get-within_budget encode f server ids then' t u
          (λ id meta found. omega (arith, v.small id meta found)) v.readable within).0
      ∙ ingest-encode_all removes wrote now decode encode client _ reads
          (within_budget-All _ _ (held_entries-All server ids v))

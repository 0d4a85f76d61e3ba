-- ===== src/Sync/Taking.antt =====
-- Any response at all, well formed or not, is ingested, in rfed/src/sync.rs: the loop ends, and the
-- store stays within its bounds.
use rfed.Base.{
  length-drop, length-take_le, ℕ, zero, suc, ◌+◌, ◌^◌, ◌≤◌, ◌<◌, ◌≡◌, refl, [], Option, none, some,
  Bytes, bytes_dec, Bool, false, ltb, length, take, drop, arith, Option-cases, Bool-cases, ◌∙◌, inl,
  inr, max, sym, subst, ◌⊎◌,
}
use rfed.Dict
use rfed.Blob.Index.{BlobPath, BlobStore, StoreResult, stored, failed, store_with_id, get}
use rfed.Blob.Sizes.{IsValid}
use rfed.Blob.Storing.{store_with_id-IsValid}
use rfed.Sync.Wire.{Entry, from_be_bytes}
use rfed.Sync.Ingest.{
  next_entry, Ingested, push_result, ingest_entry, ingest_loop, unwrapped,
  ingest_message_get_response,
}
use rfed.Sync.RoundTrip.{ingest_loop-step}

-- A record takes 36 bytes and its blob.
next_entry-length :
    (bytes rest : Bytes) (e : Entry)
    → next_entry bytes ≡ some (e, rest)
    → 36 + length e.blob + length rest ≡ length bytes
unfolding next_entry
next_entry-length bytes rest e h = elim (Bool-cases (ltb (length bytes) 36)) [
  | inl short ↦ absurd (ground arith)
  | inr long ↦
      let n = from_be_bytes (take 4 (drop 32 bytes)) in
      elim (Bool-cases (ltb (length (drop 36 bytes)) n)) [
        | inl short ↦ absurd (ground arith)
        | inr enough ↦ ground (
          arith,
          length-drop 36 bytes (ground arith),
          length-drop n (drop 36 bytes) (ground arith),
          length-take_le n (drop 36 bytes) (ground arith),
        )
      ]
]

-- A store that is valid and within its bounds after `b`.
pub record Within (b r : BlobStore) : Type 0 where
  pub valid : IsValid r
  pub used : r.used_bytes ≤ max b.used_bytes b.storage_limit_bytes
  pub limit : r.storage_limit_bytes ≡ b.storage_limit_bytes

trans-Within : (b c d : BlobStore) → Within b c → Within c d → Within b d
trans-Within b c d v w = record {
  valid = w.valid;
  used = ground (arith, v.used, w.used, v.limit);
  limit = w.limit ∙ v.limit;
}

push_result-store :
    (s : Ingested) (e : Entry) (r : BlobStore × StoreResult) → (push_result s e r).store ≡ r.0
unfolding push_result
push_result-store s e (b, stored id) = refl
push_result-store s e (b, failed error) = refl

module _ (removes : BlobPath → Bool) (wrote : Bytes → Bool) (now : ℕ) where
  ingest_entry-Within :
      (s : Ingested) (e : Entry)
      → IsValid s.store
      → s.store.used_bytes + length e.blob < 2 ^ 64
      → Within s.store (ingest_entry removes wrote now s e).store
  unfolding ingest_entry
  ingest_entry-Within s e v small =
      elim (Option-cases (Dict.find bytes_dec e.message_id s.store.index)) [
        | inr (known, found) ↦
            rw (found, ingest_entry) (record { valid = v; used = omega arith; limit = refl })
        | inl absent ↦
            let r =
              store_with_id removes s.store e.channel_hash e.message_id e.blob now
                (wrote e.message_id) in
            rw (absent, ingest_entry)
              (subst (Within s.store) (sym (push_result-store s e r)) (
                kept (
                  store_with_id-IsValid removes s.store e.channel_hash e.message_id e.blob now
                    (wrote e.message_id) v small)))
      ]
    where
      kept :
          let r =
            (store_with_id removes s.store e.channel_hash e.message_id e.blob now
              (wrote e.message_id)).0 in
          IsValid r
            × (r.used_bytes ≤ max s.store.used_bytes s.store.storage_limit_bytes)
            × (r.storage_limit_bytes ≡ s.store.storage_limit_bytes)
            × ((j : Bytes) → (e.message_id ≡ j) ⊎ ((get r j ≡ none) ⊎ (get r j ≡ get s.store j)))
          → Within s.store r
      kept h = record { valid = h.0; used = h.1; limit = h.2 }

  ingest_loop-Within :
      (fuel : ℕ) (s : Ingested) (bytes : Bytes)
      → length bytes < fuel
      → IsValid s.store
      → max s.store.used_bytes s.store.storage_limit_bytes + length bytes < 2 ^ 64
      → (r : Ingested) × (ingest_loop removes wrote now fuel s bytes ≡ some r)
        × Within s.store r.store
  unfolding ingest_loop
  ingest_loop-Within zero s bytes f v small = absurd (omega (arith, f))
  ingest_loop-Within (suc fuel) s bytes f v small = elim (Option-cases (next_entry bytes)) [
    | inl over ↦
        rw (over, ingest_loop) (s, refl, record { valid = v; used = omega arith; limit = refl })
    | inr ((e, rest), more) ↦
        let size = next_entry-length bytes rest e more in
        let next = ingest_entry removes wrote now s e in
        let one = ingest_entry-Within s e v (omega (arith, small, size)) in
        rw (ingest_loop-step removes wrote now fuel s bytes rest e more)
          (elim (Bool-cases next.is_broken) [
            | inl broken ↦ rw broken (next, refl, one)
            | inr going ↦
                let (r, done, w) =
                  ingest_loop-Within fuel next rest (omega (arith, f, size)) one.valid
                    (ground (arith, small, size, one.used, one.limit)) in
                rw going (r, done, trans-Within s.store next.store r.store one w)
          ])
  ]

  -- Any response whatever, with or without the wrapper: short of 2 ^ 64 bytes, a valid store ingests
  -- it to an end, and is then valid, within its unchanged limit, or no further over it.
  pub ingest-Within :
      (decode : Bytes → Option Bytes) (b : BlobStore) (bytes : Bytes)
      → IsValid b
      → max b.used_bytes b.storage_limit_bytes + length (unwrapped decode bytes) < 2 ^ 64
      → (r : Ingested) × (ingest_message_get_response removes wrote now decode b bytes ≡ some r)
        × Within b r.store
  unfolding ingest_message_get_response
  ingest-Within decode b bytes v small =
      ingest_loop-Within (suc (length (unwrapped decode bytes)))
        (record { store = b; ingested = []; is_broken = false }) (unwrapped decode bytes)
        (omega arith) v small

-- ===== src/Blob/Storing.antt =====
-- `store_with_id` and `get` of rfed/src/blob_store.rs: what is stored, within which limit, and what
-- is read back.
use rfed.Base.{
  ℕ, ◌+◌, ◌^◌, ◌≤◌, ◌<◌, ◌≡◌, ◌≢◌, refl, sym, ◌∙◌, ◌⊎◌, inl, inr, none, some, Bytes, bytes_dec,
  same, Bool, true, leb, if◌then◌else◌, length, arith, Option-cases, Bool-cases, max,
}
use rfed.Dict
use rfed.Dict.{Dict, holds, sum_by}
use rfed.Blob.Index.{
  BlobMeta, BlobPath, path_dec, BlobStore, fits, evict_to_fit, evict_periodically,
  message_id_collision, storage_limit_reached, not_written, StoreResult, stored, failed, write_blob,
  admit, store_with_id, get,
}
use rfed.Blob.Sizes.{IsValid, put-IsValid}
use rfed.Blob.Room.{
  Evicted, trans-Evicted, ne_path, evict_to_fit-Evicted, evict_to_fit-fits,
  evict_periodically-Evicted,
}

-- What a store comes to, told without its evictions.
abbrev pub answer : BlobStore → Bytes → Bytes → Bytes → Bool → StoreResult
answer b destination id blob wrote = elim (Dict.find bytes_dec id b.index) [
  | some existing ↦
      if same existing.destination_hash destination then stored id else failed message_id_collision
  | none ↦
      if leb (length blob) b.storage_limit_bytes
      then (if wrote then stored id else failed not_written)
      else failed storage_limit_reached
]

module _ (removes : BlobPath → Bool) (b : BlobStore) (destination id blob : Bytes) (now : ℕ)
    (wrote : Bool) (v : IsValid b) (fits64 : b.used_bytes + length blob < 2 ^ 64) where
  abbrev room : BlobStore
  room = evict_to_fit removes (evict_periodically removes b now) (length blob)

  abbrev new_meta : BlobMeta
  new_meta = record {
    message_id = id;
    destination_hash = destination;
    received = now;
    size = length blob;
  }

  room-Evicted : Evicted b room
  room-Evicted =
      let p = evict_periodically-Evicted removes b now v in
      trans-Evicted b (evict_periodically removes b now) room p
        (evict_to_fit-Evicted removes (length blob) (evict_periodically removes b now) p.valid)

  room-fits : fits room (length blob) ≡ leb (length blob) b.storage_limit_bytes
  room-fits =
      let p = evict_periodically-Evicted removes b now v in
      let e = room-Evicted in
      elim (Bool-cases (leb (length blob) b.storage_limit_bytes)) [
        | inl small ↦
            evict_to_fit-fits removes (length blob) (evict_periodically removes b now) p.valid
              (ground (arith, p.limit)) (omega arith)
            ∙ sym small
        | inr large ↦ ground (arith, e.used, e.limit)
      ]

  -- From a valid store, and short of 2 ^ 64 bytes, a blob under a new id is stored whenever it is no
  -- larger than the limit and its file is written, whatever the store held; a known id is stored
  -- already for its own destination, and is a collision for another.
  pub store_with_id-answer :
      (store_with_id removes b destination id blob now wrote).1 ≡ answer b destination id blob wrote
  unfolding store_with_id admit write_blob
  store_with_id-answer = ground (arith, room-fits)

  written :
      Dict.find bytes_dec id b.index ≡ none
      → let r = write_blob room destination id blob now true in
        IsValid r.0
        × (r.0.used_bytes ≡ room.used_bytes + length blob)
        × (get r.0 id ≡ some blob)
        × ((j : Bytes) → id ≢ j → get r.0 j ≡ get room j)
  unfolding write_blob get
  written absent =
      let e = room-Evicted in
      (
        put-IsValid room id new_meta (Dict.put path_dec (destination, id) blob room.files) e.valid
            (ground (arith, e.fewer id)) refl (omega (arith, e.used)),
        ground (arith, e.used),
        ground (
          arith,
          Dict.find-put_self bytes_dec id new_meta room.index,
          Dict.find-put_self path_dec (destination, id) blob room.files,
        ),
        λ j ne. elim (Option-cases (Dict.find bytes_dec j room.index)) [
          | inl gone ↦ ground (arith, Dict.find-put_ne bytes_dec id j new_meta room.index)
          | inr (other, here) ↦ ground (
            arith,
            Dict.find-put_ne bytes_dec id j new_meta room.index,
            Dict.find-put_ne path_dec (destination, id) (other.destination_hash, j) blob room.files
                (ne_path _ _ ne),
          )
        ],
      )

  -- Either way of `write_blob`, or none.
  Keeps : BlobStore → Type 0
  Keeps r =
      IsValid r
      × (r.used_bytes ≤ max b.used_bytes b.storage_limit_bytes)
      × (r.storage_limit_bytes ≡ b.storage_limit_bytes)
      × ((j : Bytes) → (id ≡ j) ⊎ ((get r j ≡ none) ⊎ (get r j ≡ get b j)))

  room-Keeps : Keeps room
  unfolding Keeps
  room-Keeps =
      let e = room-Evicted in (e.valid, omega (arith, e.used), e.limit, λ j. inr (e.kept j))

  admit-Keeps :
      Dict.find bytes_dec id b.index ≡ none
      → Keeps (admit removes b destination id blob now wrote).0
  unfolding admit Keeps write_blob
  admit-Keeps absent = elim (Bool-cases (fits room (length blob))) [
    | inr over ↦ rw (over, admit) room-Keeps
    | inl enough ↦ elim (Bool-cases wrote) [
      | inr unwritten ↦ rw (enough, admit, unwritten, write_blob) room-Keeps
      | inl done ↦
          let w = written absent in
          let e = room-Evicted in
          rw (enough, admit, done)
            (w.0, ground (arith, w.1, e.used, e.limit), e.limit, λ j. other j)
    ]
  ]
    where
      other :
          (j : Bytes)
          → (id ≡ j)
            ⊎ ((get (write_blob room destination id blob now true).0 j ≡ none)
                ⊎ (get (write_blob room destination id blob now true).0 j ≡ get b j))
      other j = elim (bytes_dec id j) [
        | yes e ↦ inl e
        | no ne ↦ inr (ground (arith, (written absent).3 j ne, room-Evicted.kept j))
      ]

  -- From a valid store, and short of 2 ^ 64 bytes, a store leaves a valid store, whose `used_bytes`
  -- is the sum of its sizes; it is never brought over its limit, nor further over it; and every
  -- other blob reads as before or was evicted.
  pub store_with_id-IsValid :
      let r = (store_with_id removes b destination id blob now wrote).0 in
      IsValid r
      × (r.used_bytes ≤ max b.used_bytes b.storage_limit_bytes)
      × (r.storage_limit_bytes ≡ b.storage_limit_bytes)
      × ((j : Bytes) → (id ≡ j) ⊎ ((get r j ≡ none) ⊎ (get r j ≡ get b j)))
  unfolding store_with_id Keeps
  store_with_id-IsValid = elim (Option-cases (Dict.find bytes_dec id b.index)) [
    | inl absent ↦ rw (absent, store_with_id) (admit-Keeps absent)
    | inr (meta, found) ↦ elim (Bool-cases (same meta.destination_hash destination)) [
      | inl own ↦ rw (found, store_with_id, own) (v, omega arith, refl, λ j. inr (inr refl))
      | inr other ↦ rw (found, store_with_id, other) (v, omega arith, refl, λ j. inr (inr refl))
    ]
  ]

  -- From a valid store, and short of 2 ^ 64 bytes, a blob that was stored under a new id is read
  -- back as it was.
  pub store_with_id-get :
      Dict.find bytes_dec id b.index ≡ none
      → (store_with_id removes b destination id blob now wrote).1 ≡ stored id
      → get (store_with_id removes b destination id blob now wrote).0 id ≡ some blob
  unfolding store_with_id admit write_blob
  store_with_id-get absent done = elim (Bool-cases (fits room (length blob))) [
    | inr over ↦ absurd (ground arith)
    | inl enough ↦ elim (Bool-cases wrote) [
      | inr unwritten ↦ absurd (ground arith)
      | inl success ↦ rw (absent, store_with_id, admit, enough, success) (written absent).2
    ]
  ]

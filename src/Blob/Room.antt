-- ===== src/Blob/Room.antt =====
-- The evictions of rfed/src/blob_store.rs: the room they make, and what they leave alone.
use rfed.Base.{
  ℕ, ◌-◌, ◌^◌, ◌≤◌, ◌<◌, ◌≡◌, ◌≢◌, refl, ap, ◌∙◌, ◌⊎◌, inl, inr, List, [], ◌∷◌, map, none, Bytes,
  bytes_dec, mem, Bool, true, ltb, if◌then◌else◌, arith, Option-cases, Bool-cases,
}
use rfed.Dict
use rfed.Dict.{Dict, holds, sum_by}
use rfed.Blob.Index.{
  BlobPath, path_dec, BlobStore, remove_file, delete, delete_all, by_age, fits, evict_loop,
  evict_to_fit, evict_older_than, expired_ids, evict_periodically, evict_check_interval_secs,
  blob_ttl_secs, get,
}
use rfed.Blob.Sizes.{
  sizes, IsValid, sizes-nil, mem-by_age, delete-IsValid, delete-used, find-delete,
}

-- A store after evictions: valid, no fuller, with the same limit and no new blobs.
pub record Evicted (b r : BlobStore) : Type 0 where
  pub valid : IsValid r
  pub used : r.used_bytes ≤ b.used_bytes
  pub limit : r.storage_limit_bytes ≡ b.storage_limit_bytes
  pub fewer :
      (j : Bytes)
      → (Dict.find bytes_dec j r.index ≡ none)
        ⊎ (Dict.find bytes_dec j r.index ≡ Dict.find bytes_dec j b.index)
  pub kept : (j : Bytes) → (get r j ≡ none) ⊎ (get r j ≡ get b j)

pub itself-Evicted : (b : BlobStore) → IsValid b → Evicted b b
itself-Evicted b v = record {
  valid = v;
  used = omega arith;
  limit = refl;
  fewer = λ j. inr refl;
  kept = λ j. inr refl;
}

pub trans-Evicted : (b c d : BlobStore) → Evicted b c → Evicted c d → Evicted b d
trans-Evicted b c d e f = record {
  valid = f.valid;
  used = omega (arith, e.used, f.used);
  limit = f.limit ∙ e.limit;
  fewer = λ j. ground (arith, e.fewer j, f.fewer j);
  kept = λ j. ground (arith, e.kept j, f.kept j);
}

pub ne_path : (a b : BlobPath) → a.1 ≢ b.1 → a ≢ b
ne_path a b h e = h (ap (λ (x : BlobPath). x.1) e)

get-delete :
    (removes : BlobPath → Bool) (b : BlobStore) (id j : Bytes)
    → IsValid b
    → (get (delete removes b id) j ≡ none) ⊎ (get (delete removes b id) j ≡ get b j)
unfolding get delete remove_file
get-delete removes b id j v = elim (bytes_dec id j) [
  | yes e ↦ inl (ground (arith, find-delete removes b id j v.distinct))
  | no ne ↦ elim (Option-cases (Dict.find bytes_dec id b.index)) [
    | inl absent ↦ inr (ground arith)
    | inr (meta, found) ↦ inr (elim (Option-cases (Dict.find bytes_dec j b.index)) [
      | inl absent ↦ ground (arith, Dict.find-remove_ne bytes_dec id j b.index)
      | inr (other, here) ↦ ground (
        arith,
        Dict.find-remove_ne bytes_dec id j b.index,
        Dict.find-remove_ne path_dec (meta.destination_hash, id) (other.destination_hash, j) b.files
            (ne_path _ _ ne),
      )
    ])
  ]
]

delete-Evicted :
    (removes : BlobPath → Bool) (b : BlobStore) (id : Bytes)
    → IsValid b
    → Evicted b (delete removes b id)
delete-Evicted removes b id v =
    let one = delete-used removes b id in
    record {
      valid = delete-IsValid removes b id v;
      used = one.0;
      limit = one.1;
      fewer = λ j. ground (arith, find-delete removes b id j v.distinct);
      kept = λ j. get-delete removes b id j v;
    }

delete_all-Evicted :
    (removes : BlobPath → Bool) (ids : List Bytes) (b : BlobStore)
    → IsValid b
    → Evicted b (delete_all removes b ids)
unfolding delete_all
delete_all-Evicted removes [] b v = itself-Evicted b v
delete_all-Evicted removes (id ∷ ids) b v =
    let one = delete-Evicted removes b id v in
    trans-Evicted b (delete removes b id) _ one
      (delete_all-Evicted removes ids (delete removes b id) one.valid)

module _ (removes : BlobPath → Bool) (needed : ℕ) where
  evict_loop-Evicted :
      (entries : List (Bytes × ℕ)) (b : BlobStore)
      → IsValid b
      → Evicted b (evict_loop removes b needed entries)
  unfolding evict_loop
  evict_loop-Evicted [] b v = itself-Evicted b v
  evict_loop-Evicted ((id, age) ∷ entries) b v = elim (Bool-cases (fits b needed)) [
    | inl enough ↦ rw enough (itself-Evicted b v)
    | inr over ↦
        let one = delete-Evicted removes b id v in
        rw over (
          trans-Evicted b (delete removes b id) _ one
            (evict_loop-Evicted entries (delete removes b id) one.valid))
  ]

  -- Either the loop makes room, or it deletes every entry that it was given.
  evict_loop-fits :
      (entries : List (Bytes × ℕ)) (b : BlobStore)
      → IsValid b
      → let r = evict_loop removes b needed entries in
        (fits r needed ≡ true)
        ⊎ ((j : Bytes)
            → Dict.find bytes_dec j r.index
              ≡ (if mem j (map (λ e. e.0) entries) then none else Dict.find bytes_dec j b.index))
  unfolding evict_loop
  evict_loop-fits [] b v = inr (λ j. refl)
  evict_loop-fits ((id, age) ∷ entries) b v = elim (Bool-cases (fits b needed)) [
    | inl enough ↦ rw enough (inl enough)
    | inr over ↦
        let rest = evict_loop removes (delete removes b id) needed entries in
        rw over
          (elim (evict_loop-fits entries (delete removes b id) (delete-IsValid removes b id v)) [
            | inl enough ↦ inl enough
            | inr gone ↦ inr (λ j. ground (arith, gone j, find-delete removes b id j v.distinct))
          ])
  ]

  pub evict_to_fit-Evicted : (b : BlobStore) → IsValid b → Evicted b (evict_to_fit removes b needed)
  unfolding evict_to_fit
  evict_to_fit-Evicted b v = elim (Bool-cases (fits b needed)) [
    | inl enough ↦ rw enough (itself-Evicted b v)
    | inr over ↦ rw over (evict_loop-Evicted (by_age b.index) b v)
  ]

  -- The eviction makes room for whatever is no larger than the limit.
  pub evict_to_fit-fits :
      (b : BlobStore)
      → IsValid b
      → needed ≤ b.storage_limit_bytes
      → needed < 2 ^ 64
      → fits (evict_to_fit removes b needed) needed ≡ true
  unfolding evict_to_fit
  evict_to_fit-fits b v small fits64 = elim (Bool-cases (fits b needed)) [
    | inl enough ↦ rw enough enough
    | inr over ↦
        let r = evict_loop removes b needed (by_age b.index) in
        let e = evict_loop-Evicted (by_age b.index) b v in
        rw over (elim (evict_loop-fits (by_age b.index) b v) [
          | inl enough ↦ enough
          | inr gone ↦
              let empty : sizes r.index ≡ 0 = sizes-nil r.index (λ j. all_gone r gone j) in
              let unused : r.used_bytes ≡ 0 = e.valid.used ∙ empty in ground (arith, e.limit)
        ])
  ]
    where
      all_gone :
          (r : BlobStore)
          → ((j : Bytes)
              → Dict.find bytes_dec j r.index ≡ (
                  if mem j (map (λ x. x.0) (by_age b.index))
                  then none
                  else Dict.find bytes_dec j b.index))
          → (j : Bytes) → Dict.find bytes_dec j r.index ≡ none
      all_gone r gone j = elim (Option-cases (Dict.find bytes_dec j b.index)) [
        | inl absent ↦ ground (arith, gone j)
        | inr (meta, found) ↦
            ground (arith, gone j, mem-by_age b.index j (λ e. absurd (ground arith)) v.keyed)
      ]

pub evict_periodically-Evicted :
    (removes : BlobPath → Bool) (b : BlobStore) (now : ℕ)
    → IsValid b
    → Evicted b (evict_periodically removes b now)
unfolding evict_periodically evict_older_than get
evict_periodically-Evicted removes b now v =
    elim (Bool-cases (ltb evict_check_interval_secs (now - b.last_eviction))) [
      | inl due ↦
          let e = delete_all-Evicted removes (expired_ids (now - blob_ttl_secs) b.index) b v in
          rw due (record {
            valid = record {
              distinct = e.valid.distinct;
              keyed = e.valid.keyed;
              used = e.valid.used;
            };
            used = e.used;
            limit = e.limit;
            fewer = e.fewer;
            kept = e.kept;
          })
      | inr early ↦ rw early (itself-Evicted b v)
    ]

-- ===== src/Blob/Sizes.antt =====
-- The index of rfed/src/blob_store.rs against `used_bytes`, through deletions and evictions.
use rfed.Base.{
  ℕ, ◌+◌, ◌^◌, ◌≤◌, ◌<◌, ◌≡◌, ◌≢◌, if_neg, refl, ◌∙◌, inl, inr, List, [], ◌∷◌, map, none, Bytes,
  bytes_dec, same, mem, Bool, true, ◌||◌, if◌then◌else◌, arith, Option-cases,
}
use rfed.Dict
use rfed.Dict.{Dict, holds, sum_by}
use rfed.Blob.Index.{
  BlobMeta, BlobPath, BlobStore, add64, delete, delete_all, expired, expired_ids, evict_older_than,
  insert_by_age, by_age,
}

abbrev pub sizes : Dict Bytes BlobMeta → ℕ
sizes = sum_by (λ id meta. meta.size)

-- Each blob is indexed under its own message id.
abbrev pub Keyed : Dict Bytes BlobMeta → Type 0
Keyed [] = Unit
Keyed ((id, meta) ∷ m) = (meta.message_id ≡ id) × Keyed m

pub record IsValid (b : BlobStore) : Type 0 where
  pub distinct : Dict.Distinct bytes_dec b.index
  pub keyed : Keyed b.index
  pub used : b.used_bytes ≡ sizes b.index

pub put-Keyed :
    (id : Bytes) (meta : BlobMeta) (m : Dict Bytes BlobMeta)
    → meta.message_id ≡ id
    → Keyed m
    → Keyed (Dict.put bytes_dec id meta m)
unfolding Dict.put
put-Keyed id meta [] e k = (e, tt)
put-Keyed id meta ((j, x) ∷ m) e k = ground (arith, put-Keyed id meta m e k.1)

remove-Keyed : (id : Bytes) (m : Dict Bytes BlobMeta) → Keyed m → Keyed (Dict.remove bytes_dec id m)
unfolding Dict.remove
remove-Keyed id [] k = tt
remove-Keyed id ((j, x) ∷ m) k = ground (arith, remove-Keyed id m k.1)

pub sizes-nil :
    (m : Dict Bytes BlobMeta) → ((j : Bytes) → Dict.find bytes_dec j m ≡ none) → sizes m ≡ 0
unfolding Dict.find
sizes-nil [] h = refl
sizes-nil ((id, meta) ∷ m) h = absurd (ground (arith, h id))

pub put-IsValid :
    (b : BlobStore) (id : Bytes) (meta : BlobMeta) (files : Dict BlobPath Bytes)
    → IsValid b
    → Dict.find bytes_dec id b.index ≡ none
    → meta.message_id ≡ id
    → b.used_bytes + meta.size < 2 ^ 64
    → IsValid (record b {
      files = files;
      index = Dict.put bytes_dec id meta b.index;
      used_bytes = add64 b.used_bytes meta.size;
    })
put-IsValid b id meta files v absent e fits64 = record {
  distinct = Dict.put-Distinct bytes_dec id meta b.index v.distinct;
  keyed = put-Keyed id meta b.index e v.keyed;
  used =
      ground (
        arith,
        v.used,
        Dict.sum_by-put_new bytes_dec (λ id meta. meta.size) id meta b.index absent,
      );
}

mem-expired_ids :
    (cutoff : ℕ) (m : Dict Bytes BlobMeta) (j : Bytes)
    → Dict.Distinct bytes_dec m
    → Keyed m
    → mem j (expired_ids cutoff m) ≡ holds (expired cutoff) (Dict.find bytes_dec j m)
unfolding expired_ids Dict.find
mem-expired_ids cutoff [] j d k = refl
mem-expired_ids cutoff ((id, meta) ∷ m) j d k = ground (arith, mem-expired_ids cutoff m j d.1 k.1)

mem-insert_by_age :
    (x : Bytes × ℕ) (ys : List (Bytes × ℕ)) (j : Bytes)
    → mem j (map (λ y. y.0) (insert_by_age x ys)) ≡ (same x.0 j || mem j (map (λ y. y.0) ys))
mem-insert_by_age x [] j = refl
mem-insert_by_age x (y ∷ ys) j = ground (arith, mem-insert_by_age x ys j)

pub mem-by_age :
    (m : Dict Bytes BlobMeta) (j : Bytes)
    → Dict.find bytes_dec j m ≢ none
    → Keyed m
    → mem j (map (λ y. y.0) (by_age m)) ≡ true
unfolding by_age Dict.find
mem-by_age [] j h k = absurd (h refl)
mem-by_age ((id, meta) ∷ m) j h k =
    mem-insert_by_age (meta.message_id, meta.received) (by_age m) j ∙ (elim (bytes_dec id j) [
      | yes e ↦ ground arith
      | no ne ↦ ground (arith, mem-by_age m j (λ e. h (if_neg (bytes_dec id j) ne _ _ ∙ e)) k.1)
    ])

module _ (removes : BlobPath → Bool) where
  pub delete-IsValid : (b : BlobStore) (id : Bytes) → IsValid b → IsValid (delete removes b id)
  unfolding delete
  delete-IsValid b id v = elim (Option-cases (Dict.find bytes_dec id b.index)) [
    | inl absent ↦ rw (absent, delete) v
    | inr (meta, found) ↦
        rw (found, delete)
          (record {
            distinct = Dict.remove-Distinct bytes_dec id b.index v.distinct;
            keyed = remove-Keyed id b.index v.keyed;
            used = omega (
              arith,
              v.used,
              Dict.sum_by-remove bytes_dec (λ id meta. meta.size) id meta b.index found,
            );
          })
  ]

  pub delete-used :
      (b : BlobStore) (id : Bytes)
      → ((delete removes b id).used_bytes ≤ b.used_bytes)
        × ((delete removes b id).storage_limit_bytes ≡ b.storage_limit_bytes)
  unfolding delete
  delete-used b id = (ground arith, ground arith)

  pub find-delete :
      (b : BlobStore) (id j : Bytes)
      → Dict.Distinct bytes_dec b.index
      → Dict.find bytes_dec j (delete removes b id).index
        ≡ (if same id j then none else Dict.find bytes_dec j b.index)
  unfolding delete
  find-delete b id j d = ground (
    arith,
    Dict.find-remove_self bytes_dec id b.index d,
    Dict.find-remove_ne bytes_dec id j b.index,
  )

  pub delete_all-IsValid :
      (ids : List Bytes) (b : BlobStore) → IsValid b → IsValid (delete_all removes b ids)
  unfolding delete_all
  delete_all-IsValid [] b v = v
  delete_all-IsValid (id ∷ ids) b v =
      delete_all-IsValid ids (delete removes b id) (delete-IsValid b id v)

  pub delete_all-used :
      (ids : List Bytes) (b : BlobStore)
      → ((delete_all removes b ids).used_bytes ≤ b.used_bytes)
        × ((delete_all removes b ids).storage_limit_bytes ≡ b.storage_limit_bytes)
  unfolding delete_all
  delete_all-used [] b = (omega arith, refl)
  delete_all-used (id ∷ ids) b =
      let ih = delete_all-used ids (delete removes b id) in
      (omega (arith, ih.0, delete-used b id), ih.1 ∙ (delete-used b id).1)

  find-delete_all :
      (ids : List Bytes) (b : BlobStore) (j : Bytes)
      → IsValid b
      → Dict.find bytes_dec j (delete_all removes b ids).index
        ≡ (if mem j ids then none else Dict.find bytes_dec j b.index)
  unfolding delete_all
  find-delete_all [] b j v = refl
  find-delete_all (id ∷ ids) b j v = ground (
    arith,
    find-delete_all ids (delete removes b id) j (delete-IsValid b id v),
    find-delete b id j v.distinct,
  )

  -- From a valid store, a time eviction leaves a valid store without exactly the blobs whose age
  -- is known and that were received before the cutoff.
  evict_older_than-expired :
      (b : BlobStore) (cutoff : ℕ)
      → IsValid b
      → let r = (evict_older_than removes b cutoff).0 in
        IsValid r
        × ((j : Bytes)
            → Dict.find bytes_dec j r.index ≡ (
                if holds (expired cutoff) (Dict.find bytes_dec j b.index)
                then none
                else Dict.find bytes_dec j b.index))
  unfolding evict_older_than
  evict_older_than-expired b cutoff v = (
    delete_all-IsValid (expired_ids cutoff b.index) b v,
    λ j. ground (
      arith,
      find-delete_all (expired_ids cutoff b.index) b j v,
      mem-expired_ids cutoff b.index j v.distinct v.keyed,
    ),
  )

-- ===== src/Blob/Started.antt =====
-- What a start of the store in rfed/src/blob_store.rs indexes and counts.
use rfed.Base.{
  ℕ, ◌+◌, ◌^◌, ◌≤◌, ◌<◌, ◌≡◌, refl, inl, inr, List, [], ◌∷◌, ◌++◌, ite, ap, sym, ◌∙◌, Option, none,
  some, Bytes, bytes_dec, arith, Option-cases, Bool-cases, subst,
}
use rfed.Dict
use rfed.Dict.{Dict, sum_by}
use rfed.Blob.Index.{BlobMeta, BlobPath, BlobStore, add64}
use rfed.Blob.Sizes.{sizes, Keyed, put-Keyed}
use rfed.Blob.Open.{
  MsgEntry, DestEntry, is_tmp, last_of, index_message, index_messages, index_dests, open_store,
  entry_bytes, message_bytes, tree_bytes, message_blobs, tree_blobs,
}

last_of-append :
    (id : Bytes) (xs ys : List (Bytes × BlobMeta)) (before : Option BlobMeta)
    → last_of id (xs ++ ys) before ≡ last_of id ys (last_of id xs before)
last_of-append id [] ys before = refl
last_of-append id ((j, meta) ∷ xs) ys before =
    last_of-append id xs ys (ite (bytes_dec j id) (some meta) before)

module _ (decode_hex : Bytes → Option Bytes) where
  find-index_message :
      (id destination : Bytes) (b : BlobStore) (e : MsgEntry)
      → Dict.find bytes_dec id (index_message decode_hex destination b e).index
        ≡ last_of id
            (message_blobs decode_hex destination (e ∷ []))
            (Dict.find bytes_dec id b.index)
  unfolding index_message
  find-index_message id destination b e = elim (Bool-cases (is_tmp e.name)) [
    | inl tmp ↦ rw (tmp, index_message) refl
    | inr complete ↦ elim (Option-cases (decode_hex e.name)) [
      | inl unnamed ↦ rw (complete, index_message, unnamed) refl
      | inr (j, named) ↦
          rw (complete, index_message, named)
            (Dict.find-put bytes_dec j id
              (record {
                message_id = j;
                destination_hash = destination;
                received = e.received;
                size = e.size;
              })
              b.index)
    ]
  ]

  message_blobs-split :
      (destination : Bytes) (e : MsgEntry) (es : List MsgEntry)
      → message_blobs decode_hex destination (e ∷ es)
        ≡ message_blobs decode_hex destination (e ∷ []) ++ message_blobs decode_hex destination es
  message_blobs-split destination e es = elim (Bool-cases (is_tmp e.name)) [
    | inl tmp ↦ rw tmp refl
    | inr complete ↦ elim (Option-cases (decode_hex e.name)) [
      | inl unnamed ↦ rw (complete, unnamed) refl
      | inr (j, named) ↦ rw (complete, named) refl
    ]
  ]

  find-index_messages :
      (id destination : Bytes) (es : List MsgEntry) (b : BlobStore)
      → Dict.find bytes_dec id (index_messages decode_hex destination b es).index
        ≡ last_of id (message_blobs decode_hex destination es) (Dict.find bytes_dec id b.index)
  unfolding index_messages
  find-index_messages id destination [] b = refl
  find-index_messages id destination (e ∷ es) b =
      find-index_messages id destination es (index_message decode_hex destination b e)
      ∙ ap (last_of id (message_blobs decode_hex destination es))
          (find-index_message id destination b e)
      ∙ sym (
          last_of-append id (message_blobs decode_hex destination (e ∷ []))
            (message_blobs decode_hex destination es) (Dict.find bytes_dec id b.index))
      ∙ ap (λ (blobs : List (Bytes × BlobMeta)). last_of id blobs (Dict.find bytes_dec id b.index))
          (sym (message_blobs-split destination e es))

  find-index_dests :
      (id : Bytes) (ds : List DestEntry) (b : BlobStore)
      → Dict.find bytes_dec id (index_dests decode_hex b ds).index
        ≡ last_of id (tree_blobs decode_hex ds) (Dict.find bytes_dec id b.index)
  unfolding index_dests
  find-index_dests id [] b = refl
  find-index_dests id (d ∷ ds) b = next (decode_hex d.name) (find-index_dests id ds)
    where
      next :
          (named : Option Bytes)
          → ((c : BlobStore)
              → Dict.find bytes_dec id (index_dests decode_hex c ds).index
                ≡ last_of id (tree_blobs decode_hex ds) (Dict.find bytes_dec id c.index))
          → Dict.find bytes_dec id
              (elim named as (λ x. BlobStore) [
                | none ↦ index_dests decode_hex b ds
                | some destination ↦
                    index_dests decode_hex (index_messages decode_hex destination b d.messages) ds
              ]).index
            ≡ last_of id
                (elim named [
                  | none ↦ tree_blobs decode_hex ds
                  | some destination ↦
                      message_blobs decode_hex destination d.messages ++ tree_blobs decode_hex ds
                ])
                (Dict.find bytes_dec id b.index)
      next none later = later b
      next (some destination) later =
          later (index_messages decode_hex destination b d.messages)
          ∙ ap (last_of id (tree_blobs decode_hex ds))
              (find-index_messages id destination d.messages b)
          ∙ sym (
              last_of-append id (message_blobs decode_hex destination d.messages)
                (tree_blobs decode_hex ds) (Dict.find bytes_dec id b.index))

  -- What an index is with `total` bytes counted.
  record Counts (b : BlobStore) (total : ℕ) : Type 0 where
    distinct : Dict.Distinct bytes_dec b.index
    keyed : Keyed b.index
    used : b.used_bytes ≡ total
    covered : sizes b.index ≤ total

  put-Counts :
      (b : BlobStore) (id : Bytes) (meta : BlobMeta) (total : ℕ)
      → meta.message_id ≡ id
      → total + meta.size < 2 ^ 64
      → Counts b total
      → Counts
          (record b {
            used_bytes = add64 b.used_bytes meta.size;
            index = Dict.put bytes_dec id meta b.index;
          })
          (total + meta.size)
  put-Counts b id meta total e fits64 c = record {
    distinct = Dict.put-Distinct bytes_dec id meta b.index c.distinct;
    keyed = put-Keyed id meta b.index e c.keyed;
    used = ground (arith, c.used);
    covered = elim (Option-cases (Dict.find bytes_dec id b.index)) [
      | inl absent ↦ omega (
        arith,
        c.covered,
        Dict.sum_by-put_new bytes_dec (λ id meta. meta.size) id meta b.index absent,
      )
      | inr (old, found) ↦ omega (
        arith,
        c.covered,
        Dict.sum_by-put bytes_dec (λ id meta. meta.size) id meta old b.index found,
      )
    ];
  }

  recount : (b : BlobStore) (m n : ℕ) → m ≡ n → Counts b m → Counts b n
  recount b m n e c = subst (Counts b) e c

  index_message-Counts :
      (destination : Bytes) (b : BlobStore) (e : MsgEntry) (total : ℕ)
      → total + entry_bytes decode_hex e < 2 ^ 64
      → Counts b total
      → Counts (index_message decode_hex destination b e) (total + entry_bytes decode_hex e)
  unfolding index_message
  index_message-Counts destination b e total fits64 c = elim (Bool-cases (is_tmp e.name)) [
    | inl tmp ↦ rw (tmp, index_message) (recount b total (total + 0) (omega arith) c)
    | inr complete ↦ elim (Option-cases (decode_hex e.name)) [
      | inl unnamed ↦
          rw (complete, index_message, unnamed) (recount b total (total + 0) (omega arith) c)
      | inr (id, named) ↦
          rw (complete, index_message, named)
            (put-Counts b id
              (record {
                message_id = id;
                destination_hash = destination;
                received = e.received;
                size = e.size;
              })
              total refl (ground arith) c)
    ]
  ]

  index_messages-Counts :
      (destination : Bytes) (es : List MsgEntry) (b : BlobStore) (total : ℕ)
      → total + message_bytes decode_hex es < 2 ^ 64
      → Counts b total
      → Counts (index_messages decode_hex destination b es) (total + message_bytes decode_hex es)
  unfolding index_messages
  index_messages-Counts destination [] b total fits64 c =
      recount b total (total + 0) (omega arith) c
  index_messages-Counts destination (e ∷ es) b total fits64 c =
      recount _ (total + entry_bytes decode_hex e + message_bytes decode_hex es)
        (total + message_bytes decode_hex (e ∷ es)) (omega arith)
        (index_messages-Counts destination es (index_message decode_hex destination b e)
          (total + entry_bytes decode_hex e) (omega arith)
          (index_message-Counts destination b e total (omega arith) c))

  index_dests-Counts :
      (ds : List DestEntry) (b : BlobStore) (total : ℕ)
      → total + tree_bytes decode_hex ds < 2 ^ 64
      → Counts b total
      → Counts (index_dests decode_hex b ds) (total + tree_bytes decode_hex ds)
  unfolding index_dests
  index_dests-Counts [] b total fits64 c = recount b total (total + 0) (omega arith) c
  index_dests-Counts (d ∷ ds) b total fits64 c = elim (Option-cases (decode_hex d.name)) [
    | inl unnamed ↦
        rw (unnamed, index_dests)
          (recount _ (total + tree_bytes decode_hex ds) (total + (0 + tree_bytes decode_hex ds))
            (omega arith) (index_dests-Counts ds b total (ground arith) c))
    | inr (destination, named) ↦
        rw (named, index_dests)
          (recount _ (total + message_bytes decode_hex d.messages + tree_bytes decode_hex ds)
            (total + (message_bytes decode_hex d.messages + tree_bytes decode_hex ds)) (omega arith)
            (index_dests-Counts ds (index_messages decode_hex destination b d.messages)
              (total + message_bytes decode_hex d.messages) (ground arith)
              (index_messages-Counts destination d.messages b total (ground arith) c)))
  ]

  -- A start, from a tree of fewer than 2 ^ 64 bytes, has under each id exactly the last blob of the tree
  -- with that id, with its destination, time and size, and nothing under an id that no blob of the tree
  -- has; it counts the bytes of every complete blob in the tree and nothing else, and so no less than
  -- what it has indexed.
  pub open_store-indexed :
      (dests : List DestEntry) (files : Dict BlobPath Bytes) (limit : ℕ)
      → tree_bytes decode_hex dests < 2 ^ 64
      → let b = open_store decode_hex dests files limit in
        ((id : Bytes)
          → Dict.find bytes_dec id b.index ≡ last_of id (tree_blobs decode_hex dests) none)
        × Dict.Distinct bytes_dec b.index
        × Keyed b.index
        × (b.used_bytes ≡ tree_bytes decode_hex dests)
        × (sizes b.index ≤ b.used_bytes)
  unfolding open_store Dict.find
  open_store-indexed dests files limit fits64 =
      let c =
        index_dests-Counts dests
          (record {
            index = [];
            storage_limit_bytes = limit;
            used_bytes = 0;
            last_eviction = 0;
            files = files;
          })
          0 (omega (arith, fits64))
          (record { distinct = tt; keyed = tt; used = refl; covered = omega arith }) in
      (
        λ id. find-index_dests id dests (record {
          index = [];
          storage_limit_bytes = limit;
          used_bytes = 0;
          last_eviction = 0;
          files = files;
        }),
        c.distinct,
        c.keyed,
        omega (arith, c.used),
        omega (arith, c.covered, c.used),
      )

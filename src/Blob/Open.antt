-- ===== src/Blob/Open.antt =====
-- `open` and `rebuild_index` of rfed/src/blob_store.rs, on the directory tree that they find.
use rfed.Base.{
  ℕ, ◌+◌, ◌-◌, List, [], ◌∷◌, ◌++◌, ite, Option, none, some, Bytes, bytes_dec, same, Bool,
  if◌then◌else◌, leb, ◌&&◌, length, drop,
}
use rfed.Dict
use rfed.Dict.{Dict, sum_by}
use rfed.Blob.Index.{BlobMeta, BlobPath, BlobStore, add64}

-- A file in a destination's directory; size and time are 0 where they cannot be read.
pub record MsgEntry : Type 0 where
  pub name : Bytes
  pub size : ℕ
  pub received : ℕ

-- A directory, with its files if it can be read.
pub record DestEntry : Type 0 where
  pub name : Bytes
  pub messages : List MsgEntry

-- `ends_with(".tmp")`.
unfoldable pub is_tmp : Bytes → Bool
is_tmp name = leb 4 (length name) && same (drop (length name - 4) name) (46 ∷ 116 ∷ 109 ∷ 112 ∷ [])

-- What stands last under an id, or else what was there before.
abbrev pub last_of : Bytes → List (Bytes × BlobMeta) → Option BlobMeta → Option BlobMeta
last_of id [] before = before
last_of id ((j, meta) ∷ blobs) before = last_of id blobs (ite (bytes_dec j id) (some meta) before)

module _ (decode_hex : Bytes → Option Bytes) where
  -- A temporary file is removed, and was never one of the store's.
  unfoldable pub index_message : Bytes → BlobStore → MsgEntry → BlobStore
  unfolding is_tmp
  index_message destination b e = if is_tmp e.name then b else elim (decode_hex e.name) [
    | none ↦ b
    | some id ↦ record b {
      used_bytes = add64 b.used_bytes e.size;
      index =
          Dict.put bytes_dec id
            (record {
              message_id = id;
              destination_hash = destination;
              received = e.received;
              size = e.size;
            })
            b.index;
    }
  ]

  unfoldable pub index_messages : Bytes → BlobStore → List MsgEntry → BlobStore
  unfolding index_message
  index_messages destination b [] = b
  index_messages destination b (e ∷ es) =
      index_messages destination (index_message destination b e) es

  unfoldable pub index_dests : BlobStore → List DestEntry → BlobStore
  unfolding index_messages
  index_dests b [] = b
  index_dests b (d ∷ ds) = elim (decode_hex d.name) [
    | none ↦ index_dests b ds
    | some destination ↦ index_dests (index_messages destination b d.messages) ds
  ]

  unfoldable pub open_store : List DestEntry → Dict BlobPath Bytes → ℕ → BlobStore
  unfolding index_dests
  open_store dests files limit =
      index_dests
        (record {
          index = [];
          storage_limit_bytes = limit;
          used_bytes = 0;
          last_eviction = 0;
          files = files;
        })
        dests

  -- The bytes of the files that are blobs: in a directory named by a hash, named by a message id,
  -- and complete.
  abbrev pub entry_bytes : MsgEntry → ℕ
  entry_bytes e =
      if is_tmp e.name then 0 else elim (decode_hex e.name) [ none ↦ 0 | some id ↦ e.size ]

  abbrev pub message_bytes : List MsgEntry → ℕ
  message_bytes [] = 0
  message_bytes (e ∷ es) = entry_bytes e + message_bytes es

  abbrev pub tree_bytes : List DestEntry → ℕ
  tree_bytes [] = 0
  tree_bytes (d ∷ ds) =
      elim (decode_hex d.name) [ none ↦ 0 | some destination ↦ message_bytes d.messages ]
      + tree_bytes ds

  -- The blobs among these files, in order, each under its id.
  abbrev pub message_blobs : Bytes → List MsgEntry → List (Bytes × BlobMeta)
  message_blobs destination [] = []
  message_blobs destination (e ∷ es) =
      if is_tmp e.name then message_blobs destination es else elim (decode_hex e.name) [
        | none ↦ message_blobs destination es
        | some id ↦
            (
              id,
              record {
                message_id = id;
                destination_hash = destination;
                received = e.received;
                size = e.size;
              },
            )
            ∷ message_blobs destination es
      ]

  abbrev pub tree_blobs : List DestEntry → List (Bytes × BlobMeta)
  tree_blobs [] = []
  tree_blobs (d ∷ ds) = elim (decode_hex d.name) [
    | none ↦ tree_blobs ds
    | some destination ↦ message_blobs destination d.messages ++ tree_blobs ds
  ]

-- ===== src/Sync/Serve.antt =====
-- `handle_message_get` of rfed/src/sync.rs. What `rmp_serde` makes of the response is a parameter.
use rfed.Base.{
  ℕ, ◌-◌, List, [], ◌∷◌, ◌++◌, Option, none, some, Bytes, bytes_dec, ltb, leb, if◌then◌else◌,
}
use rfed.Dict
use rfed.Blob.Index.{BlobMeta, BlobStore, add64, get}
use rfed.Sync.Peers.{FedSync}
use rfed.Sync.Wire.{encode_entry}

abbrev pub sync_limit_period : ℕ
sync_limit_period = 3600

unfoldable pub reset_period : FedSync → ℕ → FedSync
reset_period f now =
    if leb sync_limit_period (now - f.sync_period_start)
    then record f { sync_bytes_sent = 0; sync_period_start = now }
    else f

-- `sync_bytes_sent`, `total_sent` and `out` in the loop.
pub record Sending : Type 0 where
  pub sync_bytes_sent : ℕ
  pub total_sent : ℕ
  pub out : Bytes

abbrev pub send : Sending → Bytes → BlobMeta → Bytes → Sending
send s id meta blob = record {
  sync_bytes_sent = add64 s.sync_bytes_sent meta.size;
  total_sent = add64 s.total_sent meta.size;
  out =
      s.out
      ++ encode_entry
          (record { channel_hash = meta.destination_hash; message_id = id; blob = blob });
}

module _ (transfer_limit sync_limit : ℕ) (b : BlobStore) where
  unfoldable pub send_blob : Sending → Bytes → BlobMeta → Option Sending
  unfolding encode_entry
  send_blob s id meta =
      if ltb transfer_limit (add64 s.total_sent meta.size)
      then none
      else if ltb sync_limit (add64 s.sync_bytes_sent meta.size)
      then none
      else elim (get b id) [ none ↦ some s | some blob ↦ some (send s id meta blob) ]

  -- One requested id; none is the `break`.
  unfoldable pub send_id : Sending → Bytes → Option Sending
  unfolding send_blob
  send_id s id = elim (Dict.find bytes_dec id b.index) [
    | none ↦ some s
    | some meta ↦ send_blob s id meta
  ]

  unfoldable pub send_loop : Sending → List Bytes → Sending
  unfolding send_id
  send_loop s [] = s
  send_loop s (id ∷ ids) = elim (send_id s id) [ none ↦ s | some next ↦ send_loop next ids ]

unfoldable pub send_all : FedSync → BlobStore → List Bytes → Sending
unfolding send_loop
send_all f b requested_ids =
    send_loop f.transfer_limit_bytes f.sync_limit_bytes b
      (record { sync_bytes_sent = f.sync_bytes_sent; total_sent = 0; out = [] }) requested_ids

module _ (encode : Bytes → Bytes) where
  unfoldable pub handle_message_get : FedSync → BlobStore → List Bytes → ℕ → FedSync × Bytes
  unfolding reset_period send_all
  handle_message_get f b requested_ids now =
      let reset = reset_period f now in
      let sent = send_all reset b requested_ids in
      (record reset { sync_bytes_sent = sent.sync_bytes_sent }, encode sent.out)

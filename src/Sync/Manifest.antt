-- ===== src/Sync/Manifest.antt =====
-- The manifests of rfed/src/sync.rs: what a node offers, and what it asks a peer for. The channels
-- with a subscriber and the distribution lists with a device are arguments.
use rfed.Base.{Bool, List, [], map, filter, Bytes, mem, not, is_empty, ◌&&◌, ◌||◌, if◌then◌else◌}
use rfed.Dict
use rfed.Blob.Index.{BlobMeta, BlobStore}
use rfed.Subscription.Table.{SubscriptionTable, subscribed_channel_hashes}

abbrev pub pair_of : BlobMeta → Bytes × Bytes
pair_of m = (m.destination_hash, m.message_id)

abbrev pub has_local : List Bytes → List Bytes → Bytes → Bool
has_local channels distros hash = mem hash channels || mem hash distros

unfoldable pub local_manifest : BlobStore → SubscriptionTable → List Bytes → List (Bytes × Bytes)
unfolding subscribed_channel_hashes
local_manifest b subs distros =
    let channels = subscribed_channel_hashes subs in
    if is_empty channels && is_empty distros
    then []
    else map pair_of
        (filter (λ m. has_local channels distros m.destination_hash) (Dict.values b.index))

unfoldable pub handle_offer : BlobStore → List Bytes → List (Bytes × Bytes)
handle_offer b offered_ids = map pair_of (Dict.values b.index)

unfoldable pub gap_from_peer :
    BlobStore → SubscriptionTable → List Bytes → List (Bytes × Bytes) → List Bytes
unfolding subscribed_channel_hashes
gap_from_peer b subs distros peer_pairs =
    let channels = subscribed_channel_hashes subs in
    map (λ pair. pair.1)
      (filter (λ pair. has_local channels distros pair.0 && not (mem pair.1 (Dict.keys b.index)))
        peer_pairs)

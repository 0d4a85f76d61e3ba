-- ===== src/Sync/Wanted.antt =====
-- What a node asks a peer for, in rfed/src/sync.rs.
use rfed.Base.{
  ◌≡◌, refl, List, [], ◌∷◌, map, filter, Option, none, some, Bytes, bytes_dec, Bool, true, false,
  mem, not, ◌&&◌, arith, is_empty, ◌∙◌, ap, sym, if◌then◌else◌,
}
use rfed.Dict
use rfed.Dict.{Dict, holds}
use rfed.Blob.Index.{BlobMeta, BlobStore}
use rfed.Blob.Sizes.{Keyed}
use rfed.Subscription.Table.{SubscriptionTable, subscribed_channel_hashes}
use rfed.Sync.Manifest.{pair_of, has_local, local_manifest, handle_offer, gap_from_peer}

mem-keys :
    (id : Bytes) (m : Dict Bytes BlobMeta)
    → mem id (Dict.keys m) ≡ holds (λ x. true) (Dict.find bytes_dec id m)
unfolding Dict.find
mem-keys id [] = refl
mem-keys id ((k, meta) ∷ m) = ground (arith, mem-keys id m)

-- From a manifest of blobs under their own ids, those that a test on the channel and a test on the
-- id select.
mem-wanted :
    (wants : Bytes → Bool) (lacks : Bytes → Bool) (id : Bytes) (m : Dict Bytes BlobMeta)
    → Keyed m
    → Dict.Distinct bytes_dec m
    → mem id (
        map
          (λ pair. pair.1)
          (filter (λ pair. wants pair.0 && lacks pair.1) (map pair_of (Dict.values m))))
      ≡ (lacks id && holds (λ x. wants x.destination_hash) (Dict.find bytes_dec id m))
unfolding Dict.find
mem-wanted wants lacks id [] k d = ground arith
mem-wanted wants lacks id ((key, meta) ∷ m) k d =
    ground (arith, mem-wanted wants lacks id m k.1 d.1, k.0)

mem-advertised :
    (wants : Bytes → Bool) (id : Bytes) (m : Dict Bytes BlobMeta)
    → Keyed m
    → Dict.Distinct bytes_dec m
    → mem id (
        map (λ pair. pair.1) (map pair_of (filter (λ x. wants x.destination_hash) (Dict.values m))))
      ≡ holds (λ x. wants x.destination_hash) (Dict.find bytes_dec id m)
unfolding Dict.find
mem-advertised wants id [] k d = refl
mem-advertised wants id ((key, meta) ∷ m) k d =
    ground (arith, mem-advertised wants id m k.1 d.1, k.0)

holds-false : (o : Option BlobMeta) → holds (λ x. false) o ≡ false
holds-false none = refl
holds-false (some x) = refl

-- The ids that a node advertises itself.
local_manifest-mem :
    (b : BlobStore) (subs : SubscriptionTable) (distros : List Bytes) (id : Bytes)
    → Keyed b.index
    → Dict.Distinct bytes_dec b.index
    → mem id (map (λ pair. pair.1) (local_manifest b subs distros))
      ≡ holds
          (λ x. has_local (subscribed_channel_hashes subs) distros x.destination_hash)
          (Dict.find bytes_dec id b.index)
unfolding local_manifest
local_manifest-mem b subs distros id k d = cases (subscribed_channel_hashes subs) distros
  where
    cases :
        (channels lists : List Bytes)
        → mem id (
            map
              (λ pair. pair.1)
              (if is_empty channels && is_empty lists
                then []
                else map pair_of (
                    filter
                      (λ m. has_local channels lists m.destination_hash)
                      (Dict.values b.index))))
          ≡ holds
              (λ x. has_local channels lists x.destination_hash)
              (Dict.find bytes_dec id b.index)
    cases [] [] = sym (holds-false (Dict.find bytes_dec id b.index))
    cases (c ∷ cs) lists = mem-advertised (has_local (c ∷ cs) lists) id b.index k d
    cases [] (l ∷ ls) = mem-advertised (has_local [] (l ∷ ls)) id b.index k d

-- With either node's blobs once each under their own ids: a node advertises exactly the blobs that it
-- holds and that are for a channel with a subscription at the node, a backup one included, or a
-- distribution list with a device there; and of what a peer offers, it asks exactly for the blobs that it does not hold
-- and that are for such a channel or list.
pub gap_from_peer-mem :
    (b peer : BlobStore) (subs : SubscriptionTable) (distros offered : List Bytes) (id : Bytes)
    → Keyed b.index
    → Dict.Distinct bytes_dec b.index
    → Keyed peer.index
    → Dict.Distinct bytes_dec peer.index
    → let is_wanted : Option BlobMeta → Bool =
        holds (λ x. has_local (subscribed_channel_hashes subs) distros x.destination_hash) in
      let own = Dict.find bytes_dec id b.index in
      let theirs = Dict.find bytes_dec id peer.index in
      (mem id (map (λ pair. pair.1) (local_manifest b subs distros)) ≡ is_wanted own)
      × (mem id (gap_from_peer b subs distros (handle_offer peer offered))
          ≡ (not (holds (λ x. true) own) && is_wanted theirs))
unfolding gap_from_peer handle_offer
gap_from_peer-mem b peer subs distros offered id k d l e = (
  local_manifest-mem b subs distros id k d,
  mem-wanted (has_local (subscribed_channel_hashes subs) distros)
        (λ j. not (mem j (Dict.keys b.index))) id peer.index l e
      ∙ ap
          (λ (x : Bool).
            not x
            && holds (λ x. has_local (subscribed_channel_hashes subs) distros x.destination_hash)
                (Dict.find bytes_dec id peer.index))
          (mem-keys id b.index),
)

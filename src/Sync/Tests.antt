-- ===== src/Sync/Tests.antt =====
-- The theorems on rfed/src/sync.rs at two nodes, one of which has a blob that the other wants.
use rfed.Base.{
  ℕ, ◌+◌, ◌-◌, ◌*◌, ◌^◌, ◌≤◌, ◌<◌, ◌≡◌, refl, List, [], ◌∷◌, map, Option, none, some, Bytes,
  bytes_dec, Bool, true, false, not, ◌&&◌, leb, length, arith, min, mem, ℕ_discrete, zero, suc, ◌≢◌,
  All, ap, sym, ◌∙◌, subst,
}
use rfed.Dict
use rfed.Dict.{holds}
use rfed.Blob.Index.{BlobMeta, BlobPath, path_dec, BlobStore, get}
use rfed.Blob.Sizes.{IsValid}
use rfed.Subscription.Table.{SubscriptionTable, subscribed_channel_hashes}
use rfed.Sync.Peers.{FedPeer, FedSync, is_local, tick, sync_err}
use rfed.Sync.Valid
use rfed.Sync.Valid.{InBounds}
use rfed.Sync.Attempts.{in_touch, sync_err-tick}
use rfed.Sync.Wire.{Entry}
use rfed.Sync.Serve.{handle_message_get}
use rfed.Sync.Ingest.{Ingested, ingest_message_get_response}
use rfed.Sync.Manifest.{has_local, local_manifest, handle_offer, gap_from_peer}
use rfed.Sync.Caps.{SmallBlobs, SizedBlobs, IsHeld, sent_before, handle_message_get-Caps}
use rfed.Sync.Budget.{Readable, held_entries, within_budget, handle_message_get-within_budget}
use rfed.Sync.RoundTrip.{encode_all, blob_bytes, ingest_each}
use rfed.Sync.Pull.{Servable, pull}
use rfed.Sync.Taking.{Within, ingest-Within}
use rfed.Sync.Wanted.{gap_from_peer-mem}

abbrev sixteen : ℕ → Bytes
sixteen n = n ∷ n ∷ n ∷ n ∷ n ∷ n ∷ n ∷ n ∷ n ∷ n ∷ n ∷ n ∷ n ∷ n ∷ n ∷ n ∷ []

abbrev peer : FedPeer
peer = record {
  destination_hash = sixteen 1;
  alive = true;
  last_heard = 5000;
  next_sync_attempt = 0;
  last_sync_attempt = 0;
  sync_backoff = 40;
  peering_cost = none;
  transfer_limit = none;
  sync_limit = none;
}

abbrev node : FedSync
node = record {
  peers = (sixteen 1, peer) ∷ [];
  max_peering_cost = 26;
  transfer_limit_bytes = 100;
  sync_limit_bytes = 1000;
  local_node_hash = some (sixteen 9);
  from_static_only = false;
  static_peers = sixteen 4 ∷ [];
  sync_bytes_sent = 30;
  sync_period_start = 1000;
}

-- The one entry of a map.
find-one :
    {V : Type 0} (k h : Bytes) (v w : V)
    → Dict.find bytes_dec h ((k, v) ∷ []) ≡ some w
    → (k ≡ h) × (v ≡ w)
unfolding Dict.find
find-one k h v w found = ground arith

find-one_none :
    {V : Type 0} (k h : Bytes) (v : V) → k ≢ h → Dict.find bytes_dec h ((k, v) ∷ []) ≡ none
unfolding Dict.find
find-one_none k h v other = ground arith

not_local : is_local node (sixteen 1) ≡ false
unfolding bytes_dec ℕ_discrete
not_local = refl

other_node : (h : Bytes) → is_local node h ≡ true → Dict.find bytes_dec h node.peers ≡ none
other_node h local =
    find-one_none (sixteen 1) h peer
      (λ e. absurd (true-ne-false (sym local ∙ sym (ap (is_local node) e) ∙ not_local)))
  where
    true-ne-false : true ≢ false
    true-ne-false e = ground arith

node-IsValid : Valid.IsValid node
unfolding Dict.find
node-IsValid = record {
  distinct = (refl, tt);
  are_peers = (record { keyed = refl; above = omega arith; below = omega arith }, tt);
  no_self = other_node;
}

not_own : is_local node (sixteen 4) ≡ false
unfolding bytes_dec ℕ_discrete
not_own = refl

known : Dict.find bytes_dec (sixteen 1) node.peers ≡ some peer
unfolding Dict.find bytes_dec ℕ_discrete
known = refl

in_touch_test : in_touch node 6100 peer ≡ true
unfolding bytes_dec ℕ_discrete
in_touch_test = refl

sync_err-tick_example :
    mem (sixteen 1) (tick (sync_err node (sixteen 1) 6000) 6100).1
    ≡ leb (6000 + min (40 * 2) 3600) 6100
sync_err-tick_example =
    sync_err-tick node (sixteen 1) peer 6000 6100 node-IsValid known refl in_touch_test

abbrev server : BlobStore
server = record {
  index =
      (
        sixteen 2,
        record { message_id = sixteen 2; destination_hash = sixteen 7; received = 5; size = 2 },
      )
      ∷ [];
  storage_limit_bytes = 300;
  used_bytes = 2;
  last_eviction = 5;
  files = ((sixteen 7, sixteen 2), 40 ∷ 41 ∷ []) ∷ [];
}

abbrev client : BlobStore
client = record {
  index = [];
  storage_limit_bytes = 300;
  used_bytes = 0;
  last_eviction = 5;
  files = [];
}

abbrev wrap : Bytes → Bytes
wrap raw = 0 ∷ raw

abbrev unwrap : Bytes → Option Bytes
unwrap [] = none
unwrap (x ∷ raw) = some raw

server-small : SmallBlobs (2 ^ 32) server
server-small id meta found =
    let (k, e) = find-one (sixteen 2) id _ meta found in
    subst (λ (m : BlobMeta). m.size < 2 ^ 32) e (omega arith)

server-read : get server (sixteen 2) ≡ some (40 ∷ 41 ∷ [])
unfolding get path_dec Dict.find bytes_dec ℕ_discrete
server-read = refl

server-Readable : Readable server
server-Readable id meta found =
    let (k, e) = find-one (sixteen 2) id _ meta found in
    (
      40 ∷ 41 ∷ [],
      subst (λ (x : Bytes). get server x ≡ some (40 ∷ 41 ∷ [])) k server-read,
      subst (λ (m : BlobMeta). m.size ≡ 2) e refl,
    )

server-Servable : Servable server
server-Servable = record {
  small = server-small;
  readable = server-Readable;
  hashes = λ id meta found. hashes id meta (find-one (sixteen 2) id _ meta found);
}
  where
    hashes :
        (id : Bytes) (meta : BlobMeta)
        → (sixteen 2 ≡ id)
          × (record { message_id = sixteen 2; destination_hash = sixteen 7; received = 5; size = 2 }
              ≡ meta)
        → (length meta.destination_hash ≡ 16) × (length id ≡ 16)
    hashes id meta (k, e) = (
      subst (λ (m : BlobMeta). length m.destination_hash ≡ 16) e refl,
      subst (λ (x : Bytes). length x ≡ 16) k refl,
    )

server-Sized : SizedBlobs server
server-Sized id meta blob found read =
    let (held, got, size) = server-Readable id meta found in
    size ∙ ap length (same_blob (sym got ∙ read))
  where
    same_blob : {x y : Bytes} → some x ≡ some y → x ≡ y
    same_blob e = ground arith

handle_message_get-Caps_example :
    let r = handle_message_get wrap node server (sixteen 2 ∷ []) 2000 in
    (carried : List Entry) × (r.1 ≡ wrap (encode_all carried))
    × All (IsHeld server) carried
    × (blob_bytes carried ≤ 100)
    × (r.0.sync_bytes_sent ≡ sent_before node 2000 + blob_bytes carried)
    × (r.0.sync_bytes_sent ≤ 1000)
    × (r.0.sync_limit_bytes ≡ 1000)
    × (r.0.transfer_limit_bytes ≡ 100)
handle_message_get-Caps_example =
    handle_message_get-Caps wrap node server (sixteen 2 ∷ []) 2000 (omega arith) (omega arith)
      (λ id meta found. omega (arith, server-small id meta found)) server-Sized (omega arith)

handle_message_get-within_budget_example :
    let before = sent_before node 2000 in
    let sent = within_budget (min 100 (1000 - before)) (held_entries server (sixteen 2 ∷ [])) in
    let r = handle_message_get wrap node server (sixteen 2 ∷ []) 2000 in
    (r.1 ≡ wrap (encode_all sent)) × (r.0.sync_bytes_sent ≡ before + blob_bytes sent)
handle_message_get-within_budget_example =
    handle_message_get-within_budget wrap node server (sixteen 2 ∷ []) 2000 (omega arith)
      (omega arith) (λ id meta found. omega (arith, server-small id meta found)) server-Readable
      (omega arith)

abbrev all_removed : BlobPath → Bool
all_removed path = true

abbrev all_written : Bytes → Bool
all_written id = true

pull_example :
    ingest_message_get_response all_removed all_written 9 unwrap client
      (handle_message_get wrap node server (sixteen 2 ∷ []) 2000).1
    ≡ some (
        ingest_each all_removed all_written 9
          (record { store = client; ingested = []; is_broken = false })
          (within_budget
            (min 100 (1000 - sent_before node 2000))
            (held_entries server (sixteen 2 ∷ []))))
pull_example =
    pull all_removed all_written 9 wrap unwrap node server client (sixteen 2 ∷ []) 2000
      (λ raw. refl) (omega arith) (omega arith) (omega arith) server-Servable

client-IsValid : IsValid client
client-IsValid = record { distinct = tt; keyed = tt; used = refl }

ingest-Within_example :
    (r : Ingested) × (ingest_message_get_response all_removed all_written 9 unwrap client
        (1 ∷ 2 ∷ 3 ∷ [])
      ≡ some r)
    × Within client r.store
ingest-Within_example =
    ingest-Within all_removed all_written 9 unwrap client (1 ∷ 2 ∷ 3 ∷ []) client-IsValid
      (omega arith)

abbrev subscriptions : SubscriptionTable
subscriptions = record {
  entries =
      record {
        subscriber_hash = sixteen 3;
        channel_hash = sixteen 7;
        added = 1;
        owner_node_hash = none;
        last_refreshed = 1;
      }
      ∷ [];
  db = some [];
}

gap_from_peer-mem_example :
    let is_wanted : Option BlobMeta → Bool =
      holds (λ x. has_local (subscribed_channel_hashes subscriptions) [] x.destination_hash) in
    let own = Dict.find bytes_dec (sixteen 2) client.index in
    let theirs = Dict.find bytes_dec (sixteen 2) server.index in
    (mem (sixteen 2) (map (λ pair. pair.1) (local_manifest client subscriptions []))
      ≡ is_wanted own)
    × (mem (sixteen 2) (gap_from_peer client subscriptions [] (handle_offer server []))
        ≡ (not (holds (λ x. true) own) && is_wanted theirs))
unfolding Dict.find
gap_from_peer-mem_example =
    gap_from_peer-mem client server subscriptions [] [] (sixteen 2) tt tt (refl, tt) (refl, tt)

-- A file of one peer at most.
abbrev bool_byte : Bool → ℕ
bool_byte true = 1
bool_byte false = 0

abbrev option_byte : Option ℕ → ℕ
option_byte none = 0
option_byte (some n) = suc n

abbrev byte_bool : ℕ → Bool
byte_bool zero = false
byte_bool (suc n) = true

abbrev byte_option : ℕ → Option ℕ
byte_option zero = none
byte_option (suc n) = some n

abbrev encode_peers : List FedPeer → Option Bytes
encode_peers (p ∷ []) = some (
    bool_byte p.alive
    ∷ p.last_heard
    ∷ p.next_sync_attempt
    ∷ p.last_sync_attempt
    ∷ p.sync_backoff
    ∷ option_byte p.peering_cost
    ∷ option_byte p.transfer_limit
    ∷ option_byte p.sync_limit
    ∷ p.destination_hash)
encode_peers _ = none

abbrev decode_peers : Bytes → Option (List FedPeer)
decode_peers (alive ∷ heard ∷ next ∷ last ∷ backoff ∷ cost ∷ transfer ∷ sync ∷ hash) = some (
    record {
      destination_hash = hash;
      alive = byte_bool alive;
      last_heard = heard;
      next_sync_attempt = next;
      last_sync_attempt = last;
      sync_backoff = backoff;
      peering_cost = byte_option cost;
      transfer_limit = byte_option transfer;
      sync_limit = byte_option sync;
    }
    ∷ [])
decode_peers _ = none

bool_back : (b : Bool) → byte_bool (bool_byte b) ≡ b
bool_back true = refl
bool_back false = refl

option_back : (o : Option ℕ) → byte_option (option_byte o) ≡ o
option_back none = refl
option_back (some n) = refl

decode_peers-encode_peers :
    (ps : List FedPeer) (bytes : Bytes)
    → encode_peers ps ≡ some bytes
    → decode_peers bytes ≡ some ps
decode_peers-encode_peers [] bytes h = ground arith
decode_peers-encode_peers (p ∷ []) bytes h = ground (
  arith,
  bool_back p.alive,
  option_back p.peering_cost,
  option_back p.transfer_limit,
  option_back p.sync_limit,
)
decode_peers-encode_peers (p ∷ q ∷ ps) bytes h = ground arith

abbrev state_file : Bytes
state_file = 1 ∷ 5000 ∷ 0 ∷ 0 ∷ 40 ∷ 0 ∷ 0 ∷ 0 ∷ sixteen 1

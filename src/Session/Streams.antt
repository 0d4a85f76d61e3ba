-- ===== src/Session/Streams.antt =====
-- `ChannelStreamRegistry`, `PropagationStreamRegistry` and `push_on_links` of
-- rfed/src/stream_registry.rs. A link handle is known by its link id.
use rfed.Base.{
  ℕ, suc, List, [], ◌∷◌, none, some, Bytes, bytes_dec, same, Bool, true, false, ◌&&◌, if◌then◌else◌,
  any, length,
}
use rfed.Dict
use rfed.Dict.{Dict}
use rfed.Session.Registry.{evict_others, remove_all, StreamDispatchResult}

-- What `send_with_receipt` comes to on a link; `packet` and `link_gone` are its errors.
pub data Sent : Type 0 where
  transmitted packet link_gone : Sent

pub record ChannelStreamSession : Type 0 where
  pub subscriber_hash : Bytes
  pub channel_hashes : List Bytes

pub record PropagationStreamSession : Type 0 where
  pub delivery_hash : Bytes

pub data RegisterResult : Type 0 where
  registered already_open : RegisterResult

-- The ids of the sessions that a push goes to.
unfoldable pub ids_of : {S : Type 0} → (S → Bool) → Dict Bytes S → List Bytes
ids_of wants [] = []
ids_of wants ((id, session) ∷ m) =
    let rest = ids_of wants m in if wants session then id ∷ rest else rest

module _ (is_alive : Bytes → Bool) (send : Bytes → Sent) where
  -- One link: whether it counts as sent, and whether its session is stale.
  unfoldable pub push_on_link : Bytes → ℕ × List Bytes → ℕ × List Bytes
  push_on_link id (sent, stale) =
      if is_alive id
      then elim (send id) [
        | transmitted ↦ (suc sent, stale)
        | packet ↦ (sent, stale)
        | link_gone ↦ (sent, id ∷ stale)
      ]
      else (sent, id ∷ stale)

  unfoldable pub push_on_links : List Bytes → ℕ × List Bytes
  unfolding push_on_link
  push_on_links [] = (0, [])
  push_on_links (id ∷ ids) = push_on_link id (push_on_links ids)

  module _ {S : Type 0} where
    unfoldable pub dispatch_stream : Dict Bytes S → (S → Bool) → Dict Bytes S × StreamDispatchResult
    unfolding push_on_links ids_of remove_all
    dispatch_stream m wants =
        let matches = ids_of wants m in
        let (sent, stale) = push_on_links matches in
        (remove_all stale m, record { matched = length matches; sent = sent })

  unfoldable pub dispatch_channel_stream :
      Dict Bytes ChannelStreamSession
      → Bytes
      → Bytes
      → Dict Bytes ChannelStreamSession × StreamDispatchResult
  unfolding dispatch_stream
  dispatch_channel_stream m subscriber channel = dispatch_stream m (λ session.
      same session.subscriber_hash subscriber
      && any (λ configured. same configured channel) session.channel_hashes)

  unfoldable pub dispatch_propagation_stream :
      Dict Bytes PropagationStreamSession
      → Bytes
      → Dict Bytes PropagationStreamSession × StreamDispatchResult
  unfolding dispatch_stream
  dispatch_propagation_stream m delivery =
      dispatch_stream m (λ session. same session.delivery_hash delivery)

unfoldable pub configure :
    Dict Bytes ChannelStreamSession → Bytes → Bytes → List Bytes → Dict Bytes ChannelStreamSession
configure m link subscriber channels =
    Dict.put bytes_dec link (record { subscriber_hash = subscriber; channel_hashes = channels })
      (evict_others m link (λ session. same session.subscriber_hash subscriber)).0

unfoldable pub register :
    Dict Bytes PropagationStreamSession
    → Bytes
    → Bytes
    → Dict Bytes PropagationStreamSession × RegisterResult
register m link delivery = elim (Dict.find bytes_dec link m) [
  | some open_session ↦ (m, already_open)
  | none ↦ (
    Dict.put bytes_dec link (record { delivery_hash = delivery })
        (evict_others m link (λ session. same session.delivery_hash delivery)).0,
    registered,
  )
]

-- `sessions.remove(link_id).is_some()`.
unfoldable pub remove_stream : {S : Type 0} → Dict Bytes S → Bytes → Dict Bytes S × Bool
remove_stream m link = elim (Dict.find bytes_dec link m) [
  | none ↦ (m, false)
  | some session ↦ (Dict.remove bytes_dec link m, true)
]

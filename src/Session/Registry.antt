-- ===== src/Session/Registry.antt =====
-- `LinkSessionRegistry` of rfed/src/link_session.rs. A link handle is known by its link id; whether
-- it is alive, and whether it takes a request, are the link's answers at the time.
use rfed.Base.{
  ℕ, suc, List, [], ◌∷◌, Option, none, some, Bytes, bytes_dec, same, sort, Bool, true, false, not,
  ◌&&◌, ◌||◌, if◌then◌else◌, any, length, ltb,
}
use rfed.Dict
use rfed.Dict.{Dict}

pub record LinkSession : Type 0 where
  pub subscriber_hash : Option Bytes
  pub channel_hashes : List Bytes
  pub delivery_hash : Option Bytes

abbrev pub Sessions : Type 0
Sessions = Dict Bytes LinkSession

unfoldable pub new : LinkSession
new = record { subscriber_hash = none; channel_hashes = []; delivery_hash = none }

abbrev pub is_some : Option Bytes → Bytes → Bool
is_some none a = false
is_some (some b) a = same b a

unfoldable pub wants_channel : Option Bytes → List Bytes → Bytes → Bytes → Bool
wants_channel bound_subscriber bound_channels subscriber channel =
    is_some bound_subscriber subscriber
    && any (λ configured. same configured channel) bound_channels

module _ {S : Type 0} where
  unfoldable pub evict_ids : Dict Bytes S → Bytes → (S → Bool) → List Bytes
  evict_ids [] keep predicate = []
  evict_ids ((id, session) ∷ m) keep predicate =
      let rest = evict_ids m keep predicate in
      if not (same id keep) && predicate session then id ∷ rest else rest

  unfoldable pub remove_all : List Bytes → Dict Bytes S → Dict Bytes S
  remove_all [] m = m
  remove_all (id ∷ ids) m = remove_all ids (Dict.remove bytes_dec id m)

  unfoldable pub evict_others : Dict Bytes S → Bytes → (S → Bool) → Dict Bytes S × List Bytes
  unfolding evict_ids remove_all sort
  evict_others m keep predicate =
      let evicted = sort (evict_ids m keep predicate) in (remove_all evicted m, evicted)

-- `entry(link_id).or_insert_with(|| LinkSession::new(link))`.
unfoldable pub session_of : Bytes → Sessions → LinkSession
session_of id m = elim (Dict.find bytes_dec id m) [ none ↦ new | some session ↦ session ]

unfoldable pub configure_channels : Sessions → Bytes → Bytes → List Bytes → Sessions × List Bytes
configure_channels m link subscriber channels =
    let (rest, replaced) =
      evict_others m link (λ session. is_some session.subscriber_hash subscriber) in
    (
      Dict.put bytes_dec link
          (record (session_of link rest) {
            subscriber_hash = some subscriber;
            channel_hashes = channels;
          })
          rest,
      replaced,
    )

unfoldable pub configure_delivery : Sessions → Bytes → Bytes → Sessions × List Bytes
configure_delivery m link delivery =
    let (rest, replaced) =
      evict_others m link (λ session. is_some session.delivery_hash delivery) in
    (
      Dict.put bytes_dec link (record (session_of link rest) { delivery_hash = some delivery })
          rest,
      replaced,
    )

unfoldable pub remove : Sessions → Bytes → Sessions × Bool
remove m link = elim (Dict.find bytes_dec link m) [
  | none ↦ (m, false)
  | some session ↦ (Dict.remove bytes_dec link m, true)
]

unfoldable pub has_channel_session : Sessions → Bytes → Bytes → Bool
unfolding wants_channel
has_channel_session [] subscriber channel = false
has_channel_session ((id, session) ∷ m) subscriber channel =
    wants_channel session.subscriber_hash session.channel_hashes subscriber channel
    || has_channel_session m subscriber channel

-- The ids of the sessions a push goes to.
unfoldable pub matching : (LinkSession → Bool) → Sessions → List Bytes
matching predicate [] = []
matching predicate ((id, session) ∷ m) =
    let rest = matching predicate m in if predicate session then id ∷ rest else rest

pub record StreamDispatchResult : Type 0 where
  pub matched : ℕ
  pub sent : ℕ

unfoldable pub had_sessions : StreamDispatchResult → Bool
had_sessions r = ltb 0 r.matched

unfoldable pub delivered : StreamDispatchResult → Bool
delivered r = ltb 0 r.sent

module _ (is_alive : Bytes → Bool) (push_request : Bytes → Bool) where
  -- The loop over the matches: how many were sent, and which links are stale.
  unfoldable pub push_all : List Bytes → ℕ × List Bytes
  push_all [] = (0, [])
  push_all (id ∷ ids) =
      let (sent, stale) = push_all ids in
      if is_alive id && push_request id then (suc sent, stale) else (sent, id ∷ stale)

  unfoldable pub dispatch : Sessions → List Bytes → Sessions × StreamDispatchResult
  unfolding push_all remove_all
  dispatch m matches =
      let (sent, stale) = push_all matches in
      (remove_all stale m, record { matched = length matches; sent = sent })

  unfoldable pub dispatch_channel : Sessions → Bytes → Bytes → Sessions × StreamDispatchResult
  unfolding matching wants_channel
  dispatch_channel m subscriber channel = dispatch m (
      matching
        (λ session. wants_channel session.subscriber_hash session.channel_hashes subscriber channel)
        m)

  unfoldable pub dispatch_lxmf : Sessions → Bytes → Sessions × StreamDispatchResult
  unfolding matching
  dispatch_lxmf m delivery =
      dispatch m (matching (λ session. is_some session.delivery_hash delivery) m)

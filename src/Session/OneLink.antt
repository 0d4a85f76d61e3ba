-- ===== src/Session/OneLink.antt =====
-- "Binding the link for push" (RFed-spec/Link.md) in rfed/src/link_session.rs: a subscriber hash, and
-- a delivery hash, is bound on one link.
use rfed.Base.{
  ◌≡◌, ◌≢◌, ◌⊎◌, refl, ap, List, Option, none, some, Bytes, bytes_dec, same_eq, Bool, true, false,
  arith, Option-cases, inl, inr,
}
use rfed.Dict
use rfed.Dict.{Dict}
use rfed.Session.Registry.{
  LinkSession, Sessions, new, is_some, evict_others, session_of, configure_channels,
  configure_delivery, remove_all, remove, dispatch, push_all, matching, wants_channel,
  dispatch_channel, dispatch_lxmf,
}
use rfed.Session.Evict.{
  find-evict_others, evict_others-Distinct, find-remove_all, remove_all-Distinct,
}

-- A hash is bound on one link, in one of a session's fields.
abbrev pub Unique : (LinkSession → Option Bytes) → Sessions → Type 0
Unique field m =
    (s j k : Bytes) (x y : LinkSession)
    → Dict.find bytes_dec j m ≡ some x
    → Dict.find bytes_dec k m ≡ some y
    → is_some (field x) s ≡ true
    → is_some (field y) s ≡ true
    → j ≡ k

pub record OneLink (m : Sessions) : Type 0 where
  pub distinct : Dict.Distinct bytes_dec m
  pub subscribers : Unique (λ x. x.subscriber_hash) m
  pub deliveries : Unique (λ x. x.delivery_hash) m

-- The sessions after a link was bound: its own, and of the others those that were not evicted.
module _ (m : Sessions) (link : Bytes) (predicate : LinkSession → Bool) (bound : LinkSession)
    (d : Dict.Distinct bytes_dec m) where
  abbrev rest : Sessions
  rest = (evict_others m link predicate).0

  find-bound :
      (j : Bytes) (x : LinkSession)
      → Dict.find bytes_dec j (Dict.put bytes_dec link bound rest) ≡ some x
      → ((j ≡ link) × (x ≡ bound))
        ⊎ ((j ≢ link) × (Dict.find bytes_dec j m ≡ some x) × (predicate x ≡ false))
  find-bound j x h =
      ground
        (arith, Dict.find-put bytes_dec link j bound rest, find-evict_others m link predicate j d)

  -- The link's own session is not evicted.
  session_of-rest : session_of link rest ≡ session_of link m
  unfolding session_of
  session_of-rest = ground (arith, find-evict_others m link predicate link d)

session_of-cases :
    (link : Bytes) (m : Sessions)
    → ((Dict.find bytes_dec link m ≡ none) × (session_of link m ≡ new))
      ⊎ ((Dict.find bytes_dec link m ≡ some (session_of link m)))
unfolding session_of
session_of-cases link m = ground arith

evicted-Unique :
    (field : LinkSession → Option Bytes) (m : Sessions) (link s : Bytes) (bound : LinkSession)
    → Dict.Distinct bytes_dec m
    → field bound ≡ some s
    → Unique field m
    → Unique field
        (Dict.put bytes_dec link bound (evict_others m link (λ x. is_some (field x) s)).0)
evicted-Unique field m link s bound d e unique t j k x y hj hk bj bk = ground (
  arith,
  find-bound m link (λ z. is_some (field z) s) bound d j x hj,
  find-bound m link (λ z. is_some (field z) s) bound d k y hk,
  same_eq s t,
  unique t j k x y,
)

kept-Unique :
    (field : LinkSession → Option Bytes) (m : Sessions) (link : Bytes)
    (predicate : LinkSession → Bool) (bound : LinkSession)
    → Dict.Distinct bytes_dec m
    → field new ≡ none
    → field bound ≡ field (session_of link m)
    → Unique field m
    → Unique field (Dict.put bytes_dec link bound (evict_others m link predicate).0)
kept-Unique field m link predicate bound d fresh e unique t j k x y hj hk bj bk = ground (
  arith,
  find-bound m link predicate bound d j x hj,
  find-bound m link predicate bound d k y hk,
  session_of-cases link m,
  unique t link k (session_of link m) y,
  unique t j link x (session_of link m),
  unique t j k x y,
)

configure-OneLink :
    (m : Sessions) (link hash : Bytes) (channels : List Bytes)
    → OneLink m
    → OneLink (configure_channels m link hash channels).0
      × OneLink (configure_delivery m link hash).0
unfolding configure_channels configure_delivery new
configure-OneLink m link hash channels v =
    let by_subscriber : LinkSession → Bool = λ x. is_some x.subscriber_hash hash in
    let by_delivery : LinkSession → Bool = λ x. is_some x.delivery_hash hash in
    let left = (evict_others m link by_subscriber).0 in
    let right = (evict_others m link by_delivery).0 in
    (
      record {
        distinct =
            Dict.put-Distinct bytes_dec link _ left
              (evict_others-Distinct m link by_subscriber v.distinct);
        subscribers =
            evicted-Unique (λ x. x.subscriber_hash) m link hash _ v.distinct refl v.subscribers;
        deliveries =
            kept-Unique (λ x. x.delivery_hash) m link by_subscriber _ v.distinct refl
              (ap (λ (x : LinkSession). x.delivery_hash)
                (session_of-rest m link by_subscriber new v.distinct))
              v.deliveries;
      },
      record {
        distinct =
            Dict.put-Distinct bytes_dec link _ right
              (evict_others-Distinct m link by_delivery v.distinct);
        subscribers =
            kept-Unique (λ x. x.subscriber_hash) m link by_delivery _ v.distinct refl
              (ap (λ (x : LinkSession). x.subscriber_hash)
                (session_of-rest m link by_delivery new v.distinct))
              v.subscribers;
        deliveries =
            evicted-Unique (λ x. x.delivery_hash) m link hash _ v.distinct refl v.deliveries;
      },
    )

fewer-OneLink :
    (m fewer : Sessions)
    → Dict.Distinct bytes_dec fewer
    → ((j : Bytes) (x : LinkSession)
        → Dict.find bytes_dec j fewer ≡ some x
        → Dict.find bytes_dec j m ≡ some x)
    → OneLink m
    → OneLink fewer
fewer-OneLink m fewer d sub v = record {
  distinct = d;
  subscribers = λ s j k x y hj hk. v.subscribers s j k x y (sub j x hj) (sub k y hk);
  deliveries = λ s j k x y hj hk. v.deliveries s j k x y (sub j x hj) (sub k y hk);
}

remove_all-OneLink : (ids : List Bytes) (m : Sessions) → OneLink m → OneLink (remove_all ids m)
remove_all-OneLink ids m v =
    fewer-OneLink m (remove_all ids m) (remove_all-Distinct ids m v.distinct)
      (λ j x h. ground (arith, find-remove_all ids m j v.distinct)) v

remove-OneLink : (m : Sessions) (link : Bytes) → OneLink m → OneLink (remove m link).0
unfolding remove
remove-OneLink m link v = elim (Option-cases (Dict.find bytes_dec link m)) [
  | inl absent ↦ rw (absent, remove) v
  | inr (session, found) ↦
      rw (found, remove)
        (fewer-OneLink m (Dict.remove bytes_dec link m)
          (Dict.remove-Distinct bytes_dec link m v.distinct)
          (λ j x h. ground (
            arith,
            Dict.find-remove_self bytes_dec link m v.distinct,
            Dict.find-remove_ne bytes_dec link j m,
          ))
          v)
]

dispatch-OneLink :
    (is_alive push_request : Bytes → Bool) (m : Sessions) (matches : List Bytes)
    → OneLink m
    → OneLink (dispatch is_alive push_request m matches).0
unfolding dispatch
dispatch-OneLink is_alive push_request m matches v =
    remove_all-OneLink (push_all is_alive push_request matches).1 m v

-- From sessions with each subscriber hash, and each delivery hash, bound on at most one link,
-- every operation keeps it so: the two that bind a link, its removal, and the two pushes, whatever
-- links are alive and whatever requests they take.
pub operations-OneLink :
    (is_alive push_request : Bytes → Bool) (m : Sessions) (link hash channel : Bytes)
    (channels : List Bytes)
    → OneLink m
    → OneLink (configure_channels m link hash channels).0
      × OneLink (configure_delivery m link hash).0
      × OneLink (remove m link).0
      × OneLink (dispatch_channel is_alive push_request m hash channel).0
      × OneLink (dispatch_lxmf is_alive push_request m hash).0
unfolding dispatch_channel dispatch_lxmf
operations-OneLink is_alive push_request m link hash channel channels v =
    let bound = configure-OneLink m link hash channels v in
    let wants : LinkSession → Bool =
      λ x. wants_channel x.subscriber_hash x.channel_hashes hash channel in
    (
      bound.0,
      bound.1,
      remove-OneLink m link v,
      dispatch-OneLink is_alive push_request m (matching wants m) v,
      dispatch-OneLink is_alive push_request m (matching (λ x. is_some x.delivery_hash hash) m) v,
    )

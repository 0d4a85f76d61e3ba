-- ===== src/Session/OneStream.antt =====
-- "Binding the link for push" (RFed-spec/Link.md) in rfed/src/stream_registry.rs: a subscriber hash,
-- and a delivery hash, has one stream link.
use rfed.Base.{
  ◌≤◌, ◌≡◌, refl, List, [], ◌∷◌, none, some, Bytes, bytes_dec, same, same_eq, mem, Bool, true,
  false, not, ◌&&◌, ◌||◌, if◌then◌else◌, any, length, arith, Option-cases, inl, inr,
}
use rfed.Dict
use rfed.Dict.{holds, Dict}
use rfed.Session.Registry.{evict_others, remove_all, delivered}
use rfed.Session.Evict.{
  find-evict_others, evict_others-Distinct, find-remove_all, remove_all-Distinct,
}
use rfed.Session.Streams.{
  Sent, transmitted, packet, link_gone, ChannelStreamSession, PropagationStreamSession, ids_of,
  push_on_link, push_on_links, dispatch_stream, dispatch_channel_stream,
  dispatch_propagation_stream, configure, register, remove_stream,
}

module _ {S : Type 0} (key : S → Bytes) where
  -- Two sessions with one hash are on one link.
  pub record OneStream (m : Dict Bytes S) : Type 0 where
    pub distinct : Dict.Distinct bytes_dec m
    pub unique :
        (j k : Bytes) (x y : S)
        → Dict.find bytes_dec j m ≡ some x
        → Dict.find bytes_dec k m ≡ some y
        → key x ≡ key y
        → j ≡ k

  bound-OneStream :
      (m : Dict Bytes S) (link : Bytes) (session : S)
      → OneStream m
      → OneStream (
          Dict.put bytes_dec link session (evict_others m link (λ x. same (key x) (key session))).0)
  bound-OneStream m link session v = record {
    distinct =
        Dict.put-Distinct bytes_dec link session rest
          (evict_others-Distinct m link (λ x. same (key x) (key session)) v.distinct);
    unique = λ j k x y hj hk e. ground (
      arith,
      Dict.find-put bytes_dec link j session rest,
      Dict.find-put bytes_dec link k session rest,
      find-evict_others m link (λ x. same (key x) (key session)) j v.distinct,
      find-evict_others m link (λ x. same (key x) (key session)) k v.distinct,
      v.unique j k x y,
    );
  }
    where
      rest : Dict Bytes S
      rest = (evict_others m link (λ x. same (key x) (key session))).0

  remove_all-OneStream :
      (ids : List Bytes) (m : Dict Bytes S) → OneStream m → OneStream (remove_all ids m)
  remove_all-OneStream ids m v = record {
    distinct = remove_all-Distinct ids m v.distinct;
    unique = λ j k x y hj hk e. ground (
      arith,
      find-remove_all ids m j v.distinct,
      find-remove_all ids m k v.distinct,
      v.unique j k x y,
    );
  }

  remove_stream-OneStream :
      (m : Dict Bytes S) (link : Bytes) → OneStream m → OneStream (remove_stream m link).0
  unfolding remove_stream remove_all
  remove_stream-OneStream m link v = elim (Option-cases (Dict.find bytes_dec link m)) [
    | inl absent ↦ rw (absent, remove_stream) v
    | inr (session, found) ↦ rw (found, remove_stream) (remove_all-OneStream (link ∷ []) m v)
  ]

register-OneStream :
    (p : Dict Bytes PropagationStreamSession) (link hash : Bytes)
    → OneStream (λ x. x.delivery_hash) p
    → OneStream (λ x. x.delivery_hash) (register p link hash).0
unfolding register
register-OneStream p link hash w = elim (Option-cases (Dict.find bytes_dec link p)) [
  | inl absent ↦
      rw (absent, register)
        (bound-OneStream (λ x. x.delivery_hash) p link (record { delivery_hash = hash }) w)
  | inr (session, found) ↦ rw (found, register) w
]

dispatch_stream-OneStream :
    {S : Type 0} (key : S → Bytes) (is_alive : Bytes → Bool) (send : Bytes → Sent)
    (m : Dict Bytes S) (wants : S → Bool)
    → OneStream key m
    → OneStream key (dispatch_stream is_alive send m wants).0
unfolding dispatch_stream
dispatch_stream-OneStream key is_alive send m wants v =
    remove_all-OneStream key (push_on_links is_alive send (ids_of wants m)).1 m v

-- From registries in which a hash is on one link, every operation of the two keeps it so: binding,
-- removal and a push, whatever links are alive and whatever the sends come to.
operations-OneStream :
    (is_alive : Bytes → Bool) (send : Bytes → Sent) (c : Dict Bytes ChannelStreamSession)
    (p : Dict Bytes PropagationStreamSession) (link hash channel : Bytes) (channels : List Bytes)
    → OneStream (λ x. x.subscriber_hash) c
    → OneStream (λ x. x.delivery_hash) p
    → OneStream (λ x. x.subscriber_hash) (configure c link hash channels)
      × OneStream (λ x. x.subscriber_hash) (remove_stream c link).0
      × OneStream (λ x. x.subscriber_hash) (dispatch_channel_stream is_alive send c hash channel).0
      × OneStream (λ x. x.delivery_hash) (register p link hash).0
      × OneStream (λ x. x.delivery_hash) (remove_stream p link).0
      × OneStream (λ x. x.delivery_hash) (dispatch_propagation_stream is_alive send p hash).0
unfolding configure dispatch_channel_stream dispatch_propagation_stream
operations-OneStream is_alive send c p link hash channel channels v w = (
  bound-OneStream (λ x. x.subscriber_hash) c link
      (record { subscriber_hash = hash; channel_hashes = channels }) v,
  remove_stream-OneStream (λ x. x.subscriber_hash) c link v,
  dispatch_stream-OneStream (λ x. x.subscriber_hash) is_alive send c
      (λ x. same x.subscriber_hash hash && any (λ y. same y channel) x.channel_hashes) v,
  register-OneStream p link hash w,
  remove_stream-OneStream (λ x. x.delivery_hash) p link w,
  dispatch_stream-OneStream (λ x. x.delivery_hash) is_alive send p (λ x. same x.delivery_hash hash)
      w,
)

module _ (is_alive : Bytes → Bool) (send : Bytes → Sent) where
  -- The link is gone, or said so when it was to send.
  abbrev pub is_stale_link : Bytes → Bool
  is_stale_link id =
      not (is_alive id)
      || elim (send id) [ transmitted ↦ false | packet ↦ false | link_gone ↦ true ]

  abbrev pub takes_packet : Bytes → Bool
  takes_packet id =
      is_alive id && elim (send id) [ transmitted ↦ true | packet ↦ false | link_gone ↦ false ]

  push_on_links-length : (ids : List Bytes) → (push_on_links is_alive send ids).0 ≤ length ids
  unfolding push_on_links push_on_link
  push_on_links-length [] = omega arith
  push_on_links-length (id ∷ ids) = ground (arith, push_on_links-length ids)

  mem-push_on_links :
      (ids : List Bytes) (j : Bytes)
      → mem j (push_on_links is_alive send ids).1 ≡ (mem j ids && is_stale_link j)
  unfolding push_on_links push_on_link
  mem-push_on_links [] j = refl
  mem-push_on_links (id ∷ ids) j = ground (arith, mem-push_on_links ids j, same_eq id j)

  push_on_links-none :
      (ids : List Bytes) (j : Bytes)
      → (push_on_links is_alive send ids).0 ≡ 0
      → (mem j ids && takes_packet j) ≡ false
  unfolding push_on_links push_on_link
  push_on_links-none [] j h = refl
  push_on_links-none (id ∷ ids) j h = ground (arith, push_on_links-none ids j, same_eq id j)

  module _ {S : Type 0} where
    mem-ids_of :
        (wants : S → Bool) (m : Dict Bytes S) (j : Bytes)
        → Dict.Distinct bytes_dec m
        → mem j (ids_of wants m) ≡ holds wants (Dict.find bytes_dec j m)
    unfolding ids_of Dict.find
    mem-ids_of wants [] j d = refl
    mem-ids_of wants ((id, x) ∷ m) j d = ground (arith, mem-ids_of wants m j d.1)

  -- Of sessions under distinct link ids, a channel stream push drops exactly those that wanted it
  -- and whose link is gone, so one whose packet could not go out stays; it reports no more sends
  -- than matches, and if it reports none, then no link that wanted the push took it.
  dispatch_channel_stream-stale :
      (m : Dict Bytes ChannelStreamSession) (subscriber channel : Bytes)
      → Dict.Distinct bytes_dec m
      → let r = dispatch_channel_stream is_alive send m subscriber channel in
        let wants : ChannelStreamSession → Bool =
          λ x. same x.subscriber_hash subscriber && any (λ c. same c channel) x.channel_hashes in
        ((j : Bytes)
          → Dict.find bytes_dec j r.0 ≡ (
              if holds wants (Dict.find bytes_dec j m) && is_stale_link j
              then none
              else Dict.find bytes_dec j m))
        × (r.1.sent ≤ r.1.matched)
        × ((j : Bytes)
            → (not (delivered r.1) && (holds wants (Dict.find bytes_dec j m) && takes_packet j))
              ≡ false)
  unfolding dispatch_channel_stream dispatch_stream delivered
  dispatch_channel_stream-stale m subscriber channel d =
      let wants : ChannelStreamSession → Bool =
        λ x. same x.subscriber_hash subscriber && any (λ c. same c channel) x.channel_hashes in
      let ids : List Bytes = ids_of wants m in
      (
        λ j. ground (
          arith,
          find-remove_all (push_on_links is_alive send ids).1 m j d,
          mem-push_on_links ids j,
          mem-ids_of wants m j d,
        ),
        push_on_links-length ids,
        λ j. ground (arith, push_on_links-none ids j, mem-ids_of wants m j d),
      )

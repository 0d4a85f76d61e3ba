-- ===== src/Session/Dispatch.antt =====
-- A push over the bound links of rfed/src/link_session.rs: who gets it, and which sessions go.
use rfed.Base.{
  ◌+◌, ◌≤◌, ◌≡◌, refl, List, [], ◌∷◌, none, Bytes, bytes_dec, same_eq, mem, Bool, true, false, not,
  ◌&&◌, if◌then◌else◌, arith, Bool-cases, ◌⊎◌, inl, inr, length,
}
use rfed.Dict
use rfed.Dict.{holds, Dict}
use rfed.Session.Registry.{
  LinkSession, Sessions, matching, wants_channel, push_all, dispatch, dispatch_channel, delivered,
}
use rfed.Session.Evict.{find-remove_all}

mem-matching :
    (predicate : LinkSession → Bool) (m : Sessions) (j : Bytes)
    → Dict.Distinct bytes_dec m
    → mem j (matching predicate m) ≡ holds predicate (Dict.find bytes_dec j m)
unfolding matching Dict.find
mem-matching predicate [] j d = refl
mem-matching predicate ((id, x) ∷ m) j d = ground (arith, mem-matching predicate m j d.1)

module _ (is_alive : Bytes → Bool) (push_request : Bytes → Bool) where
  abbrev pub takes : Bytes → Bool
  takes id = is_alive id && push_request id

  push_all-length :
      (ids : List Bytes)
      → (push_all is_alive push_request ids).0 + length (push_all is_alive push_request ids).1
        ≡ length ids
  unfolding push_all
  push_all-length [] = omega arith
  push_all-length (id ∷ ids) = ground (arith, push_all-length ids)

  mem-push_all :
      (ids : List Bytes) (j : Bytes)
      → mem j (push_all is_alive push_request ids).1 ≡ (mem j ids && not (takes j))
  unfolding push_all
  mem-push_all [] j = refl
  mem-push_all (id ∷ ids) j = ground (arith, mem-push_all ids j, same_eq id j)

  push_all-none :
      (ids : List Bytes) (j : Bytes)
      → (push_all is_alive push_request ids).0 ≡ 0
      → mem j ids ≡ true
      → takes j ≡ false
  unfolding push_all
  push_all-none [] j h i = absurd (ground arith)
  push_all-none (id ∷ ids) j h i = ground (arith, push_all-none ids j, same_eq id j)

  module _ (m : Sessions) (predicate : LinkSession → Bool) (d : Dict.Distinct bytes_dec m) where
    find-dispatch :
        (j : Bytes)
        → Dict.find bytes_dec j (dispatch is_alive push_request m (matching predicate m)).0 ≡ (
            if holds predicate (Dict.find bytes_dec j m) && not (takes j)
            then none
            else Dict.find bytes_dec j m)
    unfolding dispatch
    find-dispatch j = ground (
      arith,
      find-remove_all (push_all is_alive push_request (matching predicate m)).1 m j d,
      mem-push_all (matching predicate m) j,
      mem-matching predicate m j d,
    )

    dispatch-sent :
        (dispatch is_alive push_request m (matching predicate m)).1.sent
        ≤ (dispatch is_alive push_request m (matching predicate m)).1.matched
    unfolding dispatch
    dispatch-sent = omega (arith, push_all-length (matching predicate m))

    dispatch-undelivered :
        (j : Bytes)
        → delivered (dispatch is_alive push_request m (matching predicate m)).1 ≡ false
        → holds predicate
            (Dict.find bytes_dec j (dispatch is_alive push_request m (matching predicate m)).0)
          ≡ false
    unfolding delivered dispatch
    dispatch-undelivered j h = ground (
      arith,
      find-dispatch j,
      push_all-none (matching predicate m) j,
      mem-matching predicate m j d,
    )

  -- Of sessions under distinct link ids, a channel push removes exactly those that wanted it and
  -- whose link did not take it; it reports no more sends than matches; and if it reports none, no
  -- session that is left wants the channel.
  dispatch_channel-stale :
      (m : Sessions) (subscriber channel : Bytes)
      → Dict.Distinct bytes_dec m
      → let r = dispatch_channel is_alive push_request m subscriber channel in
        let wants : LinkSession → Bool =
          λ x. wants_channel x.subscriber_hash x.channel_hashes subscriber channel in
        ((j : Bytes)
          → Dict.find bytes_dec j r.0 ≡ (
              if holds wants (Dict.find bytes_dec j m) && not (takes j)
              then none
              else Dict.find bytes_dec j m))
        × (r.1.sent ≤ r.1.matched)
        × ((delivered r.1 ≡ true) ⊎ ((j : Bytes) → holds wants (Dict.find bytes_dec j r.0) ≡ false))
  unfolding dispatch_channel
  dispatch_channel-stale m subscriber channel d =
      let wants : LinkSession → Bool =
        λ x. wants_channel x.subscriber_hash x.channel_hashes subscriber channel in
      (
        find-dispatch m wants d,
        dispatch-sent m wants d,
        elim (Bool-cases (delivered (dispatch is_alive push_request m (matching wants m)).1)) [
          | inl some_sent ↦ inl some_sent
          | inr none_sent ↦ inr (λ j. dispatch-undelivered m wants d j none_sent)
        ],
      )

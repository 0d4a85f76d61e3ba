-- ===== src/Session/Tests.antt =====
-- The theorems on rfed/src/link_session.rs at two bound links.
use rfed.Base.{◌≡◌, [], ◌∷◌, none, Bytes, Bool, true, false, arith}
use rfed.Dict
use rfed.Dict.{holds}
use rfed.Base.{Option, some}
use rfed.Dict.{Dict}
use rfed.Session.Streams.{
  Sent, link_gone, ChannelStreamSession, PropagationStreamSession, configure, register,
}
use rfed.Session.OneStream.{OneStream}
use rfed.Session.Answers.{gated, response, unanswered, answer_all, answers_once}
use rfed.Session.Registry.{
  LinkSession, Sessions, configure_channels, configure_delivery, wants_channel, remove,
  dispatch_channel, dispatch_lxmf,
}
use rfed.Session.OneLink.{OneLink, operations-OneLink}

abbrev sub : Bytes
sub = 1 ∷ []

abbrev chan : Bytes
chan = 7 ∷ []

empty-OneLink : OneLink []
unfolding Dict.find
empty-OneLink = record {
  distinct = tt;
  subscribers = λ s j k x y h _ _ _. absurd (ground arith);
  deliveries = λ s j k x y h _ _ _. absurd (ground arith);
}

abbrev none_alive : Bytes → Bool
none_alive id = false

abbrev accepts : Bytes → Bool
accepts id = true

abbrev bound : Sessions
bound = (configure_channels [] (20 ∷ []) sub (chan ∷ [])).0

bound-OneLink : OneLink bound
bound-OneLink =
    (operations-OneLink accepts accepts [] (20 ∷ []) sub chan (chan ∷ []) empty-OneLink).0

operations-OneLink_example :
    OneLink (configure_channels bound (21 ∷ []) sub (chan ∷ [])).0
    × OneLink (configure_delivery bound (21 ∷ []) sub).0
    × OneLink (remove bound (21 ∷ [])).0
    × OneLink (dispatch_channel none_alive accepts bound sub chan).0
    × OneLink (dispatch_lxmf none_alive accepts bound sub).0
operations-OneLink_example =
    operations-OneLink none_alive accepts bound (21 ∷ []) sub chan (chan ∷ []) bound-OneLink

abbrev wants : LinkSession → Bool
wants x = wants_channel x.subscriber_hash x.channel_hashes sub chan

abbrev streams : Dict Bytes ChannelStreamSession
streams = configure [] (20 ∷ []) sub (chan ∷ [])

abbrev deliveries : Dict Bytes PropagationStreamSession
deliveries = (register [] (20 ∷ []) sub).0

abbrev gone : Bytes → Sent
gone id = link_gone

no_streams : {S : Type 0} (key : S → Bytes) → OneStream key []
unfolding Dict.find
no_streams key = record { distinct = tt; unique = λ j k x y hj hk e. absurd (ground arith) }

abbrev decode : Bytes → Option Bool
decode [] = none
decode (x ∷ xs) = some true

answers_once_example :
    let r =
      answer_all decode
        (gated true true)
        (unanswered ∷ response (some (1 ∷ [])) ∷ response none ∷ []) in
    (r.failures ≡ 1) × (r.acks ≡ 1)
answers_once_example =
    answers_once decode true true (unanswered ∷ response (some (1 ∷ [])) ∷ response none ∷ [])

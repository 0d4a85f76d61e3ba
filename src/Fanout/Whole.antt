-- ===== src/Fanout/Whole.antt =====
-- What a whole fan-out of rfed/src/fanout.rs comes to.
use rfed.Base.{
  ℕ, ◌+◌, ◌≡◌, refl, List, [], ◌∷◌, ◌++◌, Option, Bytes, Bool, true, false, if◌then◌else◌, length,
  arith, append_assoc, append-nil, ap, ◌∙◌, sym, map, filter,
}
use rfed.Dict.{Dict, holds}
use rfed.Session.Registry.{Sessions}
use rfed.Session.Streams.{ChannelStreamSession}
use rfed.Fanout.Channel.{
  Surroundings, Subscriber, Route, Fanning, fan_subscriber, fan_loop, fanout_blob,
}
use rfed.Fanout.Ways.{reach, ways_of}
use rfed.Fanout.Went.{fan_loop-AllWent}
use rfed.Fanout.Routes.{is_suppression, is_hand_off, is_push, fan_subscriber-Routed}

-- The subscribers of a list whose route is a push.
abbrev pub pushed_to : List Subscriber → List Route → List Bytes
pushed_to [] routes = []
pushed_to (sub ∷ subs) [] = []
pushed_to (sub ∷ subs) (route ∷ routes) =
    if is_push route then sub.0 ∷ pushed_to subs routes else pushed_to subs routes

module _ {S : Type 0} (w : Surroundings S) where
  -- The hand-offs of the subscribers whose route is one, in order.
  abbrev pub hand_routed : S → List Subscriber → List Route → S
  hand_routed rest [] routes = rest
  hand_routed rest (sub ∷ subs) [] = rest
  hand_routed rest (sub ∷ subs) (route ∷ routes) =
      hand_routed
        (if is_hand_off route
          then w.hand_off rest (record { queue_key = sub.0; wake_key = w.notify_key sub.0 })
          else rest)
        subs routes

  -- The fan-out went from `s` to `r` over these subscribers.
  pub record Fanned (s r : Fanning S) (subs : List Subscriber) : Type 0 where
    pub taken : List Route
    pub routes : r.routes ≡ s.routes ++ taken
    pub one_each : length taken ≡ length subs
    pub suppressions :
        map is_suppression taken ≡ map (λ (sub : Subscriber). holds w.recalls sub.1) subs
    pub rest : r.rest ≡ hand_routed s.rest subs taken
    pub handed_off : r.handed_off ≡ s.handed_off + length (filter is_hand_off taken)
    pub on_deliver : r.on_deliver ≡ s.on_deliver ++ pushed_to subs taken

  next-on_deliver :
      (xs rest : List Bytes) (sub : Bytes) (b : Bool)
      → (if b then xs ++ sub ∷ [] else xs) ++ rest ≡ xs ++ (if b then sub ∷ rest else rest)
  next-on_deliver xs rest sub true = append_assoc xs (sub ∷ []) rest
  next-on_deliver xs rest sub false = refl

  fan_loop-Fanned : (subs : List Subscriber) (s : Fanning S) → Fanned s (fan_loop w s subs) subs
  unfolding fan_loop
  fan_loop-Fanned [] s = record {
    taken = [];
    routes = sym (append-nil s.routes);
    one_each = refl;
    suppressions = refl;
    rest = refl;
    handed_off = omega arith;
    on_deliver = sym (append-nil s.on_deliver);
  }
  fan_loop-Fanned (sub ∷ subs) s =
      let (route, t) = fan_subscriber-Routed w s sub in
      let next = fan_subscriber w s sub in
      let f = fan_loop-Fanned subs next in
      record {
        taken = route ∷ f.taken;
        routes =
            f.routes
            ∙ ap (λ (x : List Route). x ++ f.taken) t.routes
            ∙ append_assoc s.routes (route ∷ []) f.taken;
        one_each = omega (arith, f.one_each);
        suppressions = heads t.suppression f.suppressions;
        rest = f.rest ∙ ap (λ (x : S). hand_routed x subs f.taken) t.rest;
        handed_off = ground (arith, f.handed_off, t.handed_off);
        on_deliver =
            f.on_deliver
            ∙ ap (λ (x : List Bytes). x ++ pushed_to subs f.taken) t.on_deliver
            ∙ next-on_deliver s.on_deliver (pushed_to subs f.taken) sub.0 (is_push route);
      }
    where
      heads : {x y : Bool} {xs ys : List Bool} → x ≡ y → xs ≡ ys → x ∷ xs ≡ y ∷ ys
      heads p q = λ i. p i ∷ q i

  -- Whatever the links, the paths and the packets come to, each subscriber's blob takes one route, in
  -- order: it is suppressed for a backup subscription whose owner's identity is known; else goes by
  -- a link if one takes the push, else by a stream if one does, else by a packet if the destination
  -- and a path to it are known and the packet gets a receipt, and else is handed off here and now; a
  -- path is requested just where the packet found no interface, and the registries are what the
  -- pushes left. The hand-offs made are those of the subscribers whose route is one, in order, and as many
  -- as the fan-out returns; the deliver hook is called for those whose route is a push.
  pub fanout_blob-Fanned :
      (links : Option Sessions) (streams : Option (Dict Bytes ChannelStreamSession)) (rest : S)
      (subs : List Subscriber)
      → let r = fanout_blob w links streams rest subs in
        let ways = ways_of w (record { links = links; streams = streams }) subs in
        (r.routes ≡ ways.1)
        × (r.path_requests ≡ ways.2)
        × (reach w r ≡ ways.0)
        × (length r.routes ≡ length subs)
        × (map is_suppression r.routes ≡ map (λ (sub : Subscriber). holds w.recalls sub.1) subs)
        × (r.rest ≡ hand_routed rest subs r.routes)
        × (r.handed_off ≡ length (filter is_hand_off r.routes))
        × (r.on_deliver ≡ pushed_to subs r.routes)
  unfolding fanout_blob
  fanout_blob-Fanned links streams rest subs =
      let start : Fanning S = record {
        links = links;
        streams = streams;
        rest = rest;
        on_deliver = [];
        path_requests = [];
        handed_off = 0;
        routes = [];
      } in
      let f = fan_loop-Fanned subs start in
      let r = fan_loop w start subs in
      let back = sym f.routes in
      let went = fan_loop-AllWent w subs start in
      (
        went.routes,
        went.requests,
        went.reached,
        ap length f.routes ∙ f.one_each,
        ap (map is_suppression) f.routes ∙ f.suppressions,
        f.rest ∙ ap (hand_routed rest subs) back,
        from_zero _ _ (f.handed_off) ∙ ap (λ (x : List Route). length (filter is_hand_off x)) back,
        f.on_deliver ∙ ap (pushed_to subs) back,
      )
    where
      from_zero : (n k : ℕ) → n ≡ 0 + k → n ≡ k
      from_zero n k h = omega (arith, h)

-- ===== src/Fanout/Sending.antt =====
-- What `flush_queued` of rfed/src/fanout.rs counts, calls and leaves, against how each copy was sent.
use rfed.Base.{
  ◌+◌, ◌≡◌, refl, List, [], ◌∷◌, ◌++◌, Option, none, some, Bytes, Bool, true, false, if◌then◌else◌,
  length, filter, arith, Bool-cases, inl, inr, append_assoc, append-nil, subst, ap, ◌∙◌, sym,
}
use rfed.Session.Registry.{Sessions, delivered, has_channel_session}
use rfed.Deferred.State.{PendingBlob}
use rfed.Fanout.Channel.{PacketSent, receipt, no_interface, send_error}
use rfed.Fanout.Flush.{
  FlushSurroundings, Flushing, push_link, hooked, left_queued, flush_packet, flush_unlinked,
  flush_entry, flush_loop,
}
use rfed.Fanout.Copies.{
  CopyFate, linked, proven, oversized, unsendable, is_linked, is_proven, is_oversized,
  is_unsendable, tickets_unsent, blobs_sent, link_takes, links_left, packet_fate, fate_of, fates_of,
}

module _ (w : FlushSurroundings) where
  -- The state after a copy met its fate.
  abbrev after_fate : Flushing → Option Sessions → PendingBlob → CopyFate → Flushing
  after_fate f links e linked = record f {
    links = links;
    on_deliver = hooked w f e;
    flushed = record (f.flushed) { by_link = f.flushed.by_link + 1 };
  }
  after_fate f links e proven = record f {
    links = links;
    on_deliver = hooked w f e;
    flushed = record (f.flushed) { by_packet = f.flushed.by_packet + 1 };
  }
  after_fate f links e oversized = record f {
    links = links;
    flushed = record (f.flushed) { oversized = f.flushed.oversized + 1 };
    unsent = f.unsent ++ e.ticket ∷ [];
  }
  after_fate f links e unsendable = record f {
    links = links;
    flushed = record (f.flushed) { not_sent = f.flushed.not_sent + 1 };
    unsent = f.unsent ++ e.ticket ∷ [];
  }

  push_link-takes :
      (links : Option Sessions) (sub : Bytes) (e : PendingBlob)
      → push_link w links sub e ≡ (links_left w links sub e, link_takes w links sub e)
  unfolding delivered
  push_link-takes none sub e = refl
  push_link-takes (some sessions) sub e =
      elim (Bool-cases (has_channel_session sessions sub e.channel_hash)) [
        | inl has ↦ rw has refl
        | inr lacks ↦ rw lacks refl
      ]

  flush_unlinked-after_fate :
      (f : Flushing) (e : PendingBlob)
      → flush_unlinked w f e ≡ after_fate f f.links e (packet_fate w e)
  unfolding flush_unlinked flush_packet
  flush_unlinked-after_fate f e =
      if_fits (w.fits_in_delivery_packet (length (e.channel_hash ++ e.blob))) w.has_destination
        (w.send_packet e)
    where
      if_fits :
          (fits destination : Bool) (sent : PacketSent)
          → (if fits
              then (if destination
                  then elim sent [
                    | receipt ↦ record f {
                      on_deliver = hooked w f e;
                      flushed = record (f.flushed) { by_packet = f.flushed.by_packet + 1 };
                    }
                    | no_interface ↦ left_queued w f e
                    | send_error ↦ left_queued w f e
                  ]
                  else left_queued w f e)
              else record f {
                flushed = record (f.flushed) { oversized = f.flushed.oversized + 1 };
                unsent = f.unsent ++ e.ticket ∷ [];
              })
            ≡ after_fate f f.links e (
                if fits
                then (if destination
                    then elim sent [
                      | receipt ↦ proven
                      | no_interface ↦ unsendable
                      | send_error ↦ unsendable
                    ]
                    else unsendable)
                else oversized)
      if_fits true true receipt = refl
      if_fits true true no_interface = refl
      if_fits true true send_error = refl
      if_fits true false sent = refl
      if_fits false destination sent = refl

  flush_entry-after_fate :
      (sub : Bytes) (f : Flushing) (e : PendingBlob)
      → flush_entry w sub f e
        ≡ after_fate f (links_left w f.links sub e) e (fate_of w f.links sub e)
  unfolding flush_entry
  flush_entry-after_fate sub f e =
      rw (push_link-takes f.links sub e) (if_taken (link_takes w f.links sub e))
    where
      if_taken :
          (taken : Bool)
          → let f' : Flushing = record f { links = links_left w f.links sub e } in
            (if taken
              then record f' {
                on_deliver = hooked w f' e;
                flushed = record (f.flushed) { by_link = f.flushed.by_link + 1 };
              }
              else flush_unlinked w f' e)
            ≡ after_fate f
                (links_left w f.links sub e)
                e
                (if taken then linked else packet_fate w e)
      if_taken true = refl
      if_taken false =
          flush_unlinked-after_fate (record f { links = links_left w f.links sub e }) e
          ∙ relinked (packet_fate w e)
        where
          relinked :
              (fate : CopyFate)
              → after_fate
                  (record f { links = links_left w f.links sub e })
                  (links_left w f.links sub e)
                  e
                  fate
                ≡ after_fate f (links_left w f.links sub e) e fate
          relinked linked = refl
          relinked proven = refl
          relinked oversized = refl
          relinked unsendable = refl

  relinks :
      (f : Flushing) (links : Option Sessions) (e : PendingBlob) (fate : CopyFate)
      → (after_fate f links e fate).links ≡ links
  relinks f links e linked = refl
  relinks f links e proven = refl
  relinks f links e oversized = refl
  relinks f links e unsendable = refl

  -- The flush went from `f` to `r` over these copies, with these fates.
  pub record AllMet (f r : Flushing) (es : List PendingBlob) (o : Option Sessions × List CopyFate)
      : Type 0 where
    pub links : r.links ≡ o.0
    pub by_link : r.flushed.by_link ≡ f.flushed.by_link + length (filter is_linked o.1)
    pub by_packet : r.flushed.by_packet ≡ f.flushed.by_packet + length (filter is_proven o.1)
    pub oversized : r.flushed.oversized ≡ f.flushed.oversized + length (filter is_oversized o.1)
    pub not_sent : r.flushed.not_sent ≡ f.flushed.not_sent + length (filter is_unsendable o.1)
    pub unsent : r.unsent ≡ f.unsent ++ tickets_unsent es o.1
    pub hooks :
        r.on_deliver ≡ (if w.has_hooks then f.on_deliver ++ blobs_sent es o.1 else f.on_deliver)

  hooked_first :
      (f : Flushing) (e : PendingBlob) (later : List Bytes)
      → (if w.has_hooks then hooked w f e ++ later else hooked w f e)
        ≡ (if w.has_hooks then f.on_deliver ++ e.blob ∷ later else f.on_deliver)
  hooked_first f e later = elim (Bool-cases w.has_hooks) [
    | inl hooks ↦ rw hooks (append_assoc f.on_deliver (e.blob ∷ []) later)
    | inr none_called ↦ rw none_called refl
  ]

  next-AllMet :
      (f : Flushing) (links : Option Sessions) (e : PendingBlob) (fate : CopyFate) {r : Flushing}
      {es : List PendingBlob} {o : Option Sessions × List CopyFate}
      → AllMet (after_fate f links e fate) r es o
      → AllMet f r (e ∷ es) (o.0, fate ∷ o.1)
  next-AllMet f links e linked {es} {o} t = record {
    links = t.links;
    by_link = omega (arith, t.by_link);
    by_packet = t.by_packet;
    oversized = t.oversized;
    not_sent = t.not_sent;
    unsent = t.unsent;
    hooks = t.hooks ∙ hooked_first f e (blobs_sent es o.1);
  }
  next-AllMet f links e proven {es} {o} t = record {
    links = t.links;
    by_link = t.by_link;
    by_packet = omega (arith, t.by_packet);
    oversized = t.oversized;
    not_sent = t.not_sent;
    unsent = t.unsent;
    hooks = t.hooks ∙ hooked_first f e (blobs_sent es o.1);
  }
  next-AllMet f links e oversized {es} {o} t = record {
    links = t.links;
    by_link = t.by_link;
    by_packet = t.by_packet;
    oversized = omega (arith, t.oversized);
    not_sent = t.not_sent;
    unsent = t.unsent ∙ append_assoc f.unsent (e.ticket ∷ []) (tickets_unsent es o.1);
    hooks = t.hooks;
  }
  next-AllMet f links e unsendable {es} {o} t = record {
    links = t.links;
    by_link = t.by_link;
    by_packet = t.by_packet;
    oversized = t.oversized;
    not_sent = omega (arith, t.not_sent);
    unsent = t.unsent ∙ append_assoc f.unsent (e.ticket ∷ []) (tickets_unsent es o.1);
    hooks = t.hooks;
  }

  nothing_called : (xs : List Bytes) → xs ≡ (if w.has_hooks then xs ++ [] else xs)
  nothing_called xs = elim (Bool-cases w.has_hooks) [
    | inl hooks ↦ rw hooks (sym (append-nil xs))
    | inr none_called ↦ rw none_called refl
  ]

  pub flush_loop-AllMet :
      (sub : Bytes) (es : List PendingBlob) (f : Flushing)
      → AllMet f (flush_loop w sub f es) es (fates_of w f.links sub es)
  unfolding flush_loop
  flush_loop-AllMet sub [] f = record {
    links = refl;
    by_link = omega arith;
    by_packet = omega arith;
    oversized = omega arith;
    not_sent = omega arith;
    unsent = sym (append-nil f.unsent);
    hooks = nothing_called f.on_deliver;
  }
  flush_loop-AllMet sub (e ∷ es) f =
      let left = links_left w f.links sub e in
      let fate = fate_of w f.links sub e in
      let next = flush_entry w sub f e in
      let met = flush_entry-after_fate sub f e in
      next-AllMet f left e fate (
        subst
          (λ (from : Flushing). AllMet from (flush_loop w sub next es) es (fates_of w left sub es))
          met
          (subst
            (λ (x : Option Sessions).
              AllMet next (flush_loop w sub next es) es (fates_of w x sub es))
            (ap (λ (from : Flushing). from.links) met ∙ relinks f left e fate)
            (flush_loop-AllMet sub es next)))

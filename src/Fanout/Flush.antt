-- ===== src/Fanout/Flush.antt =====
-- `flush_queued` of rfed/src/fanout.rs: copies of what a subscriber has queued are sent when it is heard,
-- and stay queued until a route confirms them. What confirms or releases a copy that was sent comes
-- later, by `confirm` and `release` of the queue. With the queue's lock poisoned nothing is done, which
-- is left out, as log lines are.
use rfed.Base.{
  ℕ, ◌+◌, List, [], ◌∷◌, ◌++◌, Option, none, some, Bytes, Bool, false, if◌then◌else◌, length,
}
use rfed.Session.Registry.{Sessions, delivered, has_channel_session, dispatch_channel}
use rfed.Deferred.State.{PendingBlob, DeferredQueue}
use rfed.Deferred.Flush.{flush_copies, release}
use rfed.Fanout.Channel.{PacketSent, receipt, no_interface, send_error}

pub record Flushed : Type 0 where
  pub by_link : ℕ
  pub by_packet : ℕ
  pub oversized : ℕ
  pub not_sent : ℕ

abbrev pub nothing_flushed : Flushed
nothing_flushed = record { by_link = 0; by_packet = 0; oversized = 0; not_sent = 0 }

-- The registry of links, the copies that a deliver hook was called for, the counts, and the tickets
-- that are not in flight after all.
pub record Flushing : Type 0 where
  pub links : Option Sessions
  pub on_deliver : List Bytes
  pub flushed : Flushed
  pub unsent : List ℕ

unfoldable pub release_all : DeferredQueue → Bytes → List ℕ → DeferredQueue
unfolding release
release_all q sub [] = q
release_all q sub (t ∷ ts) = release_all (release q sub t).0 sub ts

-- What a flush meets: which links are alive and what they take, for an entry; whether the hook registry
-- can be locked; whether a payload fits in a packet; whether the delivery destination can be built; and
-- what the packet of an entry comes to.
pub record FlushSurroundings : Type 0 where
  pub is_alive : PendingBlob → Bytes → Bool
  pub push_request : PendingBlob → Bytes → Bool
  pub has_hooks : Bool
  pub fits_in_delivery_packet : ℕ → Bool
  pub has_destination : Bool
  pub send_packet : PendingBlob → PacketSent

module _ (w : FlushSurroundings) where
  abbrev pub push_link : Option Sessions → Bytes → PendingBlob → Option Sessions × Bool
  push_link none sub e = (none, false)
  push_link (some sessions) sub e =
      if has_channel_session sessions sub e.channel_hash
      then (
        some (dispatch_channel (w.is_alive e) (w.push_request e) sessions sub e.channel_hash).0,
        delivered
            (dispatch_channel (w.is_alive e) (w.push_request e) sessions sub e.channel_hash).1,
      )
      else (some sessions, false)

  abbrev pub hooked : Flushing → PendingBlob → List Bytes
  hooked f e = if w.has_hooks then f.on_deliver ++ e.blob ∷ [] else f.on_deliver

  abbrev pub left_queued : Flushing → PendingBlob → Flushing
  left_queued f e = record f {
    flushed = record (f.flushed) { not_sent = f.flushed.not_sent + 1 };
    unsent = f.unsent ++ e.ticket ∷ [];
  }

  unfoldable pub flush_packet : Flushing → PendingBlob → Flushing
  flush_packet f e = elim (w.send_packet e) [
    | receipt ↦ record f {
      on_deliver = hooked f e;
      flushed = record (f.flushed) { by_packet = f.flushed.by_packet + 1 };
    }
    | no_interface ↦ left_queued f e
    | send_error ↦ left_queued f e
  ]

  unfoldable pub flush_unlinked : Flushing → PendingBlob → Flushing
  unfolding flush_packet
  flush_unlinked f e =
      if w.fits_in_delivery_packet (length (e.channel_hash ++ e.blob))
      then (if w.has_destination then flush_packet f e else left_queued f e)
      else record f {
        flushed = record (f.flushed) { oversized = f.flushed.oversized + 1 };
        unsent = f.unsent ++ e.ticket ∷ [];
      }

  unfoldable pub flush_entry : Bytes → Flushing → PendingBlob → Flushing
  unfolding flush_unlinked has_channel_session dispatch_channel
  flush_entry sub f e =
      let (left, live) = push_link f.links sub e in
      let f' = record f { links = left } in
      if live
      then record f' {
        on_deliver = hooked f e;
        flushed = record (f.flushed) { by_link = f.flushed.by_link + 1 };
      }
      else flush_unlinked f' e

  unfoldable pub flush_loop : Bytes → Flushing → List PendingBlob → Flushing
  unfolding flush_entry
  flush_loop sub f [] = f
  flush_loop sub f (e ∷ es) = flush_loop sub (flush_entry sub f e) es

  -- With nothing to send, the loop has nothing to do.
  unfoldable pub flush_queued :
      Option Sessions → DeferredQueue → Bytes → (Bytes → Bool) → DeferredQueue × Flushing
  unfolding flush_loop release_all flush_copies
  flush_queued links q sub wanted =
      let (q', copies) = flush_copies q sub wanted in
      let f =
        flush_loop sub
          (record { links = links; on_deliver = []; flushed = nothing_flushed; unsent = [] })
          copies in
      (release_all q' sub f.unsent, f)

-- ===== src/Fanout/Copies.antt =====
-- How `flush_queued` of rfed/src/fanout.rs means to send each copy, by what the links and the packets
-- come to, apart from what it then counts and releases.
use rfed.Base.{
  ℕ, List, [], ◌∷◌, ◌++◌, Option, none, some, Bytes, Bool, true, false, if◌then◌else◌, ltb, length,
}
use rfed.Session.Registry.{Sessions, has_channel_session, dispatch_channel}
use rfed.Deferred.State.{PendingBlob}
use rfed.Fanout.Channel.{receipt, no_interface, send_error}
use rfed.Fanout.Flush.{FlushSurroundings}

-- What becomes of a copy: a link took it, its packet got a receipt, it is too large for a packet, or
-- it could not be sent.
pub data CopyFate : Type 0 where
  linked proven oversized unsendable : CopyFate

abbrev pub is_linked : CopyFate → Bool
is_linked linked = true
is_linked _ = false

abbrev pub is_proven : CopyFate → Bool
is_proven proven = true
is_proven _ = false

abbrev pub is_oversized : CopyFate → Bool
is_oversized oversized = true
is_oversized _ = false

abbrev pub is_unsendable : CopyFate → Bool
is_unsendable unsendable = true
is_unsendable _ = false

abbrev pub is_sent : CopyFate → Bool
is_sent linked = true
is_sent proven = true
is_sent _ = false

-- The tickets of the copies that were not sent.
abbrev pub tickets_unsent : List PendingBlob → List CopyFate → List ℕ
tickets_unsent [] fates = []
tickets_unsent (e ∷ es) [] = []
tickets_unsent (e ∷ es) (fate ∷ fates) =
    if is_sent fate then tickets_unsent es fates else e.ticket ∷ tickets_unsent es fates

-- The blobs of the copies that were sent.
abbrev pub blobs_sent : List PendingBlob → List CopyFate → List Bytes
blobs_sent [] fates = []
blobs_sent (e ∷ es) [] = []
blobs_sent (e ∷ es) (fate ∷ fates) =
    if is_sent fate then e.blob ∷ blobs_sent es fates else blobs_sent es fates

module _ (w : FlushSurroundings) where
  -- A link of the subscriber that wants the entry's channel took the push.
  abbrev pub link_takes : Option Sessions → Bytes → PendingBlob → Bool
  link_takes none sub e = false
  link_takes (some sessions) sub e =
      if has_channel_session sessions sub e.channel_hash
      then ltb 0
          (dispatch_channel (w.is_alive e) (w.push_request e) sessions sub e.channel_hash).1.sent
      else false

  abbrev pub links_left : Option Sessions → Bytes → PendingBlob → Option Sessions
  links_left none sub e = none
  links_left (some sessions) sub e = some (
      if has_channel_session sessions sub e.channel_hash
      then (dispatch_channel (w.is_alive e) (w.push_request e) sessions sub e.channel_hash).0
      else sessions)

  -- Without a link: a packet that is not too large, to a known destination, that gets a receipt.
  abbrev pub sending_fate : PendingBlob → CopyFate
  sending_fate e = elim (w.send_packet e) [
    | receipt ↦ proven
    | no_interface ↦ unsendable
    | send_error ↦ unsendable
  ]

  abbrev pub packet_fate : PendingBlob → CopyFate
  packet_fate e =
      if w.fits_in_delivery_packet (length (e.channel_hash ++ e.blob))
      then (if w.has_destination then sending_fate e else unsendable)
      else oversized

  abbrev pub fate_of : Option Sessions → Bytes → PendingBlob → CopyFate
  fate_of links sub e = if link_takes links sub e then linked else packet_fate e

  -- The copies in order, each with the links that the ones before it left.
  abbrev pub fates_of : Option Sessions → Bytes → List PendingBlob → Option Sessions × List CopyFate
  fates_of links sub [] = (links, [])
  fates_of links sub (e ∷ es) =
      let later = fates_of (links_left links sub e) sub es in
      (later.0, fate_of links sub e ∷ later.1)

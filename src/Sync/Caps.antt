-- ===== src/Sync/Caps.antt =====
-- The transfer caps of rfed/src/sync.rs: what a response to MESSAGE_GET carries.
use rfed.Base.{
  ℕ, ◌+◌, ◌-◌, ◌^◌, ◌≤◌, ◌<◌, ◌≡◌, refl, List, [], ◌∷◌, ◌++◌, length, All, ap, sym, ◌∙◌,
  append_assoc, append-nil, none, some, Bytes, bytes_dec, false, ltb, leb, arith, Option-cases,
  Bool-cases, inl, inr, if◌then◌else◌, ◌⊎◌,
}
use rfed.Dict
use rfed.Dict.{Dict}
use rfed.Blob.Index.{BlobMeta, BlobStore, add64, get}
use rfed.Sync.Peers.{FedSync}
use rfed.Sync.Wire.{Entry, encode_entry}
use rfed.Sync.RoundTrip.{encode_all, blob_bytes}
use rfed.Sync.Serve.{
  reset_period, Sending, send, send_blob, send_id, send_loop, send_all, handle_message_get,
}

-- Every indexed blob is smaller than a bound.
abbrev pub SmallBlobs : ℕ → BlobStore → Type 0
SmallBlobs bound b =
    (id : Bytes) (meta : BlobMeta) → Dict.find bytes_dec id b.index ≡ some meta → meta.size < bound

-- A file that can be read has the size in the index.
abbrev pub SizedBlobs : BlobStore → Type 0
SizedBlobs b =
    (id : Bytes) (meta : BlobMeta) (blob : Bytes)
    → Dict.find bytes_dec id b.index ≡ some meta
    → get b id ≡ some blob
    → meta.size ≡ length blob

-- A record of a blob that the store has.
abbrev pub IsHeld : BlobStore → Entry → Type 0
IsHeld b e = get b e.message_id ≡ some e.blob

encode_all-append : (xs ys : List Entry) → encode_all (xs ++ ys) ≡ encode_all xs ++ encode_all ys
encode_all-append [] ys = refl
encode_all-append (x ∷ xs) ys =
    ap (λ (z : Bytes). encode_entry x ++ z) (encode_all-append xs ys)
    ∙ sym (append_assoc (encode_entry x) (encode_all xs) (encode_all ys))

blob_bytes-append : (xs ys : List Entry) → blob_bytes (xs ++ ys) ≡ blob_bytes xs + blob_bytes ys
blob_bytes-append [] ys = omega arith
blob_bytes-append (x ∷ xs) ys = omega (arith, blob_bytes-append xs ys)

IsHeld-append :
    (b : BlobStore) (xs ys : List Entry)
    → All (IsHeld b) xs
    → All (IsHeld b) ys
    → All (IsHeld b) (xs ++ ys)
IsHeld-append b [] ys h k = k
IsHeld-append b (x ∷ xs) ys h k = (h.0, IsHeld-append b xs ys h.1 k)

module _ (transfer_limit sync_limit : ℕ) (b : BlobStore) (transfer_small : transfer_limit < 2 ^ 63)
    (sync_small : sync_limit < 2 ^ 63) (small : SmallBlobs (2 ^ 63) b) (sized : SizedBlobs b) where
  -- The loop has sent from `s` to `r` the records of blobs that the store has, and is within both caps.
  record Capped (s r : Sending) : Type 0 where
    pub total : r.total_sent ≤ transfer_limit
    pub sent : r.sync_bytes_sent ≤ sync_limit
    pub both : r.total_sent + s.sync_bytes_sent ≡ s.total_sent + r.sync_bytes_sent
    pub carried : List Entry
    pub out : r.out ≡ s.out ++ encode_all carried
    pub bytes : r.total_sent ≡ s.total_sent + blob_bytes carried
    pub held : All (IsHeld b) carried

  nothing-Capped :
      (s : Sending) → s.total_sent ≤ transfer_limit → s.sync_bytes_sent ≤ sync_limit → Capped s s
  nothing-Capped s t u = record {
    total = t;
    sent = u;
    both = omega arith;
    carried = [];
    out = sym (append-nil s.out);
    bytes = omega arith;
    held = tt;
  }

  send-Capped :
      (s : Sending) (id blob : Bytes) (meta : BlobMeta)
      → Dict.find bytes_dec id b.index ≡ some meta
      → get b id ≡ some blob
      → ltb transfer_limit (add64 s.total_sent meta.size) ≡ false
      → ltb sync_limit (add64 s.sync_bytes_sent meta.size) ≡ false
      → Capped s s
      → Capped s (send s id meta blob)
  send-Capped s id blob meta found read fits fits_sync c = record {
    total = ground (arith, small id meta found);
    sent = ground (arith, small id meta found);
    both = ground (arith, small id meta found, transfer_small, sync_small, c.total, c.sent);
    carried = record { channel_hash = meta.destination_hash; message_id = id; blob = blob } ∷ [];
    out =
        ap (λ (x : Bytes). s.out ++ x)
          (sym (
            append-nil (
              encode_entry
                (record { channel_hash = meta.destination_hash; message_id = id; blob = blob }))));
    bytes =
        ground (arith, small id meta found, transfer_small, c.total, sized id meta blob found read);
    held = (read, tt);
  }

  send_id-Capped :
      (s : Sending) (id : Bytes)
      → Capped s s
      → (send_id transfer_limit sync_limit b s id ≡ none)
        ⊎ ((next : Sending) × (send_id transfer_limit sync_limit b s id ≡ some next)
            × Capped s next)
  unfolding send_id send_blob
  send_id-Capped s id c = elim (Option-cases (Dict.find bytes_dec id b.index)) [
    | inl absent ↦ inr (s, rw (absent, send_id) refl, c)
    | inr (meta, found) ↦ elim (Bool-cases (ltb transfer_limit (add64 s.total_sent meta.size))) [
      | inl over ↦ inl (ground arith)
      | inr fits ↦ elim (Bool-cases (ltb sync_limit (add64 s.sync_bytes_sent meta.size))) [
        | inl over ↦ inl (ground arith)
        | inr fits_sync ↦ elim (Option-cases (get b id)) [
          | inl unread ↦ inr (s, ground arith, c)
          | inr (blob, read) ↦ inr (
            send s id meta blob,
            ground arith,
            send-Capped s id blob meta found read fits fits_sync c,
          )
        ]
      ]
    ]
  ]

  trans-Capped : (s r q : Sending) → Capped s r → Capped r q → Capped s q
  trans-Capped s r q c d = record {
    total = d.total;
    sent = d.sent;
    both = omega (arith, c.both, d.both);
    carried = c.carried ++ d.carried;
    out =
        d.out
        ∙ ap (λ (x : Bytes). x ++ encode_all d.carried) c.out
        ∙ append_assoc s.out (encode_all c.carried) (encode_all d.carried)
        ∙ ap (λ (x : Bytes). s.out ++ x) (sym (encode_all-append c.carried d.carried));
    bytes = omega (arith, c.bytes, d.bytes, blob_bytes-append c.carried d.carried);
    held = IsHeld-append b c.carried d.carried c.held d.held;
  }

  send_loop-Capped :
      (ids : List Bytes) (s : Sending)
      → Capped s s
      → Capped s (send_loop transfer_limit sync_limit b s ids)
  unfolding send_loop
  send_loop-Capped [] s c = c
  send_loop-Capped (id ∷ ids) s c = elim (send_id-Capped s id c) [
    | inl stop ↦ rw (stop, send_loop) c
    | inr (next, go, d) ↦
        rw (go, send_loop)
          (trans-Capped s next _ d (send_loop-Capped ids next (nothing-Capped next d.total d.sent)))
  ]

-- A period of an hour begins anew when it has passed.
abbrev pub sent_before : FedSync → ℕ → ℕ
sent_before f now = if leb 3600 (now - f.sync_period_start) then 0 else f.sync_bytes_sent

-- With caps and blobs under 2 ^ 63 bytes, each readable blob of the size in the index and a counter
-- within the cap: a response is the records of blobs that the store has, whose bytes together are no
-- more than the transfer limit; the counter, which goes on from what was sent in this period, rises by
-- the bytes of these blobs, and stays within the sync limit; the limits stay as they are.
pub handle_message_get-Caps :
    (encode : Bytes → Bytes) (f : FedSync) (b : BlobStore) (ids : List Bytes) (now : ℕ)
    → f.transfer_limit_bytes < 2 ^ 63
    → f.sync_limit_bytes < 2 ^ 63
    → SmallBlobs (2 ^ 63) b
    → SizedBlobs b
    → f.sync_bytes_sent ≤ f.sync_limit_bytes
    → let r = handle_message_get encode f b ids now in
      (carried : List Entry) × (r.1 ≡ encode (encode_all carried))
      × All (IsHeld b) carried
      × (blob_bytes carried ≤ f.transfer_limit_bytes)
      × (r.0.sync_bytes_sent ≡ sent_before f now + blob_bytes carried)
      × (r.0.sync_bytes_sent ≤ f.sync_limit_bytes)
      × (r.0.sync_limit_bytes ≡ f.sync_limit_bytes)
      × (r.0.transfer_limit_bytes ≡ f.transfer_limit_bytes)
unfolding handle_message_get send_all reset_period
handle_message_get-Caps encode f b ids now t u small sized within =
    elim (Bool-cases (leb 3600 (now - f.sync_period_start))) [
      | inl over ↦
          let c = caps 0 (omega arith) in
          rw over (
            c.carried,
            ap encode c.out,
            c.held,
            omega (arith, c.bytes, c.total),
            omega (arith, c.both, c.bytes),
            c.sent,
            refl,
            refl,
          )
      | inr on ↦
          let c = caps f.sync_bytes_sent within in
          rw on (
            c.carried,
            ap encode c.out,
            c.held,
            omega (arith, c.bytes, c.total),
            omega (arith, c.both, c.bytes),
            c.sent,
            refl,
            refl,
          )
    ]
  where
    caps :
        (sent : ℕ)
        → sent ≤ f.sync_limit_bytes
        → let s : Sending = record { sync_bytes_sent = sent; total_sent = 0; out = [] } in
          Capped f.transfer_limit_bytes f.sync_limit_bytes b t u small sized s
            (send_loop f.transfer_limit_bytes f.sync_limit_bytes b s ids)
    caps sent below =
        let s : Sending = record { sync_bytes_sent = sent; total_sent = 0; out = [] } in
        send_loop-Capped f.transfer_limit_bytes f.sync_limit_bytes b t u small sized ids s (
          nothing-Capped f.transfer_limit_bytes f.sync_limit_bytes b t u small sized s (omega arith)
            (omega (arith, below)))

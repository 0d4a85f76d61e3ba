-- ===== src/Sync/Budget.antt =====
-- The transfer caps of rfed/src/sync.rs as a budget: a response to MESSAGE_GET carries the requested
-- blobs from the front, as long as they come to no more.
use rfed.Base.{
  ℕ, ◌+◌, ◌-◌, ◌^◌, ◌≤◌, ◌<◌, ◌≡◌, refl, List, [], ◌∷◌, ◌++◌, Option, none, some, Bytes, bytes_dec,
  leb, length, arith, Option-cases, Bool-cases, ◌∙◌, inl, inr, min, if◌then◌else◌, sym, ap, dec_le,
  append_assoc, append-nil,
}
use rfed.Dict
use rfed.Blob.Index.{BlobMeta, BlobStore, get}
use rfed.Sync.Peers.{FedSync}
use rfed.Sync.Wire.{Entry, encode_entry}
use rfed.Sync.RoundTrip.{encode_all, blob_bytes}
use rfed.Sync.Caps.{SmallBlobs, sent_before}
use rfed.Sync.Serve.{
  reset_period, Sending, send, send_blob, send_id, send_loop, send_all, handle_message_get,
}

-- Every indexed blob can be read, and has its size.
abbrev pub Readable : BlobStore → Type 0
Readable b =
    (id : Bytes) (meta : BlobMeta)
    → Dict.find bytes_dec id b.index ≡ some meta
    → (blob : Bytes) × (get b id ≡ some blob) × (meta.size ≡ length blob)

-- The requested blobs that the store has, in the order of the request.
abbrev pub entry_of : BlobMeta → Bytes → Bytes → Entry
entry_of meta id blob = record {
  channel_hash = meta.destination_hash;
  message_id = id;
  blob = blob;
}

unfoldable pub held_entry : BlobStore → Bytes → List Entry
held_entry b id = elim (Dict.find bytes_dec id b.index) [
  | none ↦ []
  | some meta ↦ elim (get b id) [ none ↦ [] | some blob ↦ entry_of meta id blob ∷ [] ]
]

unfoldable pub held_entries : BlobStore → List Bytes → List Entry
unfolding held_entry
held_entries b [] = []
held_entries b (id ∷ ids) = held_entry b id ++ held_entries b ids

-- The entries from the front whose blobs come to no more than a budget.
unfoldable pub within_budget : ℕ → List Entry → List Entry
within_budget budget [] = []
within_budget budget (e ∷ es) =
    let rest = within_budget (budget - length e.blob) es in
    if leb (length e.blob) budget then e ∷ rest else []

same_sending :
    (s r : Sending)
    → s.sync_bytes_sent ≡ r.sync_bytes_sent
    → s.total_sent ≡ r.total_sent
    → s.out ≡ r.out
    → s ≡ r
same_sending s r p q o = λ i. record { sync_bytes_sent = p i; total_sent = q i; out = o i }

-- What the loop makes of the entries that it sends.
abbrev pub sent_entries : Sending → List Entry → Sending
sent_entries s es = record {
  sync_bytes_sent = s.sync_bytes_sent + blob_bytes es;
  total_sent = s.total_sent + blob_bytes es;
  out = s.out ++ encode_all es;
}

sent_entries-nil : (s : Sending) → s ≡ sent_entries s []
sent_entries-nil s =
    same_sending s (sent_entries s []) (omega arith) (omega arith) (sym (append-nil s.out))

within_budget-all :
    (n : ℕ) (e : Entry) (es : List Entry)
    → length e.blob ≤ n
    → within_budget n (e ∷ es) ≡ e ∷ within_budget (n - length e.blob) es
unfolding within_budget
within_budget-all n e es h = ground arith

within_budget-none :
    (n : ℕ) (e : Entry) (es : List Entry) → n < length e.blob → within_budget n (e ∷ es) ≡ []
unfolding within_budget
within_budget-none n e es h = ground arith

held_entry-absent :
    (b : BlobStore) (id : Bytes) → Dict.find bytes_dec id b.index ≡ none → held_entry b id ≡ []
unfolding held_entry
held_entry-absent b id absent = rw (absent, held_entry) refl

held_entries-held :
    (b : BlobStore) (id : Bytes) (ids : List Bytes) (blob : Bytes) (meta : BlobMeta)
    → Dict.find bytes_dec id b.index ≡ some meta
    → get b id ≡ some blob
    → held_entries b (id ∷ ids) ≡ entry_of meta id blob ∷ held_entries b ids
unfolding held_entries
held_entries-held b id ids blob meta found read = rw (found, held_entry, read) refl

module _ (transfer_limit sync_limit : ℕ) (b : BlobStore) (transfer_small : transfer_limit < 2 ^ 63)
    (sync_small : sync_limit < 2 ^ 63) (small : SmallBlobs (2 ^ 63) b) (readable : Readable b) where
  abbrev left : Sending → ℕ
  left s = min (transfer_limit - s.total_sent) (sync_limit - s.sync_bytes_sent)

  abbrev WithinCaps : Sending → Type 0
  WithinCaps s = (s.total_sent ≤ transfer_limit) × (s.sync_bytes_sent ≤ sync_limit)

  -- A held blob is sent when it fits what is left, and else ends the loop.
  send_id-held :
      (s : Sending) (id blob : Bytes) (meta : BlobMeta)
      → WithinCaps s
      → Dict.find bytes_dec id b.index ≡ some meta
      → get b id ≡ some blob
      → meta.size ≡ length blob
      → send_id transfer_limit sync_limit b s id
        ≡ (if leb (length blob) (left s) then some (send s id meta blob) else none)
  unfolding send_id send_blob
  send_id-held s id blob meta c found read size =
      rw (found, send_id, send_blob) (ground (arith, small id meta found))

  after_send :
      (s : Sending) (id blob : Bytes) (meta : BlobMeta)
      → WithinCaps s
      → meta.size ≡ length blob
      → length blob ≤ left s
      → (left (send s id meta blob) ≡ left s - length blob)
        × WithinCaps (send s id meta blob)
        × ((es : List Entry)
            → sent_entries (send s id meta blob) es ≡ sent_entries s (entry_of meta id blob ∷ es))
  after_send s id blob meta c size fits = (
    ground arith,
    (ground arith, ground arith),
    λ es.
        same_sending (sent_entries (send s id meta blob) es)
          (sent_entries s (entry_of meta id blob ∷ es)) (ground arith) (ground arith)
          (append_assoc s.out (encode_entry (entry_of meta id blob)) (encode_all es)),
  )

  send_loop-id :
      (s : Sending) (id : Bytes) (ids : List Bytes) (o : Option Sending)
      → send_id transfer_limit sync_limit b s id ≡ o
      → send_loop transfer_limit sync_limit b s (id ∷ ids)
        ≡ elim o [ none ↦ s | some next ↦ send_loop transfer_limit sync_limit b next ids ]
  unfolding send_loop
  send_loop-id s id ids o h =
      ap
        (λ (x : Option Sending). elim x [
          | none ↦ s
          | some next ↦ send_loop transfer_limit sync_limit b next ids
        ])
        h

  send_loop-held :
      (ids : List Bytes) (s : Sending)
      → WithinCaps s
      → send_loop transfer_limit sync_limit b s ids
        ≡ sent_entries s (within_budget (left s) (held_entries b ids))
  unfolding held_entries held_entry send_id send_loop within_budget
  send_loop-held [] s c = sent_entries-nil s
  send_loop-held (id ∷ ids) s c = elim (Option-cases (Dict.find bytes_dec id b.index)) [
    | inl absent ↦
        send_loop-id s id ids (some s) (rw (absent, send_id) refl)
        ∙ send_loop-held ids s c
        ∙ ap
            (λ (es : List Entry).
              sent_entries s (within_budget (left s) (es ++ held_entries b ids)))
            (sym (held_entry-absent b id absent))
    | inr (meta, found) ↦
        let (blob, read, size) = readable id meta found in
        let e = entry_of meta id blob in
        let one = send_id-held s id blob meta c found read size in
        let held = held_entries-held b id ids blob meta found read in
        elim (dec_le (length blob) (left s)) [
          | yes fits ↦
              let after = after_send s id blob meta c size fits in
              send_loop-id s id ids (some (send s id meta blob)) (one ∙ ground arith)
              ∙ send_loop-held ids (send s id meta blob) after.1
              ∙ after.2 (within_budget (left (send s id meta blob)) (held_entries b ids))
              ∙ ap (λ (n : ℕ). sent_entries s (e ∷ within_budget n (held_entries b ids))) after.0
              ∙ ap (sent_entries s) (
                  sym (within_budget-all (left s) e (held_entries b ids) fits)
                  ∙ ap (within_budget (left s)) (sym held))
          | no over ↦
              send_loop-id s id ids none (one ∙ ground arith)
              ∙ sent_entries-nil s
              ∙ ap (sent_entries s) (
                  sym (within_budget-none (left s) e (held_entries b ids) (omega (arith, over)))
                  ∙ ap (within_budget (left s)) (sym held))
        ]
  ]

-- With caps and blobs under 2 ^ 63 bytes, every indexed blob readable with its size and the counter
-- within the cap: the response is the record of each requested blob that the store has, in the order
-- of the request and from its front, as long as the blobs come to no more than the transfer limit
-- and what this period leaves of the sync limit; the counter rises by their bytes.
pub handle_message_get-within_budget :
    (encode : Bytes → Bytes) (f : FedSync) (b : BlobStore) (ids : List Bytes) (now : ℕ)
    → f.transfer_limit_bytes < 2 ^ 63
    → f.sync_limit_bytes < 2 ^ 63
    → SmallBlobs (2 ^ 63) b
    → Readable b
    → f.sync_bytes_sent ≤ f.sync_limit_bytes
    → let before = sent_before f now in
      let sent =
        within_budget
          (min f.transfer_limit_bytes (f.sync_limit_bytes - before))
          (held_entries b ids) in
      let r = handle_message_get encode f b ids now in
      (r.1 ≡ encode (encode_all sent)) × (r.0.sync_bytes_sent ≡ before + blob_bytes sent)
unfolding handle_message_get send_all reset_period
handle_message_get-within_budget encode f b ids now t u small readable within =
    elim (Bool-cases (leb 3600 (now - f.sync_period_start))) [
      | inl over ↦ rw over (told 0 (omega arith))
      | inr on ↦ rw on (told f.sync_bytes_sent within)
    ]
  where
    from_nothing : (k : ℕ) → min (f.transfer_limit_bytes - 0) k ≡ min f.transfer_limit_bytes k
    from_nothing k = omega arith

    told :
        (n : ℕ)
        → n ≤ f.sync_limit_bytes
        → let s : Sending = record { sync_bytes_sent = n; total_sent = 0; out = [] } in
          let sent =
            within_budget
              (min f.transfer_limit_bytes (f.sync_limit_bytes - n))
              (held_entries b ids) in
          let r = send_loop f.transfer_limit_bytes f.sync_limit_bytes b s ids in
          (encode r.out ≡ encode (encode_all sent)) × (r.sync_bytes_sent ≡ n + blob_bytes sent)
    told n below =
        let s : Sending = record { sync_bytes_sent = n; total_sent = 0; out = [] } in
        let all =
          send_loop-held f.transfer_limit_bytes f.sync_limit_bytes b t u small readable ids s
            (omega arith, below)
          ∙ ap (λ (k : ℕ). sent_entries s (within_budget k (held_entries b ids)))
              (from_nothing (f.sync_limit_bytes - n)) in
        (ap (λ (x : Sending). encode x.out) all, ap (λ (x : Sending). x.sync_bytes_sent) all)

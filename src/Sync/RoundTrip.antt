-- ===== src/Sync/RoundTrip.antt =====
-- What `handle_message_get` writes is what `ingest_message_get_response` reads, in rfed/src/sync.rs.
use rfed.Base.{
  take-append, drop-append, take_at, drop_past, take_all, ℕ, zero, suc, ◌+◌, ◌-◌, ◌*◌, ◌^◌, ◌<◌,
  ◌≡◌, refl, List, [], ◌∷◌, ◌++◌, Option, none, some, Bytes, Bool, false, ltb, if◌then◌else◌,
  length, take, drop, arith, append_assoc, Bool-cases, All, ap, ◌∙◌, inl, inr, length-append,
  append-nil,
}
use rfed.Blob.Index.{BlobPath, BlobStore}
use rfed.Sync.Wire.{
  Entry, zeros, to_16, to_be_bytes, from_be_bytes, encode_entry, from_be_bytes-to_be_bytes,
  length-to_be_bytes,
}
use rfed.Sync.Ingest.{next_entry, Ingested, ingest_entry, ingest_loop, ingest_message_get_response}

-- Hashes of 16 bytes, and a blob whose length fits in 32 bits.
abbrev pub IsEntry : Entry → Type 0
IsEntry e = (length e.channel_hash ≡ 16) × (length e.message_id ≡ 16) × (length e.blob < 2 ^ 32)

abbrev pub encode_all : List Entry → Bytes
encode_all [] = []
encode_all (e ∷ es) = encode_entry e ++ encode_all es

to_16-id : (bytes : Bytes) → length bytes ≡ 16 → to_16 bytes ≡ bytes
unfolding to_16
to_16-id bytes h =
    ap (λ (k : ℕ). take 16 bytes ++ zeros (16 - k)) h
    ∙ ap (λ (xs : Bytes). xs ++ []) (take_all 16 bytes h)
    ∙ append-nil bytes

next_entry-parts :
    (bytes rest : Bytes) (e : Entry)
    → ltb (length bytes) 36 ≡ false
    → take 16 bytes ≡ e.channel_hash
    → take 16 (drop 16 bytes) ≡ e.message_id
    → from_be_bytes (take 4 (drop 32 bytes)) ≡ length e.blob
    → drop 36 bytes ≡ e.blob ++ rest
    → next_entry bytes ≡ some (e, rest)
unfolding next_entry
next_entry-parts bytes rest e long channel id size after =
    rw (long, channel, id, size, after)
      (ground (arith, length-append e.blob rest, take-append e.blob rest, drop-append e.blob rest))

next_entry-append :
    (e : Entry) (l rest : Bytes)
    → IsEntry e
    → length l ≡ 4
    → from_be_bytes l ≡ length e.blob
    → next_entry (e.channel_hash ++ (e.message_id ++ (l ++ (e.blob ++ rest)))) ≡ some (e, rest)
next_entry-append e l rest w four size =
    let tail = l ++ (e.blob ++ rest) in
    next_entry-parts (e.channel_hash ++ (e.message_id ++ tail)) rest e long
      (take_at 16 e.channel_hash _ w.0)
      (ap (take 16) (drop_past 16 0 e.channel_hash (e.message_id ++ tail) w.0)
        ∙ take_at 16 e.message_id tail w.1)
      (ap (λ (xs : Bytes). from_be_bytes (take 4 xs))
          (drop_past 16 16 e.channel_hash (e.message_id ++ tail) w.0
            ∙ drop_past 16 0 e.message_id tail w.1)
        ∙ ap from_be_bytes (take_at 4 l (e.blob ++ rest) four)
        ∙ size)
      (drop_past 16 20 e.channel_hash (e.message_id ++ tail) w.0
        ∙ drop_past 16 4 e.message_id tail w.1
        ∙ drop_past 4 0 l (e.blob ++ rest) four)
  where
    long : ltb (length (e.channel_hash ++ (e.message_id ++ (l ++ (e.blob ++ rest))))) 36 ≡ false
    long = ground (
      arith,
      w.0,
      w.1,
      four,
      length-append e.channel_hash (e.message_id ++ (l ++ (e.blob ++ rest))),
      length-append e.message_id (l ++ (e.blob ++ rest)),
      length-append l (e.blob ++ rest),
    )

-- The first record, whatever follows it.
pub next_entry-encode_entry :
    (e : Entry) (rest : Bytes) → IsEntry e → next_entry (encode_entry e ++ rest) ≡ some (e, rest)
unfolding encode_entry
next_entry-encode_entry e rest w =
    let l = to_be_bytes (length e.blob) in
    ap next_entry (
      append_assoc (to_16 e.channel_hash) (to_16 e.message_id ++ (l ++ e.blob)) rest
      ∙ ap (◌++◌ (to_16 e.channel_hash)) (
          append_assoc (to_16 e.message_id) (l ++ e.blob) rest
          ∙ ap (◌++◌ (to_16 e.message_id)) (append_assoc l e.blob rest))
      ∙ ap (λ (x : Bytes). x ++ (to_16 e.message_id ++ (l ++ (e.blob ++ rest))))
          (to_16-id e.channel_hash w.0)
      ∙ ap (λ (x : Bytes). e.channel_hash ++ (x ++ (l ++ (e.blob ++ rest))))
          (to_16-id e.message_id w.1))
    ∙ next_entry-append e l rest w (length-to_be_bytes (length e.blob))
        (from_be_bytes-to_be_bytes (length e.blob) w.2)

-- The bytes of the blobs.
abbrev pub blob_bytes : List Entry → ℕ
blob_bytes [] = 0
blob_bytes (e ∷ es) = length e.blob + blob_bytes es

length-encode_entry : (e : Entry) → IsEntry e → length (encode_entry e) ≡ 36 + length e.blob
unfolding encode_entry
length-encode_entry e w =
    let l = to_be_bytes (length e.blob) in
    let c = ap length (to_16-id e.channel_hash w.0) in
    let i = ap length (to_16-id e.message_id w.1) in
    omega (
      arith,
      w.0,
      w.1,
      c,
      i,
      length-append (to_16 e.channel_hash) (to_16 e.message_id ++ (l ++ e.blob)),
      length-append (to_16 e.message_id) (l ++ e.blob),
      length-append l e.blob,
      length-to_be_bytes (length e.blob),
    )

-- A response is 36 bytes for each record longer than its blobs.
pub length-encode_all :
    (es : List Entry) → All IsEntry es → length (encode_all es) ≡ 36 * length es + blob_bytes es
length-encode_all [] w = refl
length-encode_all (e ∷ es) w = omega (
  arith,
  length-append (encode_entry e) (encode_all es),
  length-encode_entry e w.0,
  length-encode_all es w.1,
)

-- The records of a response, ingested one after the other until one fails.
module _ (removes : BlobPath → Bool) (wrote : Bytes → Bool) (now : ℕ) where
  abbrev pub ingest_each : Ingested → List Entry → Ingested
  ingest_each s [] = s
  ingest_each s (e ∷ es) =
      let next = ingest_entry removes wrote now s e in
      let more = ingest_each next es in if next.is_broken then next else more

  pub ingest_loop-step :
      (fuel : ℕ) (s : Ingested) (bytes rest : Bytes) (e : Entry)
      → next_entry bytes ≡ some (e, rest)
      → let next = ingest_entry removes wrote now s e in
        ingest_loop removes wrote now (suc fuel) s bytes
        ≡ (if next.is_broken then some next else ingest_loop removes wrote now fuel next rest)
  unfolding ingest_loop
  ingest_loop-step fuel s bytes rest e h = rw (h, ingest_loop) refl

  ingest_loop-encode_all :
      (es : List Entry) (fuel : ℕ) (s : Ingested)
      → All IsEntry es
      → length es < fuel
      → ingest_loop removes wrote now fuel s (encode_all es) ≡ some (ingest_each s es)
  unfolding ingest_loop
  ingest_loop-encode_all es zero s w f = absurd (omega (arith, f))
  ingest_loop-encode_all [] (suc fuel) s w f = refl
  ingest_loop-encode_all (e ∷ es) (suc fuel) s w f =
      let next = ingest_entry removes wrote now s e in
      ingest_loop-step fuel s (encode_entry e ++ encode_all es) (encode_all es) e
        (next_entry-encode_entry e (encode_all es) w.0)
      ∙ (elim (Bool-cases next.is_broken) [
        | inl broken ↦ rw broken refl
        | inr going ↦ rw going (ingest_loop-encode_all es fuel next w.1 (omega (arith, f)))
      ])

  -- Whatever the records are, as long as their hashes have 16 bytes and their blobs fewer than 2 ^ 32,
  -- and whatever the store holds: the response of these records, which the other end wraps so that
  -- it is read back, is ingested as its records, one after the other until one fails.
  pub ingest-encode_all :
      (decode : Bytes → Option Bytes) (encode : Bytes → Bytes) (b : BlobStore) (es : List Entry)
      → ((raw : Bytes) → decode (encode raw) ≡ some raw)
      → All IsEntry es
      → ingest_message_get_response removes wrote now decode b (encode (encode_all es))
        ≡ some (ingest_each (record { store = b; ingested = []; is_broken = false }) es)
  unfolding ingest_message_get_response
  ingest-encode_all decode encode b es reads w =
      let start : Ingested = record { store = b; ingested = []; is_broken = false } in
      ap (λ (raw : Bytes). ingest_loop removes wrote now (suc (length raw)) start raw)
        (ap (λ (o : Option Bytes). elim o [ none ↦ encode (encode_all es) | some raw ↦ raw ])
          (reads (encode_all es)))
      ∙ (ingest_loop-encode_all es (suc (length (encode_all es))) _ w
          (omega (arith, length-encode_all es w)))

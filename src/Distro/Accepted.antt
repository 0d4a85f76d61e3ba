-- ===== src/Distro/Accepted.antt =====
-- What `verify_distro_announce` of rfed/src/distro.rs accepts.
use rfed.Base.{
  ℕ, ◌+◌, ◌≤◌, ◌≡◌, refl, ◌++◌, Option, none, some, Bytes, same, Bool, true, false, ltb,
  if◌then◌else◌, length, drop, arith, same_eq, sym, ap, ◌∙◌, take-append-drop, length-drop,
  length-take_le, drop-drop,
}
use rfed.Distro.Verify.{
  accepted, rejected, too_short, wrong_key, invalid_key, no_destination, wrong_aspect,
  bad_signature, Destination, announce_fixed_len, len_of, slice, signed_data, verify_signature,
  verify_key, verify_distro_announce,
}

split_at :
    (from n : ℕ) (bytes : Bytes) → drop from bytes ≡ slice from n bytes ++ drop (from + n) bytes
split_at from n bytes =
    sym (take-append-drop n (drop from bytes))
    ∙ ap (◌++◌ (slice from n bytes)) (drop-drop from n bytes)

length-slice :
    (from n : ℕ) (bytes : Bytes) → from + n ≤ length bytes → length (slice from n bytes) ≡ n
length-slice from n bytes h =
    length-take_le n (drop from bytes) (omega (arith, h, length-drop from bytes (omega (arith, h))))

-- The fields of an announce, one after the other.
slices :
    (announce : Bytes) (r : ℕ)
    → announce
      ≡ slice 0 64 announce
        ++ (slice 64 10 announce
            ++ (slice 74 10 announce
                ++ (slice 84 r announce
                    ++ (slice (84 + r) 64 announce ++ drop (84 + r + 64) announce))))
slices announce r =
    split_at 0 64 announce
    ∙ ap (◌++◌ (slice 0 64 announce)) (
        split_at 64 10 announce
        ∙ ap (◌++◌ (slice 64 10 announce)) (
            split_at 74 10 announce
            ∙ ap (◌++◌ (slice 74 10 announce)) (
                split_at 84 r announce
                ∙ ap (◌++◌ (slice 84 r announce)) (split_at (84 + r) 64 announce))))

-- An announce made of a key, the name hash of its `lxmf.delivery`, a random hash, a ratchet if it says
-- so, a signature by the key over all of it and the destination's hash, and what follows.
pub record Announce (is_key : Bytes → Bool) (lxmf_delivery : Bytes → Option Destination)
    (validate : Bytes → Bytes → Bytes → Bool) (announce : Bytes) (ratchet : Bool) (key hash : Bytes)
    : Type 0 where
  pub destination : Destination
  pub random_hash : Bytes
  pub ratchet_bytes : Bytes
  pub signature : Bytes
  pub app_data : Bytes
  pub parts :
      announce
      ≡ key
        ++ (destination.name_hash ++ (random_hash ++ (ratchet_bytes ++ (signature ++ app_data))))
  pub random_len : length random_hash ≡ 10
  pub ratchet_bytes_len : length ratchet_bytes ≡ len_of ratchet
  pub signature_len : length signature ≡ 64
  pub known_key : is_key key ≡ true
  pub delivery : lxmf_delivery key ≡ some destination
  pub hash_of : hash ≡ destination.hash
  pub signed :
      validate key signature
        (hash ++ key ++ destination.name_hash ++ random_hash ++ ratchet_bytes ++ app_data)
      ≡ true

module _ (is_key : Bytes → Bool) (lxmf_delivery : Bytes → Option Destination)
    (validate : Bytes → Bytes → Bytes → Bool) where
  record Checked (announce : Bytes) (ratchet : Bool) (key hash : Bytes) : Type 0 where
    pub destination : Destination
    pub long : announce_fixed_len + len_of ratchet ≤ length announce
    pub key_of : slice 0 64 announce ≡ key
    pub known_key : is_key (slice 0 64 announce) ≡ true
    pub delivery : lxmf_delivery (slice 0 64 announce) ≡ some destination
    pub name_hash : destination.name_hash ≡ slice 64 10 announce
    pub hash_of : hash ≡ destination.hash
    pub signed :
        validate
          (slice 0 64 announce)
          (slice (84 + len_of ratchet) 64 announce)
          (signed_data destination.hash announce ratchet)
        ≡ true

  signature-accepted :
      (destination : Destination) (announce hash : Bytes) (ratchet : Bool)
      → verify_signature is_key lxmf_delivery validate destination announce ratchet ≡ accepted hash
      → (same destination.name_hash (slice 64 10 announce) ≡ true)
        × (hash ≡ destination.hash)
        × (validate
              (slice 0 64 announce)
              (slice (84 + len_of ratchet) 64 announce)
              (signed_data destination.hash announce ratchet)
            ≡ true)
  unfolding verify_signature
  signature-accepted destination announce hash ratchet h =
      cases (same destination.name_hash (slice 64 10 announce))
        (validate (slice 0 64 announce) (slice (84 + len_of ratchet) 64 announce)
          (signed_data destination.hash announce ratchet))
        h
    where
      cases :
          (named valid : Bool)
          → (if named
              then (if valid then accepted destination.hash else rejected bad_signature)
              else rejected wrong_aspect)
            ≡ accepted hash
          → (named ≡ true) × (hash ≡ destination.hash) × (valid ≡ true)
      cases true true e = ground arith
      cases true false e = absurd (ground arith)
      cases false valid e = absurd (ground arith)

  key-accepted :
      (announce hash : Bytes) (ratchet : Bool)
      → verify_key is_key lxmf_delivery validate announce ratchet ≡ accepted hash
      → (is_key (slice 0 64 announce) ≡ true)
        × ((destination : Destination) × (lxmf_delivery (slice 0 64 announce) ≡ some destination)
            × (verify_signature is_key lxmf_delivery validate destination announce ratchet
                ≡ accepted hash))
  unfolding verify_key
  key-accepted announce hash ratchet h =
      cases (is_key (slice 0 64 announce)) (lxmf_delivery (slice 0 64 announce)) h
    where
      cases :
          (valid : Bool) (to : Option Destination)
          → (if valid
              then elim to [
                | none ↦ rejected no_destination
                | some destination ↦
                    verify_signature is_key lxmf_delivery validate destination announce ratchet
              ]
              else rejected invalid_key)
            ≡ accepted hash
          → (valid ≡ true)
            × ((destination : Destination) × (to ≡ some destination)
                × (verify_signature is_key lxmf_delivery validate destination announce ratchet
                    ≡ accepted hash))
      cases true (some destination) e = (refl, (destination, refl, e))
      cases true none e = absurd (ground arith)
      cases false to e = absurd (ground arith)

  accepted-Checked :
      (announce : Bytes) (ratchet : Bool) (key hash : Bytes)
      → verify_distro_announce is_key lxmf_delivery validate announce ratchet key ≡ accepted hash
      → Checked announce ratchet key hash
  unfolding verify_distro_announce
  accepted-Checked announce ratchet key hash h =
      let (long, own, rest) =
        cases (ltb (length announce) (announce_fixed_len + len_of ratchet))
          (same (slice 0 64 announce) key) h in
      let (valid, (destination, to, signature)) = key-accepted announce hash ratchet rest in
      let (named, hash_of, signed) =
        signature-accepted destination announce hash ratchet signature in
      record {
        destination = destination;
        long = at_least (length announce) (announce_fixed_len + len_of ratchet) long;
        key_of = same_eq _ _ own;
        known_key = valid;
        delivery = to;
        name_hash = same_eq _ _ named;
        hash_of = hash_of;
        signed = signed;
      }
    where
      cases :
          (short own : Bool)
          → (if short
              then rejected too_short
              else if own
              then verify_key is_key lxmf_delivery validate announce ratchet
              else rejected wrong_key)
            ≡ accepted hash
          → (short ≡ false)
            × (own ≡ true)
            × (verify_key is_key lxmf_delivery validate announce ratchet ≡ accepted hash)
      cases true own e = absurd (ground arith)
      cases false true e = (refl, refl, e)
      cases false false e = absurd (ground arith)

      at_least : (n k : ℕ) → ltb n k ≡ false → k ≤ n
      at_least n k e = ground arith

  -- An announce is accepted, under the hash of its destination, only if it is made of the expected key,
  -- the name hash of the key's `lxmf.delivery`, a random hash of 10 bytes, a ratchet of 32 bytes if
  -- it says so, a signature of 64 bytes and whatever follows, the library knows the key, and the
  -- signature is the key's over the destination's hash and every other field.
  pub accepted-Announce :
      (announce : Bytes) (ratchet : Bool) (key hash : Bytes)
      → verify_distro_announce is_key lxmf_delivery validate announce ratchet key ≡ accepted hash
      → Announce is_key lxmf_delivery validate announce ratchet key hash
  accepted-Announce announce ratchet key hash h =
      let c = accepted-Checked announce ratchet key hash h in
      let r = len_of ratchet in
      record {
        destination = c.destination;
        random_hash = slice 74 10 announce;
        ratchet_bytes = slice 84 r announce;
        signature = slice (84 + r) 64 announce;
        app_data = drop (84 + r + 64) announce;
        parts =
            slices announce r
            ∙ ap
                (λ (k : Bytes).
                  k
                  ++ (slice 64 10 announce
                      ++ (slice 74 10 announce
                          ++ (slice 84 r announce
                              ++ (slice (84 + r) 64 announce ++ drop (84 + r + 64) announce)))))
                c.key_of
            ∙ ap
                (λ (n : Bytes).
                  key
                  ++ (n
                      ++ (slice 74 10 announce
                          ++ (slice 84 r announce
                              ++ (slice (84 + r) 64 announce ++ drop (84 + r + 64) announce)))))
                (sym c.name_hash);
        random_len = length-slice 74 10 announce (omega (arith, c.long));
        ratchet_bytes_len = length-slice 84 r announce (omega (arith, c.long));
        signature_len = length-slice (84 + r) 64 announce (omega (arith, c.long));
        known_key = sym (ap is_key c.key_of) ∙ c.known_key;
        delivery = sym (ap lxmf_delivery c.key_of) ∙ c.delivery;
        hash_of = c.hash_of;
        signed =
            ap (λ (x : Bytes). over key x c.destination.name_hash) c.hash_of
            ∙ ap (λ (k : Bytes). over k c.destination.hash c.destination.name_hash) (sym c.key_of)
            ∙ ap (over (slice 0 64 announce) c.destination.hash) c.name_hash
            ∙ c.signed;
      }
    where
      over : Bytes → Bytes → Bytes → Bool
      over k to name = validate k (slice (84 + len_of ratchet) 64 announce) (
          to
          ++ k
          ++ name
          ++ slice 74 10 announce
          ++ slice 84 (len_of ratchet) announce
          ++ drop (84 + len_of ratchet + 64) announce)

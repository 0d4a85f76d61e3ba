-- ===== src/Distro/Verify.antt =====
-- The checks on a pre-signed announce in rfed/src/distro.rs. Keys, destination hashes and signatures
-- are the library's and are parameters.
use rfed.Base.{
  ℕ, ◌+◌, ◌%◌, [], ◌∷◌, ◌++◌, Option, none, some, Bytes, same, Bool, not, ltb, ◌==◌, if◌then◌else◌,
  length, take, drop,
}

-- The ratchet flag and the announce; none is the error of an empty payload.
unfoldable pub parse_distro_announce_payload : Bytes → Option (Bool × Bytes)
parse_distro_announce_payload [] = none
parse_distro_announce_payload (flags ∷ announce) = some (not (flags % 2 == 0), announce)

pub data VerifyError : Type 0 where
  too_short wrong_key invalid_key no_destination wrong_aspect bad_signature : VerifyError

pub data Verified : Type 0 where
  accepted : Bytes → Verified
  rejected : VerifyError → Verified

abbrev pub ratchet_len : ℕ
ratchet_len = 32

abbrev pub announce_fixed_len : ℕ
announce_fixed_len = 64 + 10 + 10 + 64

abbrev pub len_of : Bool → ℕ
len_of ratchet = if ratchet then ratchet_len else 0

-- `data[from..from + n]`.
abbrev pub slice : ℕ → ℕ → Bytes → Bytes
slice from n bytes = take n (drop from bytes)

-- The hash and the name hash of a destination.
pub record Destination : Type 0 where
  pub hash : Bytes
  pub name_hash : Bytes

-- What a device signs: the destination's hash and every field but the signature.
abbrev pub signed_data : Bytes → Bytes → Bool → Bytes
signed_data destination announce ratchet =
    destination
    ++ slice 0 64 announce
    ++ slice 64 10 announce
    ++ slice 74 10 announce
    ++ slice 84 (len_of ratchet) announce
    ++ drop (84 + len_of ratchet + 64) announce

-- `Identity::from_public_key` succeeds, the `lxmf.delivery` destination of a key, and
-- `Identity::validate`.
module _ (is_key : Bytes → Bool) (lxmf_delivery : Bytes → Option Destination)
    (validate : Bytes → Bytes → Bytes → Bool) where
  unfoldable pub verify_signature : Destination → Bytes → Bool → Verified
  verify_signature destination announce ratchet =
      if same destination.name_hash (slice 64 10 announce)
      then if validate (slice 0 64 announce) (slice (84 + len_of ratchet) 64 announce)
          (signed_data destination.hash announce ratchet)
        then accepted destination.hash
        else rejected bad_signature
      else rejected wrong_aspect

  unfoldable pub verify_key : Bytes → Bool → Verified
  unfolding verify_signature
  verify_key announce ratchet =
      if is_key (slice 0 64 announce)
      then elim (lxmf_delivery (slice 0 64 announce)) [
        | none ↦ rejected no_destination
        | some destination ↦ verify_signature destination announce ratchet
      ]
      else rejected invalid_key

  unfoldable pub verify_distro_announce : Bytes → Bool → Bytes → Verified
  unfolding verify_key
  verify_distro_announce announce ratchet expected =
      if ltb (length announce) (announce_fixed_len + len_of ratchet)
      then rejected too_short
      else if same (slice 0 64 announce) expected
      then verify_key announce ratchet
      else rejected wrong_key

-- ===== src/Sync/Wire.antt =====
-- The records of a MESSAGE_GET response in rfed/src/sync.rs: channel hash, message id, length of the
-- blob and blob. A cursor into the bytes is the list of the bytes that are left.
use rfed.Base.{
  ℕ, zero, suc, ◌+◌, ◌-◌, ◌*◌, ◌%◌, ◌^◌, ◌<◌, ◌≡◌, refl, [], ◌∷◌, ◌++◌, Bytes, length, take, arith,
  ◌/◌,
}

pub record Entry : Type 0 where
  pub channel_hash : Bytes
  pub message_id : Bytes
  pub blob : Bytes

abbrev pub zeros : ℕ → Bytes
zeros zero = []
zeros (suc n) = 0 ∷ zeros n

-- Cut to 16 bytes, or padded to them.
unfoldable pub to_16 : Bytes → Bytes
to_16 bytes = take 16 bytes ++ zeros (16 - length bytes)

-- `(n as u32).to_be_bytes()`.
unfoldable pub to_be_bytes : ℕ → Bytes
to_be_bytes n = n % 2 ^ 32 / 2 ^ 24 ∷ n / 2 ^ 16 % 2 ^ 8 ∷ n / 2 ^ 8 % 2 ^ 8 ∷ n % 2 ^ 8 ∷ []

-- `u32::from_be_bytes`, whose argument has four bytes.
unfoldable pub from_be_bytes : Bytes → ℕ
from_be_bytes (a ∷ b ∷ c ∷ d ∷ []) = a * 2 ^ 24 + b * 2 ^ 16 + c * 2 ^ 8 + d
from_be_bytes _ = 0

unfoldable pub encode_entry : Entry → Bytes
unfolding to_16 to_be_bytes
encode_entry e =
    to_16 e.channel_hash ++ (to_16 e.message_id ++ (to_be_bytes (length e.blob) ++ e.blob))

pub from_be_bytes-to_be_bytes : (n : ℕ) → n < 2 ^ 32 → from_be_bytes (to_be_bytes n) ≡ n
unfolding from_be_bytes to_be_bytes
from_be_bytes-to_be_bytes n small = omega arith

pub length-to_be_bytes : (n : ℕ) → length (to_be_bytes n) ≡ 4
unfolding to_be_bytes
length-to_be_bytes n = refl

-- ===== src/Observer/Encode.antt =====
-- src/observer.rs: `encode_coap_uint` and `compute_etag`.
pub mod Laws
use Prim.Native.Nat.{bit_xor, min}
use coap_rs.Common.{ℕ, ◌-◌, ◌*◌, ◌/◌, ◌%◌, ◌^◌, [], ◌∷◌, take, Bytes, ◌==◌, if◌then◌else◌}

-- `u32::to_be_bytes` and `u64::to_be_bytes`
abbrev pub be_bytes32 : ℕ → Bytes
be_bytes32 n = n / 2 ^ 24 % 256 ∷ n / 2 ^ 16 % 256 ∷ n / 2 ^ 8 % 256 ∷ n % 256 ∷ []

abbrev pub be_bytes64 : ℕ → Bytes
be_bytes64 n =
    n / 2 ^ 56 % 256
    ∷ n / 2 ^ 48 % 256
    ∷ n / 2 ^ 40 % 256
    ∷ n / 2 ^ 32 % 256
    ∷ n / 2 ^ 24 % 256
    ∷ n / 2 ^ 16 % 256
    ∷ n / 2 ^ 8 % 256
    ∷ n % 256
    ∷ []

-- `skip_while(|&&b| b == 0)`
pub skip_zeros : Bytes → Bytes
skip_zeros [] = []
skip_zeros (b ∷ bs) = if b == 0 then skip_zeros bs else b ∷ bs

pub encode_coap_uint : ℕ → Bytes
unfolding skip_zeros
encode_coap_uint value = skip_zeros (be_bytes32 (min value (2 ^ 32 - 1)))

abbrev pub fnv_offset : ℕ
fnv_offset = 0xcbf29ce484222325

abbrev pub fnv_prime : ℕ
fnv_prime = 0x100000001b3

-- The loop of `compute_etag`, on a 64-bit hash.
pub fnv_from : ℕ → Bytes → ℕ
fnv_from hash [] = hash
fnv_from hash (byte ∷ payload) = fnv_from (bit_xor hash byte * fnv_prime % 2 ^ 64) payload

pub compute_etag : Bytes → Bytes
unfolding fnv_from
compute_etag payload = take 4 (be_bytes64 (fnv_from fnv_offset payload))

-- ===== src/Observer/Encode/Laws.antt =====
-- src/observer.rs: a CoAP unsigned integer is the shortest big-endian form of the saturated value.
use Prim.Native.Nat.{min, bit_xor}
use coap_rs.Common.{
  ℕ, ◌+◌, ◌-◌, ◌*◌, ◌≤◌, ◌<◌, ◌^◌, ◌%◌, ◌/◌, ◌≡◌, refl, ◌≢◌, [], ◌∷◌, Bytes, length, arith, take,
  ◌∙◌,
}
use coap_rs.Observer.Encode.{
  be_bytes32, be_bytes64, skip_zeros, encode_coap_uint, fnv_from, fnv_prime, compute_etag,
}

-- The big-endian value of a byte string, as `decode_uint` of the source's tests.
pub decode_uint : ℕ → Bytes → ℕ
decode_uint acc [] = acc
decode_uint acc (b ∷ bs) = decode_uint (acc * 256 + b) bs

-- No leading zero byte.
abbrev pub IsShort : Bytes → Type 0
IsShort [] = Unit {0}
IsShort (b ∷ bs) = b ≢ 0

skip_zeros-decode : (bs : Bytes) → decode_uint 0 (skip_zeros bs) ≡ decode_uint 0 bs
unfolding skip_zeros decode_uint
skip_zeros-decode [] = refl
skip_zeros-decode (b ∷ bs) = ground (arith, skip_zeros-decode bs)

skip_zeros-IsShort : (bs : Bytes) → IsShort (skip_zeros bs)
unfolding skip_zeros
skip_zeros-IsShort [] = tt
skip_zeros-IsShort (b ∷ bs) = ground (arith, skip_zeros-IsShort bs)

length-skip_zeros : (bs : Bytes) → length (skip_zeros bs) ≤ length bs
unfolding skip_zeros
length-skip_zeros [] = omega arith
length-skip_zeros (b ∷ bs) = ground (arith, length-skip_zeros bs)

be_bytes32-decode : (n : ℕ) → n < 2 ^ 32 → decode_uint 0 (be_bytes32 n) ≡ n
unfolding decode_uint
be_bytes32-decode n h = omega arith

-- The encoding of a value has at most four bytes and no leading zero, and decodes to the value, or to
-- 2^32 - 1 where the value is larger.
pub encode_coap_uint_lem :
    (value : ℕ)
    → (decode_uint 0 (encode_coap_uint value) ≡ min value (2 ^ 32 - 1))
      × (length (encode_coap_uint value) ≤ 4)
      × IsShort (encode_coap_uint value)
unfolding encode_coap_uint
encode_coap_uint_lem value =
    let n = min value (2 ^ 32 - 1) in
    (
      skip_zeros-decode (be_bytes32 n) ∙ be_bytes32-decode n (omega arith),
      length-skip_zeros (be_bytes32 n),
      skip_zeros-IsShort (be_bytes32 n),
    )

etag_bytes : (h : ℕ) → h < 2 ^ 64 → decode_uint 0 (take 4 (be_bytes64 h)) ≡ h / 2 ^ 32
unfolding decode_uint
etag_bytes h p = omega arith

fnv_from-lt : (h : ℕ) (payload : Bytes) → h < 2 ^ 64 → fnv_from h payload < 2 ^ 64
unfolding fnv_from
fnv_from-lt h [] p = p
fnv_from-lt h (b ∷ bs) p = fnv_from-lt (bit_xor h b * fnv_prime % 2 ^ 64) bs (omega arith)

-- The tag of a payload is the upper half of its 64-bit hash, in four bytes.
pub compute_etag_lem :
    (payload : Bytes)
    → (length (compute_etag payload) ≡ 4)
      × (decode_uint 0 (compute_etag payload) ≡ fnv_from 0xcbf29ce484222325 payload / 2 ^ 32)
unfolding compute_etag
compute_etag_lem payload =
    (refl, etag_bytes _ (fnv_from-lt 0xcbf29ce484222325 payload (omega arith)))

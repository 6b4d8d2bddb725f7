-- ===== src/Rpc/Wire.antt =====
-- src/app/rpc/RpcServer.cpp: big-endian numbers, and the two kinds of response frame.
pub mod BigEndian
use simple_redis_client.Prelude.{
  ℕ, zero, suc, ◌+◌, ◌*◌, ◌/◌, ◌%◌, ◌^◌, Bytes, [], ◌∷◌, ◌++◌, length,
}
use simple_redis_client.Rpc.Types.{magic0, magic1, magic2, req_error, response}

-- One `push_back`.
abbrev pub push_back : Bytes → ℕ → Bytes
push_back out b = out ++ (b ∷ [])

-- The loop of `append_u64_be` with `n` rounds to go, so that `shift` is 8 * (n - 1).
append_be : ℕ → Bytes → ℕ → Bytes
append_be zero out v = out
append_be (suc n) out v = append_be n (push_back out (v / 2 ^ (8 * n) % 256)) v

unfoldable pub append_u64_be : Bytes → ℕ → Bytes
unfolding append_be
append_u64_be out v = append_be 8 out v

unfoldable pub append_u32_be : Bytes → ℕ → Bytes
append_u32_be out v =
    let a = push_back out (v / 2 ^ 24 % 256) in
    let b = push_back a (v / 2 ^ 16 % 256) in
    let c = push_back b (v / 2 ^ 8 % 256) in push_back c (v % 256)

-- `(v << 8) | byte` on `w` bits: the shifted word ends in eight zero bits, so `|` adds the byte.
abbrev pub shift_in : ℕ → ℕ → ℕ → ℕ
shift_in w v byte = v * 256 % 2 ^ w + byte

-- The loops of `read_u64_be` and `read_u32_be`; the callers hold at least `n` bytes.
unfoldable pub read_be : ℕ → ℕ → ℕ → Bytes → ℕ
read_be w zero v p = v
read_be w (suc n) v [] = v
read_be w (suc n) v (b ∷ p) = read_be w n (shift_in w v b) p

unfoldable pub read_u64_be : Bytes → ℕ
unfolding read_be
read_u64_be p = read_be 64 8 0 p

unfoldable pub read_u32_be : Bytes → ℕ
unfolding read_be
read_u32_be p = read_be 32 4 0 p

abbrev pub append_magic_begin : Bytes → Bytes
append_magic_begin out = push_back (push_back out magic0) magic1

abbrev pub append_magic_end : Bytes → Bytes
append_magic_end out = push_back (push_back out magic1) magic2

unfoldable pub build_error_response : ℕ → ℕ → Bytes
build_error_response request_id error_code =
    let typed = push_back (append_magic_begin []) req_error in
    let coded = push_back (append_u64_be typed request_id) error_code in
    append_magic_end (append_u32_be coded 0)

-- The length field is cast to 32 bits.
unfoldable pub build_response : Bytes → ℕ → Bytes
build_response body request_id =
    let typed = push_back (append_magic_begin []) response in
    let coded = push_back (append_u64_be typed request_id) 0 in
    let sized = append_u32_be coded (length body % 2 ^ 32) in append_magic_end (sized ++ body)

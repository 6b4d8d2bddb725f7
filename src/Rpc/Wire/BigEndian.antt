-- ===== src/Rpc/Wire/BigEndian.antt =====
-- src/app/rpc/RpcServer.cpp: what the loops on big-endian numbers write and read.
use simple_redis_client.Prelude.{
  ℕ, zero, suc, ◌*◌, ◌/◌, ◌%◌, ◌^◌, ◌<◌, ◌≡◌, ◌∙◌, refl, sym, ap, Bytes, All, IsByte, [], ◌∷◌, ◌++◌,
  length, append_assoc, append-nil, arith,
}
use simple_redis_client.Rpc.Wire.{
  push_back, append_be, append_u64_be, append_u32_be, read_u64_be, read_u32_be,
}

-- The `n` lowest bytes of a number, the highest first.
abbrev pub big_endian : ℕ → ℕ → Bytes
big_endian zero v = []
big_endian (suc n) v = (v / 2 ^ (8 * n) % 256) ∷ big_endian n v

append_be-big_endian : (n : ℕ) (out : Bytes) (v : ℕ) → append_be n out v ≡ out ++ big_endian n v
unfolding append_be
append_be-big_endian zero out v = sym (append-nil out)
append_be-big_endian (suc n) out v =
    append_be-big_endian n (push_back out (v / 2 ^ (8 * n) % 256)) v ∙ append_assoc out _ _

pub append_u64_be-big_endian : (out : Bytes) (v : ℕ) → append_u64_be out v ≡ out ++ big_endian 8 v
unfolding append_u64_be
append_u64_be-big_endian out v = append_be-big_endian 8 out v

pub append_u32_be-big_endian : (out : Bytes) (v : ℕ) → append_u32_be out v ≡ out ++ big_endian 4 v
unfolding append_u32_be
append_u32_be-big_endian out v = simp append_assoc (ap (λ t. out ++ t) (ground arith))

pub length-big_endian : (n v : ℕ) → length (big_endian n v) ≡ n
length-big_endian zero v = refl
length-big_endian (suc n) v = ap suc (length-big_endian n v)

pub big_endian-IsByte : (n v : ℕ) → All IsByte (big_endian n v)
big_endian-IsByte zero v = tt
big_endian-IsByte (suc n) v = (omega arith, big_endian-IsByte n v)

pub read_u32_be-big_endian :
    (v : ℕ) (rest : Bytes) → v < 2 ^ 32 → read_u32_be (big_endian 4 v ++ rest) ≡ v
unfolding read_u32_be
read_u32_be-big_endian v rest h = omega arith

pub read_u64_be-big_endian :
    (v : ℕ) (rest : Bytes) → v < 2 ^ 64 → read_u64_be (big_endian 8 v ++ rest) ≡ v
unfolding read_u64_be
read_u64_be-big_endian v rest h = omega arith

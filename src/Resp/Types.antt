-- ===== src/Resp/Types.antt =====
-- src/app/redis/redis.h: `RESPType` and `RESPValue`.
use simple_redis_client.Prelude.{Bytes}
use simple_redis_client.Prelude.Int.{ℤ}

pub data RespType : Type 0 where
  simple_string error integer bulk_string array null : RespType

-- The struct's `type` and `data`; a `std::vector<RESPValue>` is `Items`.
mutual
  pub data RespValue : Type 0 where
    resp : RespType → RespData → RespValue

  pub data RespData : Type 0 where
    str : Bytes → RespData
    int : ℤ → RespData
    arr : Items → RespData

  pub data Items : Type 0 where
    nil : Items
    cons : RespValue → Items → Items

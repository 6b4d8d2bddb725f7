-- ===== src/Resp/Command.antt =====
-- src/app/redis/redis.h: `buildRESPCommand`.
pub mod Request
use simple_redis_client.Prelude.{List, Bytes, [], ◌∷◌, ◌++◌, length}
use simple_redis_client.Resp.Number.{to_string}

abbrev pub crlf : Bytes
crlf = b'\r' ∷ b'\n' ∷ []

-- The loop over the arguments.
unfoldable pub append_args : Bytes → List Bytes → Bytes
append_args cmd [] = cmd
append_args cmd (arg ∷ args) =
    let sized = cmd ++ (b'$' ∷ (to_string (length arg) ++ crlf)) in
    append_args (sized ++ (arg ++ crlf)) args

unfoldable pub build_resp_command : List Bytes → Bytes
unfolding append_args to_string
build_resp_command args = append_args (b'*' ∷ (to_string (length args) ++ crlf)) args

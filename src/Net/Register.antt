-- ===== src/Net/Register.antt =====
-- src/net/context/EpollContext.cpp: `doRegisterRead` and the registration of the other callbacks.
pub mod Watched
use simple_redis_client.Prelude.{Bool, true, false, Option, none, some, [], if◌then◌else◌}
use simple_redis_client.Net.Connection.{
  Connection, Interest, ctl_add, modify_epoll_events, Handled, kept,
}
use simple_redis_client.Net.Write.{new_connection, default_buffer}

abbrev pub with_read : Connection → Interest → Handled
with_read conn watched =
    if conn.peer_closed
    then kept conn watched []
    else if conn.read_registered
    then kept conn watched []
    else kept (record conn { read_registered = true })
        (modify_epoll_events true conn.write_registered watched) []

-- `doRegisterRead`, with a callback that is set.
unfoldable pub do_register_read : Option Connection → Interest → Handled
unfolding default_buffer
do_register_read none watched =
    kept (record (new_connection true) { read_registered = true }) (ctl_add true false watched) []
do_register_read (some conn) watched = with_read (record conn { read_cb = true }) watched

-- On an unknown connection these only log.
abbrev pub do_register_high_level_callback : Option Connection → Option Connection
do_register_high_level_callback none = none
do_register_high_level_callback (some conn) = some (record conn { high_level_callback = true })

abbrev pub do_register_low_level_callback : Option Connection → Option Connection
do_register_low_level_callback none = none
do_register_low_level_callback (some conn) = some (record conn { low_level_callback = true })

abbrev pub do_register_close_callback : Option Connection → Option Connection
do_register_close_callback none = none
do_register_close_callback (some conn) = some (record conn { closing_callback = true })

-- ===== src/Net/Connection.antt =====
-- src/net/context/EpollContext.cpp: `WriteMetaInfo` and `Connection`, and what the event loop asks
-- of epoll and calls back.
use simple_redis_client.Prelude.{ℕ, Bool, Option, List, Bytes}

-- A callback is a number; an empty `std::function` is `none`.
pub record WriteMetaInfo : Type 0 where
  pub buffer : Bytes
  pub offset : ℕ
  pub callback : Option ℕ

pub record SimpleBuffer : Type 0 where
  pub buffer : Bytes
  pub data_size : ℕ

-- The callbacks are set or not. The size is an `int` in the source, with no overflow below 2 ^ 31
-- pending bytes.
pub record Connection : Type 0 where
  pub read_cb : Bool
  pub read_buffer : SimpleBuffer
  pub write_queue : List WriteMetaInfo
  pub in_queue_write_buffer_byte_size : ℕ
  pub high_level_callback : Bool
  pub low_level_callback : Bool
  pub closing_callback : Bool
  pub high_level_callback_set : Bool
  pub read_registered : Bool
  pub write_registered : Bool
  pub peer_closed : Bool

-- What epoll watches of a descriptor: EPOLLIN and EPOLLOUT.
pub data Interest : Type 0 where
  absent : Interest
  watching : Bool → Bool → Interest

-- `epoll_ctl`, whose failures the source ignores: EPOLL_CTL_ADD fails on a descriptor that is
-- watched, EPOLL_CTL_MOD on one that is not.
abbrev pub ctl_add : Bool → Bool → Interest → Interest
ctl_add input output absent = watching input output
ctl_add input output (watching i o) = watching i o

abbrev pub modify_epoll_events : Bool → Bool → Interest → Interest
modify_epoll_events input output absent = absent
modify_epoll_events input output (watching i o) = watching input output

abbrev pub ctl_del : Interest → Interest
ctl_del w = absent

-- The callbacks that a handler calls, in order.
pub data Event : Type 0 where
  write_callback : ℕ → Bool → Event
  high_level : Event
  low_level : Event
  closing : Event

-- The connection after a handler, or its removal.
pub data Handled : Type 0 where
  kept : Connection → Interest → List Event → Handled
  closed : List Event → Handled

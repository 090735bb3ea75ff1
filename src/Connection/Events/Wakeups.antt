-- ===== src/Connection/Events/Wakeups.antt =====
-- No event is lost while the queues have room, and what happens when one has none.
use zephyr_server.Common.{◌+◌, ◌%◌, ◌^◌, ◌<◌, ◌≡◌, true, List, [], ◌∷◌, length}
use zephyr_server.Connection.Events.{
  Link, Call, send, disconnect, recv, net_closed, net_run, app_run,
}

-- The sender's number is ahead of the receiver's by the events under way.
pub record Counted (l : Link) : Type 0 where
  pub to_net : l.app_seq_num ≡ (l.net_confirm_num + length l.app_events) % 2 ^ 32
  pub to_app : l.net_seq_num ≡ (l.app_confirm_num + length l.net_events) % 2 ^ 32
  pub app_word : l.app_confirm_num < 2 ^ 32
  pub net_word : l.net_confirm_num < 2 ^ 32

-- `AddAppEvent` and `AddNetEvent` find room.
abbrev pub Roomy : Call → Type 0
Roomy (send room) = room ≡ true
Roomy (disconnect room) = room ≡ true
Roomy (recv room full) = room ≡ true
Roomy (net_closed room) = room ≡ true
Roomy (net_run room wrote) = room ≡ true
Roomy (app_run room) = room ≡ true

abbrev pub AllRoomy : List Call → Type 0
AllRoomy [] = Unit
AllRoomy (c ∷ cs) = Roomy c × AllRoomy cs

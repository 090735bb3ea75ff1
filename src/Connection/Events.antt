-- ===== src/Connection/Events.antt =====
-- The events by which the application's and the net's thread of a connection wake each other, in
-- Comm/Net/win/source/Connection.cpp, with the rounds of CNetTask::Run and CConnectionMgr::Run that handle one.
-- Each thread counts the events that it sends, and the other the events that it has taken; a new event is sent
-- only where the two numbers are equal. The queues are those of this connection alone; whether `AddAppEvent` or
-- `AddNetEvent` finds room in the shared queue is an argument.
pub mod Wakeups
pub mod Silence
mod Tests
use zephyr_server.Common.{
  ℕ, zero, suc, ◌+◌, ◌%◌, ◌^◌, Bool, true, false, ◌&&◌, List, [], ◌∷◌, ◌++◌, ◌==◌, if◌then◌else◌,
}
use zephyr_server.Connection.{State, using, broken, aborted, not_in_use, trying, established}

-- `EnConnectionEvent`, those that are sent here.
pub data Event : Type 0 where
  has_new_data_to_send has_new_data_to_read is_broken app_handled is_aborted : Event

-- The four numbers, the flags, the state, and the events under way to the net and to the application.
pub record Link : Type 0 where
  pub app_seq_num : ℕ
  pub net_confirm_num : ℕ
  pub net_seq_num : ℕ
  pub app_confirm_num : ℕ
  pub net_blocked : Bool
  pub app_disconnect : Bool
  pub net_disconnect : Bool
  pub state : State
  pub app_events : List Event
  pub net_events : List Event

-- `++` of a `TUInt32`
unfoldable pub next_num : ℕ → ℕ
next_num n = (n + 1) % 2 ^ 32

-- `AddAppEvent` and `AddNetEvent`
unfoldable pub put : Bool → Event → List Event → List Event
put room e q = if room then q ++ (e ∷ []) else q

-- `OnAppSend`
unfoldable pub on_app_send : Bool → Link → Link
unfolding next_num put
on_app_send room l =
    if l.app_seq_num == l.net_confirm_num
    then record l {
      app_seq_num = next_num l.app_seq_num;
      app_events = put room has_new_data_to_send l.app_events;
    }
    else l

-- `OnAppDisconnected`
unfoldable pub on_app_disconnected : Bool → Link → Link
unfolding next_num put
on_app_disconnected room l =
    if l.app_seq_num == l.net_confirm_num
    then record l {
      app_disconnect = true;
      app_seq_num = next_num l.app_seq_num;
      app_events = put room is_aborted l.app_events;
    }
    else record l { app_disconnect = true }

-- `OnNetSent`
unfoldable pub on_net_sent : Link → Link
unfolding next_num
on_net_sent l = record l { net_confirm_num = next_num l.net_confirm_num }

-- `OnNetRecv`; `full` says that the incoming pipe has no free byte.
unfoldable pub on_net_recv : Bool → Bool → Link → Link
unfolding next_num put
on_net_recv room full l =
    let blocked = if full then true else l.net_blocked in
    if l.net_seq_num == l.app_confirm_num
    then record l {
      net_blocked = blocked;
      net_seq_num = next_num l.net_seq_num;
      net_events = put room has_new_data_to_read l.net_events;
    }
    else record l { net_blocked = blocked }

-- `OnAppRecved`
unfoldable pub on_app_recved : Link → Link
unfolding next_num
on_app_recved l = record l { app_confirm_num = next_num l.app_confirm_num }

-- `OnAppHandled`
unfoldable pub on_app_handled : Bool → Link → Link
unfolding next_num put
on_app_handled room l =
    if l.net_blocked
    then record l {
      app_seq_num = next_num l.app_seq_num;
      net_blocked = if room then false else true;
      app_events = put room app_handled l.app_events;
    }
    else l

unfoldable pub is_using : State → Bool
is_using using = true
is_using s = false

-- `OnNetDisconnected`
unfoldable pub on_net_disconnected : Bool → Link → Link
unfolding next_num put is_using
on_net_disconnected room l =
    if is_using l.state
    then (if l.net_seq_num == l.app_confirm_num
        then record l {
          net_disconnect = true;
          state = broken;
          net_seq_num = next_num l.net_seq_num;
          net_events = put room is_broken l.net_events;
        }
        else record l { net_disconnect = true; state = broken })
    else l

-- `CheckAppDisconnected`, but for the socket.
unfoldable pub check_app_disconnected : Bool → Link → Link
unfolding on_net_disconnected
check_app_disconnected room l =
    if l.app_disconnect then record (on_net_disconnected room l) { state = aborted } else l

-- A round of `CNetTask::Run`: an event is taken, counted, and handled; `wrote` says that `NetRoutine` found
-- data to write, else it looks for the application's wish to disconnect.
unfoldable pub net_routine : Bool → Bool → Link → Link
unfolding is_using check_app_disconnected
net_routine room wrote l =
    if is_using l.state then (if wrote then l else check_app_disconnected room l) else l

unfoldable pub net_round : Bool → Bool → List Event → Link → Link
unfolding on_net_sent net_routine
net_round room wrote [] l = l
net_round room wrote (e ∷ q) l = net_routine room wrote (on_net_sent (record l { app_events = q }))

-- A round of `CConnectionMgr::Run`.
unfoldable pub app_round : Bool → List Event → Link → Link
unfolding on_app_recved on_app_handled
app_round room [] l = l
app_round room (e ∷ q) l = on_app_handled room (on_app_recved (record l { net_events = q }))

-- What the two threads do, one call after the other.
pub data Call : Type 0 where
  send disconnect : Bool → Call
  recv : Bool → Bool → Call
  net_closed : Bool → Call
  net_run : Bool → Bool → Call
  app_run : Bool → Call

unfoldable pub step : Call → Link → Link
unfolding on_app_send on_app_disconnected on_net_recv on_net_disconnected net_round app_round
step (send room) l = on_app_send room l
step (disconnect room) l = on_app_disconnected room l
step (recv room full) l = on_net_recv room full l
step (net_closed room) l = on_net_disconnected room l
step (net_run room wrote) l = net_round room wrote l.app_events l
step (app_run room) l = app_round room l.net_events l

unfoldable pub steps : List Call → Link → Link
unfolding step
steps [] l = l
steps (c ∷ cs) l = steps cs (step c l)

-- ===== src/Connection/Events/Silence.antt =====
-- What follows when the queue of events has no room once.
use zephyr_server.Common.{◌≡◌, ◌≢◌, sym, subst, Bool, false, List, [], ◌∷◌, arith}
use zephyr_server.Connection.Events.{
  Link, next_num, put, on_app_send, on_app_disconnected, on_net_recv, on_net_disconnected,
  net_round, Call, send, disconnect, recv, net_closed, net_run, app_run, step, steps,
}
use zephyr_server.Connection.Events.Wakeups.{Counted}

-- All but the rounds of the application's thread.
abbrev pub NoAppRun : List Call → Type 0
NoAppRun [] = Unit
NoAppRun (send room ∷ ks) = NoAppRun ks
NoAppRun (disconnect room ∷ ks) = NoAppRun ks
NoAppRun (recv room full ∷ ks) = NoAppRun ks
NoAppRun (net_closed room ∷ ks) = NoAppRun ks
NoAppRun (net_run room wrote ∷ ks) = NoAppRun ks
NoAppRun (app_run room ∷ ks) = ⊥

-- No event is under way to the net, and none will be sent.
record Silent (l : Link) : Type 0 where
  pub empty : l.app_events ≡ []
  pub ahead : l.app_seq_num ≢ l.net_confirm_num

send-Silent : (room : Bool) (l : Link) → Silent l → Silent (on_app_send room l)
unfolding on_app_send
send-Silent room l s = ground (arith, s.empty, s.ahead)

disconnect-Silent : (room : Bool) (l : Link) → Silent l → Silent (on_app_disconnected room l)
unfolding on_app_disconnected
disconnect-Silent room l s = ground (arith, s.empty, s.ahead)

recv-Silent : (room full : Bool) (l : Link) → Silent l → Silent (on_net_recv room full l)
unfolding on_net_recv
recv-Silent room full l s = ground (arith, s.empty, s.ahead)

net_closed-Silent : (room : Bool) (l : Link) → Silent l → Silent (on_net_disconnected room l)
unfolding on_net_disconnected
net_closed-Silent room l s = ground (arith, s.empty, s.ahead)

net_run-Silent :
    (room wrote : Bool) (l : Link) → Silent l → Silent (net_round room wrote l.app_events l)
unfolding net_round
net_run-Silent room wrote l s = subst (λ q. Silent (net_round room wrote q l)) (sym s.empty) s

steps-Silent : (ks : List Call) (l : Link) → NoAppRun ks → Silent l → Silent (steps ks l)
unfolding steps step
steps-Silent [] l n s = s
steps-Silent (send room ∷ ks) l n s = steps-Silent ks (on_app_send room l) n (send-Silent room l s)
steps-Silent (disconnect room ∷ ks) l n s =
    steps-Silent ks (on_app_disconnected room l) n (disconnect-Silent room l s)
steps-Silent (recv room full ∷ ks) l n s =
    steps-Silent ks (on_net_recv room full l) n (recv-Silent room full l s)
steps-Silent (net_closed room ∷ ks) l n s =
    steps-Silent ks (on_net_disconnected room l) n (net_closed-Silent room l s)
steps-Silent (net_run room wrote ∷ ks) l n s =
    steps-Silent ks (net_round room wrote l.app_events l) n (net_run-Silent room wrote l s)
steps-Silent (app_run room ∷ ks) l n s = absurd n

refused-Silent : (l : Link) → Counted l → l.app_events ≡ [] → Silent (on_app_send false l)
unfolding on_app_send put next_num
refused-Silent l c q = ground (arith, c.to_net, c.net_word)

-- Where no event is under way to the net and `OnAppSend` finds no room for its event in the shared queue, the
-- answer of `AddAppEvent` is not looked at and the number is counted up all the same; so from then on no event
-- is sent to the net, however often the application sends, or disconnects, and whether there is room again,
-- until the application's thread handles an event from the net.
pub refused-silences :
    (l : Link) (ks : List Call)
    → Counted l
    → l.app_events ≡ []
    → NoAppRun ks
    → (steps ks (on_app_send false l)).app_events ≡ []
refused-silences l ks c q n =
    let s = steps-Silent ks (on_app_send false l) n (refused-Silent l c q) in s.empty

-- ===== src/IpMaps/Connections.antt =====
-- The connections of the items.
use zephyr_server.Common.{ℕ, ◌≡◌, ◌≢◌, refl, ap, ◌∙◌, true, false, Option, none, some, ◌==◌, arith}
use zephyr_server.Doid.{Doid}
use zephyr_server.IpMaps.{
  IpMapItem, IpMap, set_item, route_to, item_of, connect_at, disconnect_at, on_connected,
  on_disconnected,
}

route_to-item_of :
    (m : IpMap) (d : Doid) (i : ℕ) → route_to m d ≡ some i → item_of m d.node_id d.virtual_ip ≡ i
unfolding route_to item_of
route_to-item_of m d i e = ground (arith, e)

route_to-connect_at :
    (m : IpMap) (d : Doid) (i at con now : ℕ) (if_con : Option ℕ)
    → route_to m d ≡ some i
    → route_to (connect_at at con if_con now m).1 d ≡ some i
unfolding route_to connect_at
route_to-connect_at m d i at con now if_con e = e

route_to-disconnect_at :
    (m : IpMap) (d : Doid) (i at later : ℕ)
    → route_to m d ≡ some i
    → route_to (disconnect_at at later m) d ≡ some i
unfolding route_to disconnect_at
route_to-disconnect_at m d i at later e = e

set_item-same : (at : ℕ) (v : IpMapItem) (m : IpMap) → (set_item at v m).virtual_ips at ≡ v
set_item-same at v m = let e : (at == at) ≡ true = ground arith in rw e refl

set_item-other :
    (at j : ℕ) (v : IpMapItem) (m : IpMap)
    → j ≢ at
    → (set_item at v m).virtual_ips j ≡ m.virtual_ips j
set_item-other at j v m n = let e : (j == at) ≡ false = ground arith in rw e refl

connect_at-lem :
    (m : IpMap) (at con now : ℕ) (if_con : Option ℕ)
    → let (old, m') = connect_at at con if_con now m in
      let item = m'.virtual_ips at in
      (old ≡ (m.virtual_ips at).comm_connection)
      × (item.comm_connection ≡ some con)
      × (item.if_connection ≡ if_con)
      × (item.last_used_time ≡ now)
      × ((j : ℕ) → j ≢ at → m'.virtual_ips j ≡ m.virtual_ips j)
unfolding connect_at
connect_at-lem m at con now if_con =
    let (_, m') = connect_at at con if_con now m in
    let same = set_item-same at _ m in
    (
      refl,
      ap (λ (z : IpMapItem). z.comm_connection) same,
      ap (λ (z : IpMapItem). z.if_connection) same,
      ap (λ (z : IpMapItem). z.last_used_time) same,
      λ j n. set_item-other at j _ m n,
    )

disconnect_at-lem :
    (m : IpMap) (at later : ℕ)
    → let m' = disconnect_at at later m in
      let item = m'.virtual_ips at in
      (item.comm_connection ≡ none)
      × (item.if_connection ≡ none)
      × ((j : ℕ) → j ≢ at → m'.virtual_ips j ≡ m.virtual_ips j)
unfolding disconnect_at
disconnect_at-lem m at later =
    let same = set_item-same at _ m in
    (
      ap (λ (z : IpMapItem). z.comm_connection) same,
      ap (λ (z : IpMapItem). z.if_connection) same,
      λ j n. set_item-other at j _ m n,
    )

-- Where `RouteTo` of an address gives an item: after `OnConnected` of a connection to the node and
-- virtual ip of the address it gives the same one, which then has that connection and its time, while
-- the connection that it had before is returned and every other item is as it was; and after
-- `OnDisconnected` it gives the same one, with no connection.
pub route_to-on_connected :
    (m : IpMap) (d : Doid) (i con now later : ℕ) (if_con : Option ℕ)
    → route_to m d ≡ some i
    → let (old, m') = on_connected con d.node_id d.virtual_ip if_con now m in
      let m'' = on_disconnected d.node_id d.virtual_ip later m' in
      (old ≡ (m.virtual_ips i).comm_connection)
      × (route_to m' d ≡ some i)
      × ((m'.virtual_ips i).comm_connection ≡ some con)
      × ((m'.virtual_ips i).if_connection ≡ if_con)
      × ((m'.virtual_ips i).last_used_time ≡ now)
      × (route_to m'' d ≡ some i)
      × ((m''.virtual_ips i).comm_connection ≡ none)
      × ((m''.virtual_ips i).if_connection ≡ none)
      × ((j : ℕ)
          → j ≢ i
          → (m'.virtual_ips j ≡ m.virtual_ips j) × (m''.virtual_ips j ≡ m.virtual_ips j))
unfolding on_connected on_disconnected
route_to-on_connected m d i con now later if_con e =
    let m' = (connect_at i con if_con now m).1 in
    let e' = route_to-connect_at m d i i con now if_con e in
    let at = route_to-item_of m d i e in
    let (old, a, b, c, other) = connect_at-lem m i con now if_con in
    let (a', b', other') = disconnect_at-lem m' i later in
    rw at (
      old,
      e',
      a,
      b,
      c,
      route_to-disconnect_at m' d i i later e',
      a',
      b',
      λ j n. (other j n, other' j n ∙ other j n),
    )

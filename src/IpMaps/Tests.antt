-- ===== src/IpMaps/Tests.antt =====
-- A table at concrete settings: three nodes of two virtual ips, of which virtual ip 1 of node 0 is here;
-- node 1 is linked to it, and node 2 to virtual ip 0.
use zephyr_server.Common.{
  ℕ, ◌+◌, ◌≤◌, ◌<◌, ◌≡◌, ◌≢◌, refl, none, some, [], ◌==◌, if◌then◌else◌, arith,
}
use zephyr_server.Doid.{Doid}
use zephyr_server.IpMaps.{
  Settings, ConPair, IpMap, new_item, read_item4node, init, route_to, on_connected, on_disconnected,
}
use zephyr_server.IpMaps.Routes.{init-route_to}
use zephyr_server.IpMaps.Connections.{route_to-on_connected}

abbrev settings : Settings
settings = record {
  nr_nodes = 3;
  nr_vips = 2;
  local_node = 0;
  local_vip = 1;
  node_vip = λ j. if j == 1 then 1 else 0;
  vip_ip = λ v. some 700;
  vip_port = λ v. 8000 + v;
  node_my_ip = λ j. some 700;
  node_remote_ip = λ j. some 900;
  node_my_port = λ j. 9000;
  node_remote_port = λ j. 9001;
}

abbrev far : Doid
far = record { obj_id = 5; srv_id = 6; virtual_ip = 0; node_id = 1 }

init-route_to_example :
    (m : IpMap) × (init settings 70 ≡ some m)
    × (3 ≤ far.node_id → route_to m far ≡ none)
    × (far.node_id ≡ 0
        → (2 ≤ far.virtual_ip → route_to m far ≡ none)
          × (far.virtual_ip < 2
              → (route_to m far ≡ some far.virtual_ip)
                × (far.virtual_ip < m.nr_items)
                × ((m.virtual_ips far.virtual_ip).node_id ≡ 0)
                × ((m.virtual_ips far.virtual_ip).virtual_ip ≡ far.virtual_ip)))
    × (far.node_id < 3
        → far.node_id ≢ 0
        → (i : ℕ) × (route_to m far ≡ some i)
          × (i < m.nr_items)
          × (settings.node_vip far.node_id ≡ 1
              → (2 ≤ i) × ((m.virtual_ips i).node_id ≡ far.node_id))
          × (settings.node_vip far.node_id ≢ 1
              → (i ≡ settings.node_vip far.node_id)
                × ((m.virtual_ips i).node_id ≡ 0)
                × ((m.virtual_ips i).virtual_ip ≡ i)))
unfolding read_item4node
init-route_to_example =
    init-route_to settings 70 700 far (omega arith) (omega arith) refl (λ j l n. ground arith)
      (λ j l n e. (key, refl))
  where
    key : ConPair
    key = record { remote_ip = 900; my_ip = 700; remote_port = 9001; my_port = 9000 }

abbrev table : IpMap
table = record {
  nr_nodes = 3;
  nr_vips = 2;
  local_node = 0;
  local_vip = 1;
  nr_items = 3;
  virtual_ips = λ b. new_item;
  routes = λ j. if j == 1 then 2 else 0;
  listening = [];
}

route_to-on_connected_example :
    let (old, m') = on_connected 70 far.node_id far.virtual_ip (some 71) 1000 table in
    let m'' = on_disconnected far.node_id far.virtual_ip 2000 m' in
    (old ≡ (table.virtual_ips 2).comm_connection)
    × (route_to m' far ≡ some 2)
    × ((m'.virtual_ips 2).comm_connection ≡ some 70)
    × ((m'.virtual_ips 2).if_connection ≡ some 71)
    × ((m'.virtual_ips 2).last_used_time ≡ 1000)
    × (route_to m'' far ≡ some 2)
    × ((m''.virtual_ips 2).comm_connection ≡ none)
    × ((m''.virtual_ips 2).if_connection ≡ none)
    × ((j : ℕ)
        → j ≢ 2
        → (m'.virtual_ips j ≡ table.virtual_ips j) × (m''.virtual_ips j ≡ table.virtual_ips j))
unfolding route_to
route_to-on_connected_example = route_to-on_connected table far 2 70 1000 2000 (some 71) refl

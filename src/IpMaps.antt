-- ===== src/IpMaps.antt =====
-- The table by which the communicator finds the connection to an address: `CIpMap` and `CIpMapItem`
-- (Comm/include/IpMaps.h, Comm/source/IpMaps.cpp) with `CConPair`
-- (Public/Interface/Platform/include/IfNetData.h). What the settings file says is a parameter, with
-- addresses as `inet_addr` gives them; an array is a function from its indices, of which `nr_items`
-- says how many there are. Connections are addresses.
pub mod Table
pub mod Filling
pub mod Routes
pub mod Connections
mod Tests
use zephyr_server.Common.{
  ℕ, zero, suc, ◌+◌, ◌-◌, ◌%◌, ◌^◌, Bool, true, false, not, ◌&&◌, ◌||◌, Option, none, some, List,
  [], ◌∷◌, ◌++◌, ltb, ◌==◌, if◌then◌else◌, ◌>>=◌,
}
use zephyr_server.Doid.{Doid}

-- The keys that `Init` reads; the first four are the values that the 16-bit members get.
pub record Settings : Type 0 where
  pub nr_nodes : ℕ
  pub nr_vips : ℕ
  pub local_node : ℕ
  pub local_vip : ℕ
  -- `localVIP` of a node
  pub node_vip : ℕ → ℕ
  -- `ip` and `port` of a virtual ip
  pub vip_ip : ℕ → Option ℕ
  pub vip_port : ℕ → ℕ
  -- `myIp`, `remoteIp`, `myPort` and `remotePort` of a node
  pub node_my_ip : ℕ → Option ℕ
  pub node_remote_ip : ℕ → Option ℕ
  pub node_my_port : ℕ → ℕ
  pub node_remote_port : ℕ → ℕ

pub record ConPair : Type 0 where
  pub remote_ip : ℕ
  pub my_ip : ℕ
  pub remote_port : ℕ
  pub my_port : ℕ

pub record IpMapItem : Type 0 where
  pub key : ConPair
  pub node_id : ℕ
  pub virtual_ip : ℕ
  pub last_used_time : ℕ
  pub comm_connection : Option ℕ
  pub if_connection : Option ℕ

-- `CIpMapItem()`
pub new_item : IpMapItem
new_item = record {
  key = record { remote_ip = 0; my_ip = 0; remote_port = 0; my_port = 0 };
  node_id = 0;
  virtual_ip = 0;
  last_used_time = 0;
  comm_connection = none;
  if_connection = none;
}

pub record IpMap : Type 0 where
  pub nr_nodes : ℕ
  pub nr_vips : ℕ
  pub local_node : ℕ
  pub local_vip : ℕ
  pub nr_items : ℕ
  pub virtual_ips : ℕ → IpMapItem
  pub routes : ℕ → ℕ
  pub listening : List ℕ

abbrev pub set_item : ℕ → IpMapItem → IpMap → IpMap
set_item a v m = record m { virtual_ips = λ b. if b == a then v else m.virtual_ips b }

abbrev pub set_route : ℕ → ℕ → IpMap → IpMap
set_route a v m = record m { routes = λ b. if b == a then v else m.routes b }

-- `IsPostive` of an item
pub is_positive : IpMap → IpMapItem → Bool
is_positive m item =
    ltb item.node_id m.local_node
    || (item.node_id == m.local_node && ltb item.virtual_ip m.local_vip)

-- `AddListeningExisted`
pub is_listening : IpMap → IpMapItem → List ℕ → Bool
is_listening m item [] = false
is_listening m item (i ∷ is) =
    let rest = is_listening m item is in
    let other = (m.virtual_ips i).key in
    (other.my_ip == item.key.my_ip && other.my_port == item.key.my_port) || rest

pub add_listening : ℕ → IpMap → IpMap
unfolding is_listening
add_listening i m =
    if is_listening m (m.virtual_ips i) m.listening
    then m
    else record m { listening = m.listening ++ (i % 2 ^ 16 ∷ []) }

-- The first loop of `Init`, over `count` nodes from `i` on: how many are linked to this virtual ip.
unfoldable pub count_linked : Settings → ℕ → ℕ → ℕ
count_linked c i zero = 0
count_linked c i (suc count) =
    let rest = count_linked c (suc i) count in
    if not (i == c.local_node) && (c.local_vip == c.node_vip i) then suc rest else rest

-- The second loop, over the virtual ips: one of them, and all. The section that it reads for the remote
-- address is the one of the local virtual ip.
unfoldable pub fill_vip : Settings → ℕ → ℕ → ℕ → IpMap → IpMap
unfolding is_positive add_listening
fill_vip c my_ip remote_ip i m =
    let item = record (m.virtual_ips i) { node_id = m.local_node; virtual_ip = i } in
    let local_port = c.vip_port m.local_vip % 2 ^ 16 in
    let remote_port = c.vip_port i % 2 ^ 16 in
    let key =
      if is_positive m item
      then record {
        remote_ip = remote_ip;
        my_ip = my_ip;
        remote_port = remote_port;
        my_port = (remote_port + m.local_vip + 2 ^ 16 - i) % 2 ^ 16;
      }
      else record {
        remote_ip = remote_ip;
        my_ip = my_ip;
        remote_port = (local_port + i + 2 ^ 16 - m.local_vip) % 2 ^ 16;
        my_port = local_port;
      } in
    let m' = set_item i (record item { key = key }) m in
    if i == m.local_vip then add_listening i m' else m'

unfoldable pub fill_vips : Settings → ℕ → ℕ → ℕ → IpMap → IpMap
unfolding fill_vip
fill_vips c ip i zero m = m
fill_vips c ip i (suc count) m = fill_vips c ip (suc i) count (fill_vip c ip ip i m)

-- `ReadIpMapItem4Node`, with none for -1.
unfoldable pub read_item4node : Settings → ℕ → Option ConPair
read_item4node c i = c.node_my_ip i >>= λ my_ip. c.node_remote_ip i >>= λ remote_ip.
    let my_port = c.node_my_port i % 2 ^ 16 in
    let remote_port = c.node_remote_port i % 2 ^ 16 in
    if remote_port == my_port && (remote_ip == my_ip)
    then none
    else some (record {
      remote_ip = remote_ip;
      my_ip = my_ip;
      remote_port = remote_port;
      my_port = my_port;
    })

-- The last loop, over the nodes: a node that is linked to this virtual ip, any node, and all, with
-- `usedNode`.
unfoldable pub fill_linked : ℕ → ℕ → ConPair → IpMap → IpMap
unfolding add_listening
fill_linked i used key m =
    let at = m.nr_vips + used in
    let item = record (m.virtual_ips at) { key = key; node_id = i; virtual_ip = 0 } in
    add_listening at (set_item at item (set_route i at m))

unfoldable pub fill_nodes : Settings → ℕ → ℕ → ℕ → IpMap → Option IpMap
unfolding fill_linked read_item4node add_listening
fill_nodes c i zero used m = some m
fill_nodes c i (suc count) used m =
    let local = fill_nodes c (suc i) count used (set_route i 0 m) in
    let linked = read_item4node c i >>= λ key.
    fill_nodes c (suc i) count (suc used) (fill_linked i used key m) in
    let other =
      fill_nodes c (suc i) count used
        (add_listening (c.node_vip i) (set_route i (c.node_vip i) m)) in
    if i == m.local_node then local else if m.local_vip == c.node_vip i then linked else other

-- `Init` (and `InitWithConfig`, the same over settings from memory), where `new` succeeds: the table
-- with its sizes, the routes where there are other nodes, the connection to oneself, and all; with none
-- for -1.
unfoldable pub new_ip_map : Settings → IpMap
unfolding count_linked
new_ip_map c = record {
  nr_nodes = c.nr_nodes;
  nr_vips = c.nr_vips;
  local_node = c.local_node;
  local_vip = c.local_vip;
  nr_items = c.nr_vips + (if ltb 1 c.nr_nodes then count_linked c 0 c.nr_nodes else 0);
  virtual_ips = λ b. new_item;
  routes = λ b. 0;
  listening = [];
}

unfoldable pub route_all : Settings → IpMap → Option IpMap
unfolding fill_nodes
route_all c m =
    if ltb 1 c.nr_nodes
    then fill_nodes c 0 c.nr_nodes 0 (set_route c.local_node c.local_vip m)
    else some m

abbrev pub set_self : ℕ → ℕ → IpMap → IpMap
set_self at self m = set_item at (record (m.virtual_ips at) { if_connection = some self }) m

pub init : Settings → ℕ → Option IpMap
unfolding new_ip_map route_all fill_vips
init c self = c.vip_ip c.local_vip >>= λ ip.
    route_all c (fill_vips c ip 0 c.nr_vips (new_ip_map c)) >>= λ m.
    some (set_self c.local_vip self m)

-- `operator==` of two `CConPair`, and `GetIpMapInfo`: the index of the first item with the key.
pub same_pair : ConPair → ConPair → Bool
same_pair a b =
    a.remote_ip == b.remote_ip
    && (a.my_ip == b.my_ip)
    && (a.remote_port == b.remote_port)
    && (a.my_port == b.my_port)

unfoldable pub find_from : IpMap → ConPair → ℕ → ℕ → Option ℕ
unfolding same_pair
find_from m key i zero = none
find_from m key i (suc count) =
    let rest = find_from m key (suc i) count in
    if same_pair key (m.virtual_ips i).key then some i else rest

pub get_ip_map_info : IpMap → ConPair → Option ℕ
unfolding find_from
get_ip_map_info m key = find_from m key 0 m.nr_items

-- `IsLocal` of an address, and `RouteTo`: the index of the item.
pub is_local : IpMap → Doid → Bool
is_local m d = d.node_id == m.local_node && d.virtual_ip == m.local_vip

pub route_to : IpMap → Doid → Option ℕ
route_to m d =
    if ltb d.node_id m.nr_nodes
    then (if d.node_id == m.local_node
        then (if ltb d.virtual_ip m.nr_vips then some d.virtual_ip else none)
        else some (m.routes d.node_id))
    else none

-- `OnConnected` and `OnDisconnected` of a connection to the virtual ip `vip` of node `node`, by the
-- item that they find.
pub item_of : IpMap → ℕ → ℕ → ℕ
item_of m node vip = if node == m.local_node then vip else m.routes node

pub connect_at : ℕ → ℕ → Option ℕ → ℕ → IpMap → Option ℕ × IpMap
connect_at at con if_con now m =
    let item = m.virtual_ips at in
    (
      item.comm_connection,
      set_item at
          (record item { comm_connection = some con; if_connection = if_con; last_used_time = now })
          m,
    )

pub on_connected : ℕ → ℕ → ℕ → Option ℕ → ℕ → IpMap → Option ℕ × IpMap
unfolding item_of connect_at
on_connected con node vip if_con now m = connect_at (item_of m node vip) con if_con now m

pub disconnect_at : ℕ → ℕ → IpMap → IpMap
disconnect_at at now m =
    set_item at
      (record (m.virtual_ips at) {
        comm_connection = none;
        if_connection = none;
        last_used_time = now;
      })
      m

pub on_disconnected : ℕ → ℕ → ℕ → IpMap → IpMap
unfolding item_of disconnect_at
on_disconnected node vip now m = disconnect_at (item_of m node vip) now m

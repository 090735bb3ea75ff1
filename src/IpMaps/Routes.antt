-- ===== src/IpMaps/Routes.antt =====
-- Where the table sends an address after `Init`.
use zephyr_server.Common.{
  ℕ, ◌+◌, ◌≤◌, ◌<◌, ◌≡◌, ◌≢◌, refl, sym, ap, ◌∙◌, subst, inl, inr, ltb, Option, none, some, ◌==◌,
  ==_iff, if◌then◌else◌, Bool-cases, arith,
}
use zephyr_server.Doid.{Doid}
use zephyr_server.IpMaps.{
  Settings, ConPair, IpMap, set_route, count_linked, fill_vips, read_item4node, new_ip_map,
  route_all, set_self, init, route_to,
}
use zephyr_server.IpMaps.Table.{Routed, Sizes, Sized, Own, Table}
use zephyr_server.IpMaps.Filling.{Table-shift, fill_nodes-Table, fill_vips-Own}

set_self-Table :
    (c : Settings) (items i used at self : ℕ) (m : IpMap)
    → Table c items i used m
    → Table c items i used (set_self at self m)
unfolding Own Routed
set_self-Table c items i used at self m t = record {
  sized = t.sized;
  own = λ v l. (node v ∙ (t.own v l).0, vip v ∙ (t.own v l).1);
  routed = λ j l n. (
    (t.routed j l n).0,
    λ g. (let (a, b, e) = (t.routed j l n).1 g in (a, b, node (m.routes j) ∙ e)),
  );
}
  where
    node : (b : ℕ) → ((set_self at self m).virtual_ips b).node_id ≡ (m.virtual_ips b).node_id
    node b = elim (Bool-cases (b == at)) [
      | inl e ↦ rw e (ap (λ z. (m.virtual_ips z).node_id) (sym ((==_iff b at).0 e)))
      | inr e ↦ rw e refl
    ]

    vip : (b : ℕ) → ((set_self at self m).virtual_ips b).virtual_ip ≡ (m.virtual_ips b).virtual_ip
    vip b = elim (Bool-cases (b == at)) [
      | inl e ↦ rw e (ap (λ z. (m.virtual_ips z).virtual_ip) (sym ((==_iff b at).0 e)))
      | inr e ↦ rw e refl
    ]

Complete : Settings → Type 0
Complete c =
    (j : ℕ)
    → j < c.nr_nodes
    → j ≢ c.local_node
    → c.node_vip j ≡ c.local_vip
    → (key : ConPair) × (read_item4node c j ≡ some key)

Result : Settings → Option IpMap → Type 0
Result c o = (used : ℕ) × (m : IpMap) × (o ≡ some m) × Table c (c.nr_vips + used) c.nr_nodes used m

route_all-Table :
    (c : Settings) (m : IpMap)
    → c.local_node < c.nr_nodes
    → Complete c
    → Sized c (c.nr_vips + (if ltb 1 c.nr_nodes then count_linked c 0 c.nr_nodes else 0)) m
    → Own c c.nr_vips m
    → Result c (route_all c m)
unfolding route_all Own Complete Result
route_all-Table c m node complete s o = elim (Bool-cases (ltb 1 c.nr_nodes)) [
  | inl e ↦
      (let (m', f, t) =
          fill_nodes-Table c (c.nr_vips + count_linked c 0 c.nr_nodes) c.nr_nodes 0 0
            (set_route c.local_node c.local_vip m)
            (record {
              sized =
                  subst
                    (λ b. Sized c (c.nr_vips + (if b then count_linked c 0 c.nr_nodes else 0)) m) e
                    s;
              own = o;
              routed = λ j l n. absurd (omega arith);
            })
            (λ j l. complete j (omega arith)) in
        (
          count_linked c 0 c.nr_nodes,
          m',
          rw e f,
          Table-shift c _ _ _ _ _ m' (omega arith) (omega arith) t,
        ))
  | inr e ↦ (
    0,
    m,
    rw e refl,
    record {
      sized =
          subst (λ b. Sized c (c.nr_vips + (if b then count_linked c 0 c.nr_nodes else 0)) m) e s;
      own = o;
      routed = λ j l n. absurd (n (ground arith));
    },
  )
]

init-Table :
    (c : Settings) (self ip : ℕ)
    → c.local_node < c.nr_nodes
    → c.vip_ip c.local_vip ≡ some ip
    → Complete c
    → Result c (init c self)
unfolding init new_ip_map Own Result
init-Table c self ip node given complete =
    let (s, o) =
      fill_vips-Own c _ ip c.nr_vips 0 (new_ip_map c) refl (λ i l. absurd (omega arith)) in
    let (used, m, e, t) =
      route_all-Table c (fill_vips c ip 0 c.nr_vips (new_ip_map c)) node complete s
        (λ i l. o i (omega arith)) in
    (
      used,
      set_self c.local_vip self m,
      rw (given, e) refl,
      set_self-Table c (c.nr_vips + used) c.nr_nodes used c.local_vip self m t,
    )

-- Where the numbers in the settings name a local node and a local virtual ip that there are, the
-- address of the local virtual ip is given, each other node has a `localVIP` that there is, and the
-- section of each node linked to the local virtual ip can be read: `Init` succeeds, and afterwards
-- `RouteTo` of an address refuses a node that there is not, and a virtual ip of the local node that
-- there is not; sends every other address of the local node to the item of its virtual ip; sends an
-- address of a node that is linked here to an item of that node, behind those of the virtual ips; and
-- sends one of any other node to the item of the virtual ip that the node is linked to. Each index
-- that it gives is one of the items of the table.
pub init-route_to :
    (c : Settings) (self ip : ℕ) (d : Doid)
    → c.local_node < c.nr_nodes
    → c.local_vip < c.nr_vips
    → c.vip_ip c.local_vip ≡ some ip
    → ((j : ℕ) → j < c.nr_nodes → j ≢ c.local_node → c.node_vip j < c.nr_vips)
    → ((j : ℕ)
        → j < c.nr_nodes
        → j ≢ c.local_node
        → c.node_vip j ≡ c.local_vip
        → (key : ConPair) × (read_item4node c j ≡ some key))
    → (m : IpMap) × (init c self ≡ some m)
      × (c.nr_nodes ≤ d.node_id → route_to m d ≡ none)
      × (d.node_id ≡ c.local_node
          → (c.nr_vips ≤ d.virtual_ip → route_to m d ≡ none)
            × (d.virtual_ip < c.nr_vips
                → (route_to m d ≡ some d.virtual_ip)
                  × (d.virtual_ip < m.nr_items)
                  × ((m.virtual_ips d.virtual_ip).node_id ≡ c.local_node)
                  × ((m.virtual_ips d.virtual_ip).virtual_ip ≡ d.virtual_ip)))
      × (d.node_id < c.nr_nodes
          → d.node_id ≢ c.local_node
          → (i : ℕ) × (route_to m d ≡ some i)
            × (i < m.nr_items)
            × (c.node_vip d.node_id ≡ c.local_vip
                → (c.nr_vips ≤ i) × ((m.virtual_ips i).node_id ≡ d.node_id))
            × (c.node_vip d.node_id ≢ c.local_vip
                → (i ≡ c.node_vip d.node_id)
                  × ((m.virtual_ips i).node_id ≡ c.local_node)
                  × ((m.virtual_ips i).virtual_ip ≡ i)))
unfolding route_to Own Routed Result Complete
init-route_to c self ip d node vip given linked complete =
    let (used, m, e, t) = init-Table c self ip node given complete in
    let nodes : m.nr_nodes ≡ c.nr_nodes = ap (λ (k : Sizes). k.0) t.sized in
    let vips : m.nr_vips ≡ c.nr_vips = ap (λ (k : Sizes). k.1) t.sized in
    let local : m.local_node ≡ c.local_node = ap (λ (k : Sizes). k.2) t.sized in
    let items : m.nr_items ≡ c.nr_vips + used = ap (λ (k : Sizes). k.4) t.sized in
    (
      m,
      e,
      (λ l. ground arith),
      (λ f. (
        (λ l. ground arith),
        λ l. (ground arith, omega arith, (t.own d.virtual_ip l).0, (t.own d.virtual_ip l).1),
      )),
      λ l n.
          (let (a, b) = t.routed d.node_id l n in
            (
              m.routes d.node_id,
              ground arith,
              elim (Bool-cases (c.node_vip d.node_id == c.local_vip)) [
                | inl f ↦
                    subst (λ z. m.routes d.node_id < z) (sym items)
                      ((b ((==_iff (c.node_vip d.node_id) c.local_vip).0 f)).1)
                | inr f ↦
                    (let g = a (λ q. ground arith) in let h = linked d.node_id l n in omega arith)
              ],
              (λ f. ((b f).0, (b f).2)),
              λ f.
                  (let own =
                      t.own (m.routes d.node_id)
                        (subst (λ z. z < c.nr_vips) (sym (a f)) (linked d.node_id l n)) in
                    (a f, own.0, own.1)),
            )),
    )

-- ===== src/IpMaps/Table.antt =====
-- What the table holds while `Init` fills it.
use zephyr_server.Common.{
  ℕ, suc, ◌+◌, ◌^◌, ◌≤◌, ◌<◌, ◌≡◌, ◌≢◌, refl, sym, ap, ◌∙◌, inl, inr, true, false, List, [], ◌∷◌,
  ◌++◌, ◌%◌, ◌==◌, ==_iff, Bool-cases, arith,
}
use zephyr_server.IpMaps.{
  Settings, ConPair, IpMap, set_item, set_route, is_listening, add_listening, fill_linked,
}

-- The route of node `j`.
unfoldable pub Routed : Settings → ℕ → IpMap → ℕ → Type 0
Routed c used m j =
    (c.node_vip j ≢ c.local_vip → m.routes j ≡ c.node_vip j)
    × (c.node_vip j ≡ c.local_vip
        → (c.nr_vips ≤ m.routes j)
          × (m.routes j < c.nr_vips + used)
          × ((m.virtual_ips (m.routes j)).node_id ≡ j))

abbrev pub Sizes : Type 0
Sizes = ℕ × ℕ × ℕ × ℕ × ℕ

abbrev pub sizes : IpMap → Sizes
sizes m = (m.nr_nodes, m.nr_vips, m.local_node, m.local_vip, m.nr_items)

abbrev pub Sized : Settings → ℕ → IpMap → Type 0
Sized c items m = sizes m ≡ (c.nr_nodes, c.nr_vips, c.local_node, c.local_vip, items)

-- The items of the virtual ips before `v`.
unfoldable pub Own : Settings → ℕ → IpMap → Type 0
Own c v m =
    (i : ℕ)
    → i < v
    → ((m.virtual_ips i).node_id ≡ c.local_node) × ((m.virtual_ips i).virtual_ip ≡ i)

pub record Table (c : Settings) (items i used : ℕ) (m : IpMap) : Type 0 where
  pub sized : Sized c items m
  pub own : Own c c.nr_vips m
  pub routed : (j : ℕ) → j < i → j ≢ c.local_node → Routed c used m j

unfoldable pub listen : List ℕ → IpMap → IpMap
listen l m = record m { listening = l }

pub add_listening-listen : (i : ℕ) (m : IpMap) → (l : List ℕ) × (add_listening i m ≡ listen l m)
unfolding add_listening listen
add_listening-listen i m = elim (Bool-cases (is_listening m (m.virtual_ips i) m.listening)) [
  | inl e ↦ (m.listening, rw e refl)
  | inr e ↦ (m.listening ++ (i % 2 ^ 16 ∷ []), rw e refl)
]

Table-listen :
    (c : Settings) (items i used : ℕ) (m : IpMap) (l : List ℕ)
    → Table c items i used m
    → Table c items i used (listen l m)
unfolding listen Own Routed
Table-listen c items i used m l t = record { sized = t.sized; own = t.own; routed = t.routed }

pub Table-add_listening :
    (c : Settings) (items i used n : ℕ) (m : IpMap)
    → Table c items i used m
    → Table c items i used (add_listening n m)
Table-add_listening c items i used n m t =
    let (l, e) = add_listening-listen n m in rw e (Table-listen c items i used m l t)

-- The next node is the local one, one that is not linked here, or one that is.
pub Table-local :
    (c : Settings) (items i used v : ℕ) (m : IpMap)
    → Table c items i used m
    → i ≡ c.local_node
    → Table c items (suc i) used (set_route i v m)
unfolding Own Routed
Table-local c items i used v m t e = record {
  sized = t.sized;
  own = t.own;
  routed = λ j l n.
      (let differ : (j == i) ≡ false = ground arith in rw differ (t.routed j (omega arith) n));
}

pub Table-other :
    (c : Settings) (items i used : ℕ) (m : IpMap)
    → Table c items i used m
    → c.node_vip i ≢ c.local_vip
    → Table c items (suc i) used (set_route i (c.node_vip i) m)
unfolding Own Routed
Table-other c items i used m t f = record {
  sized = t.sized;
  own = t.own;
  routed = λ j l n. elim (Bool-cases (j == i)) [
    | inl e ↦ rw e (
      (λ g. ap c.node_vip (sym ((==_iff j i).0 e))),
      λ g. absurd (f (ap c.node_vip (sym ((==_iff j i).0 e)) ∙ g)),
    )
    | inr e ↦ rw e (t.routed j (ground arith) n)
  ];
}

pub Table-linked :
    (c : Settings) (items i used : ℕ) (key : ConPair) (m : IpMap)
    → Table c items i used m
    → c.node_vip i ≡ c.local_vip
    → Table c items (suc i) (suc used) (fill_linked i used key m)
unfolding Own Routed fill_linked
Table-linked c items i used key m t f =
    let at = m.nr_vips + used in
    let vips : m.nr_vips ≡ c.nr_vips = ap (λ (k : Sizes). k.1) t.sized in
    Table-add_listening c items (suc i) (suc used) at
      (set_item at (record (m.virtual_ips at) { key = key; node_id = i; virtual_ip = 0 })
        (set_route i at m))
      (record {
        sized = t.sized;
        own = λ v l. (let differ : (v == at) ≡ false = ground arith in rw differ (t.own v l));
        routed = λ j l n. elim (Bool-cases (j == i)) [
          | inl e ↦ rw e (
            (λ g. absurd (g (ap c.node_vip ((==_iff j i).0 e) ∙ f))),
            λ g. (
              omega arith,
              omega arith,
              (let k : (at == at) ≡ true = ground arith in rw k (sym ((==_iff j i).0 e))),
            ),
          )
          | inr e ↦ (
            (λ g. rw e ((t.routed j (ground arith) n).0 g)),
            λ g.
                (let (a, b, d) = (t.routed j (ground arith) n).1 g in
                  let differ : (m.routes j == at) ≡ false = ground arith in
                  rw (e, differ) (a, omega arith, d)),
          )
        ];
      })

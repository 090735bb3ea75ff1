-- ===== src/IpMaps/Filling.antt =====
-- The loops of `Init`.
use zephyr_server.Common.{
  ℕ, zero, suc, ◌+◌, ◌<◌, ◌≡◌, ◌≢◌, refl, sym, ap, ◌∙◌, subst, inl, inr, Bool, true, false, some,
  ◌==◌, ==_iff, if◌then◌else◌, Bool-cases, arith,
}
use zephyr_server.IpMaps.{
  Settings, ConPair, IpMap, set_item, set_route, add_listening, count_linked, fill_vip, fill_vips,
  read_item4node, fill_linked, fill_nodes,
}
use zephyr_server.IpMaps.Table.{
  Sizes, Sized, Own, Table, listen, add_listening-listen, Table-add_listening, Table-local,
  Table-other, Table-linked,
}

pub Table-shift :
    (c : Settings) (items i j used more : ℕ) (m : IpMap)
    → i ≡ j
    → used ≡ more
    → Table c items i used m
    → Table c items j more m
Table-shift c items i j used more m e f t =
    subst (λ k. Table c items j k m) f (subst (λ k. Table c items k used m) e t)

-- The loop over the nodes ends, with every node routed.
pub fill_nodes-Table :
    (c : Settings) (items count i used : ℕ) (m : IpMap)
    → Table c items i used m
    → ((j : ℕ)
        → j < i + count
        → j ≢ c.local_node
        → c.node_vip j ≡ c.local_vip
        → (key : ConPair) × (read_item4node c j ≡ some key))
    → (m' : IpMap) × (fill_nodes c i count used m ≡ some m')
      × Table c items (i + count) (used + count_linked c i count) m'
unfolding fill_nodes count_linked
fill_nodes-Table c items zero i used m t complete =
    (m, refl, Table-shift c items i (i + 0) used (used + 0) m (omega arith) (omega arith) t)
fill_nodes-Table c items (suc count) i used m t complete =
    let local_vip : m.local_vip ≡ c.local_vip = ap (λ (k : Sizes). k.3) t.sized in
    let local_node : m.local_node ≡ c.local_node = ap (λ (k : Sizes). k.2) t.sized in
    elim (Bool-cases (i == c.local_node)) [
      | inl e ↦
          (let (m', f, t') =
              fill_nodes-Table c items count (suc i) used (set_route i 0 m)
                (Table-local c items i used 0 m t ((==_iff i c.local_node).0 e))
                (λ j l. complete j (omega arith)) in
            (
              m',
              rw (ap (λ z. i == z) local_node ∙ e) f,
              Table-shift c items _ _ _ _ m' (omega arith) (rw e refl) t',
            ))
      | inr e ↦ elim (Bool-cases (c.local_vip == c.node_vip i)) [
        | inl g ↦
            (let vip = sym ((==_iff c.local_vip (c.node_vip i)).0 g) in
              let (key, k) = complete i (omega arith) (λ q. ground arith) vip in
              let (m', f, t') =
                fill_nodes-Table c items count (suc i) (suc used) (fill_linked i used key m)
                  (Table-linked c items i used key m t vip) (λ j l. complete j (omega arith)) in
              (
                m',
                rw (ap (λ z. i == z) local_node ∙ e, ap (λ z. z == c.node_vip i) local_vip ∙ g, k)
                    f,
                Table-shift c items _ _ _ _ m' (omega arith) (rw (e, g) (omega arith)) t',
              ))
        | inr g ↦
            (let (m', f, t') =
                fill_nodes-Table c items count (suc i) used
                  (add_listening (c.node_vip i) (set_route i (c.node_vip i) m))
                  (Table-add_listening c items (suc i) used (c.node_vip i)
                    (set_route i (c.node_vip i) m)
                    (Table-other c items i used m t (λ q. ground arith)))
                  (λ j l. complete j (omega arith)) in
              (
                m',
                rw (ap (λ z. i == z) local_node ∙ e, ap (λ z. z == c.node_vip i) local_vip ∙ g) f,
                Table-shift c items _ _ _ _ m' (omega arith) (rw (e, g) refl) t',
              ))
      ]
    ]

set_item-Own :
    (c : Settings) (items i : ℕ) (key : ConPair) (m : IpMap)
    → Sized c items m
    → Own c i m
    → Own c (suc i) (
        set_item i
          (record (m.virtual_ips i) { key = key; node_id = m.local_node; virtual_ip = i })
          m)
unfolding Own
set_item-Own c items i key m s o = λ v l. elim (Bool-cases (v == i)) [
  | inl e ↦ rw e (ap (λ (k : Sizes). k.2) s, sym ((==_iff v i).0 e))
  | inr e ↦ rw e (o v (ground arith))
]

add_listening-Own :
    (c : Settings) (items i n : ℕ) (m : IpMap)
    → Sized c items m
    → Own c i m
    → Sized c items (add_listening n m) × Own c i (add_listening n m)
unfolding listen Own
add_listening-Own c items i n m s o = let (l, e) = add_listening-listen n m in rw e (s, o)

-- The last of the branches of the loop over the virtual ips.
either {ℓ κ} :
    {A : Type ℓ} (P : A → Type κ) (b : Bool) (x y : A) → P x → P y → P (if b then x else y)
either P true x y p q = p
either P false x y p q = q

fill_vip-Own :
    (c : Settings) (items ip i : ℕ) (m : IpMap)
    → Sized c items m
    → Own c i m
    → Sized c items (fill_vip c ip ip i m) × Own c (suc i) (fill_vip c ip ip i m)
unfolding fill_vip
fill_vip-Own c items ip i m s o =
    let o' = set_item-Own c items i _ m s o in
    either (λ q. Sized c items q × Own c (suc i) q) (i == m.local_vip) _ _
      (add_listening-Own c items (suc i) i _ s o') (s, o')

pub fill_vips-Own :
    (c : Settings) (items ip count i : ℕ) (m : IpMap)
    → Sized c items m
    → Own c i m
    → let m' = fill_vips c ip i count m in Sized c items m' × Own c (i + count) m'
unfolding fill_vips
fill_vips-Own c items ip zero i m s o = (s, subst (λ k. Own c k m) (omega arith) o)
fill_vips-Own c items ip (suc count) i m s o =
    let (s', o') = fill_vip-Own c items ip i m s o in
    let (s'', o'') = fill_vips-Own c items ip count (suc i) (fill_vip c ip ip i m) s' o' in
    (
      s'',
      subst (λ k. Own c k (fill_vips c ip (suc i) count (fill_vip c ip ip i m))) (omega arith) o'',
    )

-- ===== src/TplList/Single.antt =====
-- Lists with one node or none.
use zephyr_server.Common.{
  ℕ, ◌≡◌, refl, ap, ◌∙◌, Bool, true, false, none, some, if◌then◌else◌, arith,
}
use zephyr_server.TplList.{
  Heap, CList, same, attach_list, set_prev, set_next, insert_node, detach_from, push_front,
  push_front_at, push_back, push_back_at,
}
use zephyr_server.TplList.Ends.{pop_front_one}

-- The list has the one node `b` where `v`, and none otherwise; its size is not looked at.
pub record Shows (l : CList) (b : ℕ) (v : Bool) : Type 0 where
  pub header : l.header ≡ (if v then some b else none)
  pub rear : l.rear ≡ (if v then some b else none)

pub push_front-Shows :
    (l : CList) (b : ℕ) (h : Heap)
    → Shows l b false
    → let (l', h') = push_front b l h in Shows l' b true × (h' ≡ h)
unfolding push_front push_front_at
push_front-Shows l b h s =
    let e : push_front b l h ≡ push_front_at none b l h =
      ap (λ o. push_front_at o b l h) s.header in
    rw e (record { header = refl; rear = refl }, refl)

pub push_back-Shows :
    (l : CList) (b : ℕ) (h : Heap)
    → Shows l b false
    → let (l', h') = push_back b l h in Shows l' b true × (h' ≡ h)
unfolding push_back push_back_at
push_back-Shows l b h s =
    let e : push_back b l h ≡ push_back_at none b l h = ap (λ o. push_back_at o b l h) s.rear in
    rw e (record { header = refl; rear = refl }, refl)

pub detach_from-Shows :
    (l : CList) (b : ℕ) (h : Heap)
    → Shows l b true
    → let (l', h') = detach_from l b h in Shows l' b false × (h' ≡ h)
unfolding detach_from
detach_from-Shows l b h s =
    let first : same (some b) l.header ≡ true = ap (same (some b)) s.header ∙ ground arith in
    rw (pop_front_one l h b s.header s.rear, first) (record { header = refl; rear = refl }, refl)

pub insert_node-next : (a b : ℕ) (h : Heap) → (insert_node a (some b) h a).next ≡ some b
unfolding insert_node
insert_node-next a b h = ground arith

pub attach_list-none : (r : ℕ) (h : Heap) → attach_list r none h ≡ set_next r none h
unfolding attach_list
attach_list-none r h = refl

pub attach_list-some :
    (r u : ℕ) (h : Heap) → attach_list r (some u) h ≡ set_next r (some u) (set_prev u (some r) h)
unfolding attach_list
attach_list-some r u h = refl

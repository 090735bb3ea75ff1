-- ===== src/TplPool/Pool/Recycling.antt =====
-- A block that comes back from the list of full blocks while the main block is alone in the other.
use zephyr_server.Common.{
  ℕ, ◌≡◌, ◌≢◌, refl, sym, ap, ap₂, ◌∙◌, subst, Bool, true, false, not, some, some≢none, List, [],
  ◌∷◌, ◌==◌, if◌then◌else◌, arith,
}
use zephyr_server.TplList.{Heap, CList, same}
use zephyr_server.TplList.Chains.{last_from, Distinct, Chain, Holds, Away-last}
use zephyr_server.TplList.Single.{Shows, insert_node-next}
use zephyr_server.TplPool.MemBlock.{can_recycle}
use zephyr_server.TplPool.Pool.{Pool, detach_block, insert_from, put_recycled}

-- A list whose first node is its rear has no second node.
second_lost :
    (l : CList) (h : Heap) (m b : ℕ) (xs : List ℕ)
    → Shows l m true
    → (h m).next ≡ some b
    → ¬ Holds l h xs
unfolding Chain Distinct
second_lost l h m b [] s e k = some≢none (sym s.header ∙ k.header_first)
second_lost l h m b (x ∷ []) s e k =
    let x_m : some m ≡ some x = sym s.header ∙ k.header_first in
    let m_x : m ≡ x = cc in some≢none (sym e ∙ ap (λ z. (h z).next) m_x ∙ k.chained.1)
second_lost l h m b (x ∷ y ∷ ys) s e k =
    let x_m : some m ≡ some x = sym s.header ∙ k.header_first in
    let l_m : some m ≡ some (last_from y ys) = sym s.rear ∙ k.rear_last in
    let m_x : m ≡ x = cc in
    let m_l : m ≡ last_from y ys = cc in Away-last x y ys (k.distinct.0) (sym m_x ∙ m_l)

-- The branch of `OnBlockRecycled` that inserts the block.
if_last {ℓ} :
    {A : Type ℓ} {w x y z : Bool} (a b c d e : A)
    → w ≡ false
    → x ≡ false
    → y ≡ true
    → z ≡ true
    → (if not w then (if x then a else if y then (if z then b else c) else d) else e) ≡ b
if_last a b c d e p q r s = rw (p, q, r, s) refl

-- `OnBlockRecycled` of a block from the list of full blocks, not the main one and with an item still
-- handed out, while the main block is alone in the other list: `InsertNode` makes it the next of the
-- main block, but the rear of that list stays the main block, so the list is the list of no sequence of
-- blocks any more.
pub put_recycled-loses :
    (p : Pool) (m b : ℕ)
    → p.main_block ≡ some m
    → Shows p.using_blocks m true
    → p.in_full b ≡ true
    → b ≢ m
    → can_recycle (p.blocks b) ≡ false
    → let q = put_recycled b p in
      ((q.links m).next ≡ some b)
      × (q.using_blocks.rear ≡ some m)
      × ((xs : List ℕ) → ¬ Holds q.using_blocks q.links xs)
unfolding put_recycled detach_block insert_from
put_recycled-loses p m b main s f n c =
    let out = detach_block b p in
    let other : same (some b) p.main_block ≡ false =
      ap (same (some b)) main ∙ (let k : (b == m) ≡ false = ground arith in k) in
    let kept : out.using_blocks ≡ p.using_blocks = rw f refl in
    let shown : Shows out.using_blocks m true = subst (λ l. Shows l m true) (sym kept) s in
    let front : same p.main_block out.using_blocks.header ≡ true =
      ap₂ same main shown.header ∙ (let k : (m == m) ≡ true = ground arith in k) in
    let moved : put_recycled b p ≡ insert_from (some m) b out =
      if_last _ _ _ _ _ other c f front ∙ ap (λ o. insert_from o b out) main in
    let next = insert_node-next m b out.links in
    rw moved (next, shown.rear, λ xs. second_lost out.using_blocks _ m b xs shown next)

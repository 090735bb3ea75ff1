-- ===== src/TplList.antt =====
-- The list of nodes that hold their own links: `CList` (Public/TPL/include/TplList.h) over the links
-- that `DECLARE_CLASS_LIST` puts into a class (Public/include/SysMacros.h). A pointer is an address or
-- `none` for null; the links of all nodes are the heap.
pub mod Chains
pub mod Ends
pub mod Back
pub mod Whole
pub mod Single
pub mod Sessions
pub mod Middle
mod Tests
use zephyr_server.Common.{
  ℕ, Bool, true, false, Option, none, some, ◌==◌, if◌then◌else◌, add32, sub32,
}

-- `m_pPrev` and `m_pNext` of a node.
pub record Links : Type 0 where
  pub prev : Option ℕ
  pub next : Option ℕ

abbrev pub Heap : Type 0
Heap = ℕ → Links

abbrev pub set_prev : ℕ → Option ℕ → Heap → Heap
set_prev a v h = λ b. if b == a then record (h b) { prev = v } else h b

abbrev pub set_next : ℕ → Option ℕ → Heap → Heap
set_next a v h = λ b. if b == a then record (h b) { next = v } else h b

-- The stores under `if(m_pPrev)` and `if(m_pNext)`.
abbrev pub set_prev_of : Option ℕ → Option ℕ → Heap → Heap
set_prev_of none v h = h
set_prev_of (some a) v h = set_prev a v h

abbrev pub set_next_of : Option ℕ → Option ℕ → Heap → Heap
set_next_of none v h = h
set_next_of (some a) v h = set_next a v h

-- `Detach`, `AttachList` and `InsertNode` of the node at `this`.
pub detach : ℕ → Heap → Heap
detach this h =
    let h1 = set_next_of (h this).prev (h this).next h in
    let h2 = set_prev_of (h1 this).next (h1 this).prev h1 in
    set_prev this none (set_next this none h2)

pub attach_list : ℕ → Option ℕ → Heap → Heap
attach_list this p h = set_next this p (set_prev_of p (some this) h)

pub insert_node : ℕ → Option ℕ → Heap → Heap
insert_node this p h =
    let h1 = set_prev_of p (some this) h in
    let h2 = set_next_of p (h1 this).next h1 in set_next this p h2

pub record CList : Type 0 where
  pub header : Option ℕ
  pub rear : Option ℕ
  pub size : ℕ

-- `CList()` and `clear`
unfoldable pub empty_list : CList
empty_list = record { header = none; rear = none; size = 0 }

pub clear : CList → CList
clear l = record { header = none; rear = none; size = 0 }

-- `==` of two pointers.
abbrev pub same : Option ℕ → Option ℕ → Bool
same none none = true
same none (some b) = false
same (some a) none = false
same (some a) (some b) = a == b

-- `pop_front` by the header, `pop_back` by the rear: the node, the list and the heap.
pub pop_front_from : Option ℕ → CList → Heap → Option ℕ × CList × Heap
unfolding detach
pop_front_from none l h = (none, l, h)
pop_front_from (some r) l h =
    if same l.header l.rear
    then (some r, record { header = none; rear = none; size = sub32 l.size 1 }, h)
    else (some r, record l { header = (h r).next; size = sub32 l.size 1 }, detach r h)

pub pop_front : CList → Heap → Option ℕ × CList × Heap
unfolding pop_front_from
pop_front l h = pop_front_from l.header l h

pub pop_back_from : Option ℕ → CList → Heap → Option ℕ × CList × Heap
unfolding detach
pop_back_from none l h = (none, l, h)
pop_back_from (some r) l h =
    if same l.header l.rear
    then (some r, record { header = none; rear = none; size = sub32 l.size 1 }, h)
    else (some r, record l { rear = (h r).prev; size = sub32 l.size 1 }, detach r h)

pub pop_back : CList → Heap → Option ℕ × CList × Heap
unfolding pop_back_from
pop_back l h = pop_back_from l.rear l h

-- `push_front` by the header and `push_back` by the rear.
pub push_front_at : Option ℕ → ℕ → CList → Heap → CList × Heap
unfolding attach_list
push_front_at none p l h = (record { header = some p; rear = some p; size = add32 l.size 1 }, h)
push_front_at (some r) p l h =
    (record l { header = some p; size = add32 l.size 1 }, attach_list p (some r) h)

pub push_front : ℕ → CList → Heap → CList × Heap
unfolding push_front_at
push_front p l h = push_front_at l.header p l h

pub push_back_at : Option ℕ → ℕ → CList → Heap → CList × Heap
unfolding attach_list
push_back_at none p l h = (record { header = some p; rear = some p; size = add32 l.size 1 }, h)
push_back_at (some r) p l h =
    (record l { rear = some p; size = add32 l.size 1 }, attach_list r (some p) h)

pub push_back : ℕ → CList → Heap → CList × Heap
unfolding push_back_at
push_back p l h = push_back_at l.rear p l h

-- `CList::Detach`: `pop_front` and `pop_back` count the size down, and so does the end of `Detach`.
pub detach_from : CList → ℕ → Heap → CList × Heap
unfolding pop_front pop_back detach
detach_from l p h =
    let (_, front, front_heap) = pop_front l h in
    let (_, back, back_heap) = pop_back l h in
    if same (some p) l.header
    then (record front { size = sub32 front.size 1 }, front_heap)
    else if same (some p) l.rear
    then (record back { size = sub32 back.size 1 }, back_heap)
    else (record l { size = sub32 l.size 1 }, detach p h)

-- `HandleOver` to another list: both lists and the heap.
pub handle_over : CList → CList → ℕ → Heap → CList × CList × Heap
unfolding detach_from push_front
handle_over l to p h =
    let (l', h') = detach_from l p h in let (to', h'') = push_front p to h' in (l', to', h'')

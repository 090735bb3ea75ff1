-- ===== src/TplPool/ItemPool.antt =====
-- `ItemClassPool` (Public/TPL/include/TplPool.h), and the `IsActived` of the connections of the
-- communicator (Comm/source/CommConnection.cpp). An item is its index in `m_pItemPool`; its
-- `OnInit` and `OnFinal` are not modelled.
pub mod Leak
use zephyr_server.Common.{
  ℕ, zero, suc, ◌+◌, ◌-◌, Bool, true, false, not, Option, none, some, if◌then◌else◌, add32, sub32,
}
use zephyr_server.TplList.{Heap, same, detach, attach_list}

pub record ItemPool : Type 0 where
  pub max_num : ℕ
  pub free_num : ℕ
  pub free_header : Option ℕ
  pub free_rear : Option ℕ
  pub used : Option ℕ
  pub links : Heap

-- The loop of `Init` over `count` items behind the one at `rear`.
unfoldable pub link_rest : ℕ → ℕ → Heap → Heap
link_rest zero rear h = h
link_rest (suc count) rear h = link_rest count (suc rear) (attach_list rear (some (suc rear)) h)

-- `Init` of at least one item, where `new` succeeds: the links of new items are null.
pub init_items : ℕ → ItemPool
unfolding link_rest
init_items n = record {
  max_num = n;
  free_num = n;
  free_header = some 0;
  free_rear = some (n - 1);
  used = none;
  links = link_rest (n - 1) 0 (λ b. record { prev = none; next = none });
}

-- `GetItem`, by the header.
pub get_item_at : Option ℕ → ItemPool → Option ℕ × ItemPool
get_item_at none p = (none, p)
get_item_at (some r) p =
    let header = (p.links r).next in
    (
      some r,
      record p {
        free_num = sub32 p.free_num 1;
        free_header = header;
        free_rear = if same header none then none else p.free_rear;
        used = some r;
        links = attach_list r p.used (detach r p.links);
      },
    )

pub get_item : ItemPool → Option ℕ × ItemPool
unfolding get_item_at
get_item p = get_item_at p.free_header p

-- The end of `ReleaseItem`, by the rear.
pub append_item : Option ℕ → ℕ → ItemPool → ItemPool
append_item none r p = record p {
  free_num = add32 p.free_num 1;
  free_header = some r;
  free_rear = some r;
}
append_item (some rear) r p = record p {
  free_num = add32 p.free_num 1;
  free_rear = some r;
  links = attach_list rear (some r) p.links;
}

-- `ReleaseItem`, with what `IsActived` of the item answers.
pub release_item : Bool → ℕ → ItemPool → ItemPool
unfolding append_item
release_item is_actived r p =
    let used = if same p.used (some r) then (p.links r).next else p.used in
    let out = record p { used = used; links = detach r p.links } in
    if not is_actived then p else append_item p.free_rear r out

-- `CCommConnection::IsActived`, with what `GetConnctionState` answers: `SUCCESS` is 0, and so is
-- `FALSE`.
pub comm_is_actived : Option ℕ → (ℕ → Bool) → Bool
comm_is_actived none is_using = false
comm_is_actived (some connection) is_using = if is_using connection then false else false

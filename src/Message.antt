-- ===== src/Message.antt =====
-- A message between objects: `CMessageHeader` (Public/include/Message.h, Public/source/Message.cpp) with
-- the memory behind it, which holds the body and then the addresses of a broadcast. Addresses are the
-- bytes that they are in memory. `std::sort` is a parameter of `init`.
pub mod Destinations
mod Tests
use zephyr_server.Common.{
  ℕ, ◌+◌, ◌-◌, ◌*◌, ◌/◌, ◌%◌, ◌^◌, Bool, true, false, ◌&&◌, ◌||◌, Option, none, some, List, [], ◌∷◌,
  ◌++◌, ltb, leb, ◌==◌, if◌then◌else◌, take, drop, slice, blit, sub32,
}
use zephyr_server.Doid.{Doid, doid_size, bytes}

-- `UnMsgInfo`, by its bit fields.
pub record MsgInfo : Type 0 where
  pub body_length : ℕ
  pub broadcast_nr : ℕ
  pub time_stamp : ℕ
  pub priority : ℕ
  pub report_excep : ℕ
  pub need_trace : ℕ
  pub system_call : ℕ
  pub method_id : ℕ

-- The header and, in `tail`, the bytes behind it.
pub record Message : Type 0 where
  pub dest : List ℕ
  pub src : List ℕ
  pub info : MsgInfo
  pub tail : List ℕ

-- `sizeof(CMessageHeader)` and `sizeof(m_msgInfo)`
abbrev pub header_size : ℕ
header_size = 24

abbrev pub info_size : ℕ
info_size = 8

-- `m_data = 0`
abbrev pub no_info : MsgInfo
no_info = record {
  body_length = 0;
  broadcast_nr = 0;
  time_stamp = 0;
  priority = 0;
  report_excep = 0;
  need_trace = 0;
  system_call = 0;
  method_id = 0;
}

-- `GetServiceID`: `uMethodId & 0x000FFF00`
pub get_service_id : ℕ → ℕ
get_service_id method_id = (method_id / 2 ^ 8) % 2 ^ 12 * 2 ^ 8

pub get_body_length : Message → ℕ
get_body_length m = m.info.body_length

pub get_body : Message → List ℕ
get_body m = take m.info.body_length m.tail

-- `GetLength`
pub get_length : Message → ℕ
get_length m = m.info.body_length + header_size + m.info.broadcast_nr * doid_size

pub set_priority : ℕ → Message → Message
set_priority p m = record m { info = record m.info { priority = p % 2 } }

-- `SetBroadcastDoid`, with none for `OUT_OF_RANGE`.
pub set_broadcast_doid : ℕ → Message → Option ℕ × Message
set_broadcast_doid num m =
    if ltb 63 num
    then (none, m)
    else (some num, record m { info = record m.info { broadcast_nr = num } })

pub set_time_stamp : ℕ → Message → Message
set_time_stamp t m = record m { info = record m.info { time_stamp = t % 2 ^ 16 } }

pub set_system_call : Message → Message
set_system_call m = record m { info = record m.info { system_call = 1 } }

pub is_system_call : Message → Bool
is_system_call m = if m.info.system_call == 0 then false else true

-- `GetDestDoidByIdx`: the bytes at the pointer it returns.
pub get_dest_doid_by_idx : Message → ℕ → List ℕ
get_dest_doid_by_idx m idx =
    if idx == 0 then m.dest else slice m.tail (m.info.body_length + doid_size * (idx - 1)) doid_size

-- `GetCompackedLen` and `Compack4Client`, where the info is the eight bytes `packed`.
pub get_compacked_len : Message → ℕ
get_compacked_len m = m.info.body_length + info_size

pub compack4client : List ℕ → Message → List ℕ → List ℕ
compack4client packed m buff = blit buff 0 (packed ++ take m.info.body_length m.tail)

-- The bytes of an array of addresses.
unfoldable pub all_bytes : List Doid → List ℕ
unfolding bytes
all_bytes [] = []
all_bytes (d ∷ ds) = bytes d ++ all_bytes ds

-- `Init`: with none for `INPUT_PARA_ERROR`, and no list for a null pointer.
pub init_dests : (List Doid → List Doid) → ℕ → ℕ → Doid → List Doid → ℕ → Bool → Message → Message
unfolding all_bytes
init_dests sort body_length method_id src dests num rearrange m =
    let sorted =
      if ltb 1 num && rearrange then sort (take num dests) ++ drop num dests else dests in
    let info = record no_info {
      body_length = body_length % 2 ^ 18;
      method_id = method_id % 2 ^ 20;
      broadcast_nr = sub32 num 1 % 2 ^ 6;
    } in
    let others = take (doid_size * (num - 1)) (all_bytes (drop 1 sorted)) in
    record {
      dest = take doid_size (all_bytes sorted);
      src = bytes src;
      info = info;
      tail = if ltb 1 num then blit m.tail info.body_length others else m.tail;
    }

pub init :
    (List Doid → List Doid)
    → ℕ
    → ℕ
    → Doid
    → Option (List Doid)
    → ℕ
    → Bool
    → Message
    → Option Message
unfolding init_dests
init sort body_length method_id src none num rearrange m = none
init sort body_length method_id src (some dests) num rearrange m =
    if ltb 63 num || ltb 0x3FFFF method_id
    then none
    else some (init_dests sort body_length method_id src dests num rearrange m)

-- `ResetBodyLength`, with none for `OUT_OF_RANGE`.
pub reset_body_length : ℕ → Message → Option Message
reset_body_length body_length m =
    let old = m.info.body_length in
    let nr = m.info.broadcast_nr in
    let moved = blit m.tail body_length (slice m.tail old (doid_size * nr)) in
    if ltb old body_length
    then none
    else some (record m {
      info = record m.info { body_length = body_length };
      tail = if ltb 1 nr then moved else m.tail;
    })

-- `ReInitMsg4Send` for indices that are not negative.
pub re_init_msg4send : ℕ → ℕ → Message → Message
unfolding get_dest_doid_by_idx
re_init_msg4send from_dest to m =
    let nr = to - from_dest in
    let body = m.info.body_length in
    let counted = record m.info { broadcast_nr = nr % 2 ^ 6 } in
    let others = slice m.tail (body + doid_size * from_dest) (doid_size * nr) in
    if ltb to from_dest
    then m
    else if from_dest == 0
    then record m { info = counted }
    else record m {
      dest = get_dest_doid_by_idx m from_dest;
      info = counted;
      tail = if nr == 0 then m.tail else blit m.tail body others;
    }

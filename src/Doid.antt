-- ===== src/Doid.antt =====
-- The address of an object of the distributed system: `CDoid` (Public/include/Doid.h,
-- Public/source/Doid.cpp), in the short layout. The code reads its eight bytes as one `TUInt64`, which
-- on the platform's byte order has `m_objId` lowest and `m_nodeId` highest.
pub mod Order
pub mod Marshalling
mod Tests
use zephyr_server.Common.{
  ℕ, ◌+◌, ◌*◌, ◌/◌, ◌%◌, ◌^◌, ◌<◌, Bool, true, false, not, List, [], ◌∷◌, ◌++◌, ltb, ◌==◌,
  if◌then◌else◌, Option, none, some, slice, blit,
}

pub record Doid : Type 0 where
  pub obj_id : ℕ
  pub srv_id : ℕ
  pub virtual_ip : ℕ
  pub node_id : ℕ

-- `ToTUIn64`
pub to_u64 : Doid → ℕ
to_u64 d = d.obj_id + d.srv_id * 2 ^ 32 + d.virtual_ip * 2 ^ 40 + d.node_id * 2 ^ 48

-- `operator=(TUInt64&)`
pub of_u64 : ℕ → Doid
of_u64 w = record {
  obj_id = w % 2 ^ 32;
  srv_id = (w / 2 ^ 32) % 2 ^ 8;
  virtual_ip = (w / 2 ^ 40) % 2 ^ 8;
  node_id = (w / 2 ^ 48) % 2 ^ 16;
}

-- `operator==`, `operator>` and `operator<`
pub equals : Doid → Doid → Bool
unfolding to_u64
equals d e = to_u64 d == to_u64 e

pub greater : Doid → Doid → Bool
unfolding to_u64
greater d e = ltb (to_u64 e) (to_u64 d)

pub less : Doid → Doid → Bool
unfolding to_u64
less d e = ltb (to_u64 d) (to_u64 e)

-- `IsInOneIp`
pub is_in_one_ip : Doid → Doid → Bool
is_in_one_ip d e =
    if not (d.node_id == e.node_id)
    then false
    else if not (d.virtual_ip == e.virtual_ip)
    then false
    else true

-- `sizeof(CDoid)`
abbrev pub doid_size : ℕ
doid_size = 8

-- The bytes of a `CDoid` in memory.
unfoldable pub bytes : Doid → List ℕ
bytes d =
    d.obj_id % 2 ^ 8
    ∷ (d.obj_id / 2 ^ 8) % 2 ^ 8
    ∷ (d.obj_id / 2 ^ 16) % 2 ^ 8
    ∷ d.obj_id / 2 ^ 24
    ∷ d.srv_id
    ∷ d.virtual_ip
    ∷ d.node_id % 2 ^ 8
    ∷ d.node_id / 2 ^ 8
    ∷ []

-- What eight bytes in memory are, read as a `CDoid`.
pub of_bytes : List ℕ → Option Doid
of_bytes (a ∷ b ∷ c ∷ d ∷ s ∷ v ∷ m ∷ n ∷ []) = some (record {
  obj_id = a + b * 2 ^ 8 + c * 2 ^ 16 + d * 2 ^ 24;
  srv_id = s;
  virtual_ip = v;
  node_id = m + n * 2 ^ 8;
})
of_bytes _ = none

-- `Marshall`: the bytes written, or none for `OUT_OF_MEM`, and the buffer.
pub marshall : List ℕ → ℕ → Doid → Option ℕ × List ℕ
unfolding bytes
marshall buffer len d =
    if ltb len doid_size then (none, buffer) else (some doid_size, blit buffer 0 (bytes d))

-- `Unmarshall`: the bytes read and the address, or none for `OUT_OF_MEM`.
pub unmarshall : List ℕ → ℕ → Option (ℕ × Option Doid)
unfolding of_bytes
unmarshall buffer len =
    if ltb len doid_size then none else some (doid_size, of_bytes (slice buffer 0 doid_size))

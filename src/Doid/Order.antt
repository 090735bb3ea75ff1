-- ===== src/Doid/Order.antt =====
-- The comparisons of addresses against their fields.
use zephyr_server.Common.{◌^◌, ◌<◌, ◌≡◌, refl, ◌↔◌, ◌⊎◌, true, arith}
use zephyr_server.Doid.{Doid, to_u64, of_u64, equals, greater, less}

-- The fields lie in the ranges of their types.
abbrev pub IsDoid : Doid → Type 0
IsDoid d = (d.obj_id < 2 ^ 32) × (d.srv_id < 2 ^ 8) × (d.virtual_ip < 2 ^ 8) × (d.node_id < 2 ^ 16)

-- A `CDoid` stored into a `TUInt64` and back is the same, with every field.
pub of_u64-to_u64 : (d : Doid) → IsDoid d → of_u64 (to_u64 d) ≡ d
unfolding of_u64 to_u64
of_u64-to_u64 d i = grind arith

-- `operator==`, which compares the eight bytes as one number, holds exactly where all fields are equal.
pub equals_iff : (d e : Doid) → IsDoid d → IsDoid e → (equals d e ≡ true) ↔ (d ≡ e)
unfolding equals to_u64
equals_iff d e i j = grind arith

-- `operator<` is the lexicographic order of node, virtual ip, service and object, and `operator>` is
-- the same order turned round.
pub less-lexicographic :
    (d e : Doid)
    → IsDoid d
    → IsDoid e
    → ((less d e ≡ true) ↔ (
        (d.node_id < e.node_id)
        ⊎ ((d.node_id ≡ e.node_id)
            × ((d.virtual_ip < e.virtual_ip)
                ⊎ ((d.virtual_ip ≡ e.virtual_ip)
                    × ((d.srv_id < e.srv_id) ⊎ ((d.srv_id ≡ e.srv_id) × (d.obj_id < e.obj_id))))))))
      × (greater d e ≡ less e d)
unfolding less to_u64 greater
less-lexicographic d e i j = (ground arith, refl)

-- ===== src/Message/Tests.antt =====
-- Messages at concrete values: a body of four bytes and two more addresses behind it.
use zephyr_server.Common.{◌≡◌, refl, List, [], ◌∷◌, ◌++◌, length, replicate, arith}
use zephyr_server.Doid.{Doid}
use zephyr_server.Message.{Message, no_info, get_body, re_init_msg4send, get_service_id}
use zephyr_server.Message.Destinations.{IsMessage, destinations, re_init_msg4send-destinations}

abbrev message : Message
message = record {
  dest = replicate 8 1;
  src = replicate 8 9;
  info = record no_info { body_length = 4; broadcast_nr = 2 };
  tail = replicate 4 5 ++ replicate 8 2 ++ replicate 8 3;
}

message-IsMessage : IsMessage message
message-IsMessage = omega arith

service : get_service_id 0x12345 ≡ 0x12300
unfolding get_service_id
service = refl

re_init_msg4send-destinations_example :
    let m' = re_init_msg4send 1 2 message in
    (destinations m' ≡ replicate 8 2 ++ replicate 8 3)
    × (get_body m' ≡ get_body message)
    × (m'.info.broadcast_nr ≡ 1)
re_init_msg4send-destinations_example =
    re_init_msg4send-destinations message 1 2 message-IsMessage (omega arith) (omega arith)

abbrev near : Doid
near = record { obj_id = 1; srv_id = 2; virtual_ip = 3; node_id = 4 }

abbrev far : Doid
far = record { obj_id = 5; srv_id = 6; virtual_ip = 7; node_id = 8 }

abbrev swap : List Doid → List Doid
swap [] = []
swap (x ∷ []) = x ∷ []
swap (x ∷ y ∷ zs) = y ∷ x ∷ zs

length-swap : (ds : List Doid) → length (swap ds) ≡ length ds
length-swap [] = refl
length-swap (x ∷ []) = refl
length-swap (x ∷ y ∷ zs) = refl

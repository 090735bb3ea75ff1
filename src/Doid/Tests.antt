-- ===== src/Doid/Tests.antt =====
-- Addresses at concrete values.
use zephyr_server.Common.{ℕ, ◌≡◌, refl, true, List, replicate}
use zephyr_server.Doid.{Doid, is_in_one_ip}

abbrev here : Doid
here = record { obj_id = 70000; srv_id = 3; virtual_ip = 200; node_id = 1025 }

abbrev there : Doid
there = record { obj_id = 5; srv_id = 4; virtual_ip = 200; node_id = 1025 }

same-ip : is_in_one_ip here there ≡ true
unfolding is_in_one_ip
same-ip = refl

abbrev buffer : List ℕ
buffer = replicate 10 7

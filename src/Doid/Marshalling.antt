-- ===== src/Doid/Marshalling.antt =====
-- Addresses in message buffers: `Marshall` and `Unmarshall`.
use zephyr_server.Common.{
  ℕ, ◌+◌, ◌*◌, ◌/◌, ◌%◌, ◌^◌, ◌≤◌, ◌≡◌, refl, ap, ◌∙◌, false, List, ltb, some, length, drop,
  slice-blit_self, length-blit, drop-blit, arith,
}
use zephyr_server.Doid.{Doid, doid_size, bytes, of_bytes, marshall, unmarshall}

-- The four bytes of a word of 32 bits, and the two of one of 16 bits.
bytes32 :
    (w : ℕ)
    → w % 2 ^ 8 + (w / 2 ^ 8) % 2 ^ 8 * 2 ^ 8 + (w / 2 ^ 16) % 2 ^ 8 * 2 ^ 16 + w / 2 ^ 24 * 2 ^ 24
      ≡ w
bytes32 w = omega arith

bytes16 : (w : ℕ) → w % 2 ^ 8 + w / 2 ^ 8 * 2 ^ 8 ≡ w
bytes16 w = omega arith

of_bytes-bytes : (d : Doid) → of_bytes (bytes d) ≡ some d
unfolding of_bytes bytes
of_bytes-bytes d = grind (arith, bytes32 d.obj_id, bytes16 d.node_id)

-- Where the length given covers an address and the buffer has that many bytes, `Marshall` writes the
-- address, `Unmarshall` of the buffer gives it back, both count the same bytes, and the bytes behind
-- the address and the size of the buffer are as before.
pub unmarshall-marshall :
    (buffer : List ℕ) (len : ℕ) (d : Doid)
    → doid_size ≤ len
    → len ≤ length buffer
    → let (written, buffer') = marshall buffer len d in
      (written ≡ some doid_size)
      × (unmarshall buffer' len ≡ some (doid_size, some d))
      × (drop doid_size buffer' ≡ drop doid_size buffer)
      × (length buffer' ≡ length buffer)
unfolding marshall unmarshall
unmarshall-marshall buffer len d h k =
    let covers : ltb len doid_size ≡ false = ground arith in
    let read = slice-blit_self buffer 0 (bytes d) doid_size refl (omega arith) in
    rw covers (
      refl,
      ap (λ o. some (doid_size, o)) (ap of_bytes read ∙ of_bytes-bytes d),
      drop-blit buffer (bytes d) doid_size (omega arith),
      length-blit buffer 0 (bytes d),
    )

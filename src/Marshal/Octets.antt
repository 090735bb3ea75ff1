-- ===== src/Marshal/Octets.antt =====
-- Octet sequences and TLVs in a buffer.
use zephyr_server.Common.{
  ℕ, ◌+◌, ◌%◌, ◌^◌, ◌≤◌, ◌<◌, ◌≡◌, refl, sym, ap, ◌∙◌, true, false, none, some, List, length, take,
  slice, blit, slice-blit_self, slice-blit_before, slice-blit_after, length-take, length-blit,
  above_signed, arith,
}
use native.Mathlib.Nat.{mod-eq_of_lt}
use zephyr_server.Marshal.{
  le, un_le, OctSeq, octets_full_length, marshall_octets, unmarshall_octets, Tlv, empty_tlv,
  tlv_full_length, marshall_tlv, unmarshall_tlv,
}
use zephyr_server.Marshal.Words.{length-le, un_le-le}

-- A sequence with a pointer to at least as many bytes as its length, which fits its type.
abbrev pub IsOctets : ℕ → OctSeq → Type 0
IsOctets size s = (s.body_length < 256 ^ size) × (s.body_length ≤ length s.body)

-- Where the whole sequence fits the length given, a `TInt32` that is not negative, and the buffer has
-- that many bytes, `Unmarshall` gives back the length and the bytes that `Marshall` wrote, and both
-- count the bytes of the length and of the body; where it does not fit, nothing is written.
pub unmarshall_octets-marshall_octets :
    (size : ℕ) (buffer : List ℕ) (len : ℕ) (s old : OctSeq)
    → IsOctets size s
    → len < 2 ^ 31
    → size + s.body_length < 2 ^ 31
    → len ≤ length buffer
    → let (r, buffer') = marshall_octets size buffer len s in
      (size + s.body_length ≤ len
        → let (r', s') = unmarshall_octets size buffer' len old in
          (r ≡ some (size + s.body_length))
          × (r' ≡ r)
          × (s'.body_length ≡ s.body_length)
          × (take s.body_length s'.body ≡ take s.body_length s.body))
      × (len < size + s.body_length → (r ≡ none) × (buffer' ≡ buffer))
unfolding marshall_octets unmarshall_octets octets_full_length
unmarshall_octets-marshall_octets size buffer len s old (small, whole) h k m = (
  (λ q.
      (let fits : above_signed ((size + s.body_length) % 2 ^ 32) len ≡ false = ground arith in
        let b = take s.body_length s.body in
        let headed = blit buffer 0 (le size s.body_length) in
        let n = length-le size s.body_length in
        let nb : length b ≡ s.body_length = omega (arith, length-take s.body_length s.body) in
        let kept = length-blit buffer 0 (le size s.body_length) in
        let head : slice (blit headed size b) 0 size ≡ le size s.body_length =
          slice-blit_before headed size b 0 size (omega arith)
          ∙ slice-blit_self buffer 0 (le size s.body_length) size (sym n) (omega arith) in
        let value = ap un_le head ∙ un_le-le size s.body_length small in
        let body = slice-blit_self headed size b s.body_length (sym nb) (omega arith) in
        let exact : (size + s.body_length) % 2 ^ 32 ≡ size + s.body_length = omega arith in
        rw (fits, value, fits) (ap some exact, refl, refl, body))),
  (λ q.
      (let long : above_signed ((size + s.body_length) % 2 ^ 32) len ≡ true = ground arith in
        rw long (refl, refl))),
)

-- `Unmarshall` of a `TLV` does not load the length: into a new one it stores the length 0 over the one
-- that `Marshall` wrote, and gives the tag with a body of length 0.
pub unmarshall_tlv_forgets :
    (size tag_size : ℕ) (buffer : List ℕ) (len : ℕ) (t : Tlv)
    → t.body_length ≤ length t.body
    → t.tag < 256 ^ tag_size
    → size + tag_size + t.body_length < 256 ^ size
    → size + tag_size + t.body_length ≤ len
    → len < 2 ^ 31
    → len ≤ length buffer
    → let (r, buffer') = marshall_tlv size tag_size buffer len t in
      let (r', t', buffer'') = unmarshall_tlv size tag_size buffer' len empty_tlv in
      (r ≡ some (size + tag_size + t.body_length))
      × (r' ≡ some (size + tag_size))
      × (t'.body_length ≡ 0)
      × (t'.tag ≡ t.tag)
      × (un_le (slice buffer'' 0 size) ≡ 0)
unfolding marshall_tlv unmarshall_tlv tlv_full_length empty_tlv
unmarshall_tlv_forgets size tag_size buffer len t whole small h k m n =
    let full : (size + tag_size + t.body_length) % 256 ^ size ≡ size + tag_size + t.body_length =
      mod-eq_of_lt h in
    let fresh : (size + tag_size + 0) % 256 ^ size ≡ size + tag_size + 0 =
      mod-eq_of_lt (omega arith) in
    let fits : above_signed (size + tag_size + t.body_length) len ≡ false = ground arith in
    let fits' : above_signed (size + tag_size + 0) len ≡ false = ground arith in
    let first = blit buffer 0 (le size t.body_length) in
    let headed = blit first size (le tag_size t.tag) in
    let b = take t.body_length t.body in
    let written = blit headed (size + tag_size) b in
    let ns = length-le size t.body_length in
    let nt = length-le tag_size t.tag in
    let nz = length-le size 0 in
    let l1 = length-blit buffer 0 (le size t.body_length) in
    let l2 = length-blit first size (le tag_size t.tag) in
    let l3 = length-blit headed (size + tag_size) b in
    let tag : un_le (slice (blit written 0 (le size 0)) size tag_size) ≡ t.tag =
      ap un_le (
        slice-blit_after written 0 (le size 0) size tag_size (omega arith)
        ∙ slice-blit_before headed (size + tag_size) b size tag_size (omega arith)
        ∙ slice-blit_self first size (le tag_size t.tag) tag_size (sym nt) (omega arith))
      ∙ un_le-le tag_size t.tag small in
    let zeroed : un_le (slice (blit written 0 (le size 0)) 0 size) ≡ 0 =
      ap un_le (slice-blit_self written 0 (le size 0) size (sym nz) (omega arith))
      ∙ un_le-le size 0 (omega arith) in
    rw (full, fits, fresh, fits') (refl, ap some (omega arith), refl, tag, zeroed)

-- ===== src/Marshal.antt =====
-- Values in message buffers: `Marshall` and `Unmarshall` of Public/include/TypeMarshaller.h,
-- Public/include/TypeUnmarshaller.h and the two source files, with `OctSeq` and `TLV` of
-- Public/include/TypeDef.h. A pointer into a buffer is the list of the bytes from there on; a `TInt32`
-- result is `none` for `OUT_OF_MEM`. A type is its size in bytes, its value the pattern of its bits.
pub mod Words
pub mod Octets
pub mod Texts
mod Tests
use zephyr_server.Common.{
  ℕ, zero, suc, ◌+◌, ◌-◌, ◌*◌, ◌/◌, ◌%◌, ◌^◌, Bool, Option, none, some, List, [], ◌∷◌, ◌++◌, ltb,
  leb, ◌==◌, if◌then◌else◌, length, take, drop, set, replicate, slice, blit, above_signed,
}

-- The bytes of a word in memory, the lowest first, and the word that bytes in memory are.
unfoldable pub le : ℕ → ℕ → List ℕ
le zero w = []
le (suc size) w = w % 2 ^ 8 ∷ le size (w / 2 ^ 8)

unfoldable pub un_le : List ℕ → ℕ
un_le [] = 0
un_le (b ∷ bs) = b + un_le bs * 2 ^ 8

-- `DECLARE_MARSHALLERS` and `DECLARE_UNMARSHALLERS`. `uBufferLen` is compared as an unsigned number.
pub marshall_word : ℕ → List ℕ → ℕ → ℕ → Option ℕ × List ℕ
unfolding le
marshall_word size buffer len w =
    if leb size len then (some size, blit buffer 0 (le size w)) else (none, buffer)

pub unmarshall_word : ℕ → List ℕ → ℕ → ℕ → Option ℕ × ℕ
unfolding un_le
unmarshall_word size buffer len old =
    if leb size len then (some size, un_le (slice buffer 0 size)) else (none, old)

-- `OctSeq`; `body` has the bytes that `m_pBuffer` points to.
pub record OctSeq : Type 0 where
  pub body_length : ℕ
  pub body : List ℕ

-- `GetFullLength`, for a `TYPE` of `size` bytes.
pub octets_full_length : ℕ → OctSeq → ℕ
octets_full_length size s = (size + s.body_length) % 2 ^ 32

pub marshall_octets : ℕ → List ℕ → ℕ → OctSeq → Option ℕ × List ℕ
unfolding octets_full_length le
marshall_octets size buffer len s =
    let n = octets_full_length size s in
    if above_signed n len
    then (none, buffer)
    else (some n, blit (blit buffer 0 (le size s.body_length)) size (take s.body_length s.body))

pub unmarshall_octets : ℕ → List ℕ → ℕ → OctSeq → Option ℕ × OctSeq
unfolding octets_full_length un_le
unmarshall_octets size buffer len s =
    let s' = record s { body_length = un_le (slice buffer 0 size) } in
    let n = octets_full_length size s' in
    if above_signed n len then (none, s') else (some n, record s' { body = drop size buffer })

-- `TLV`
pub record Tlv : Type 0 where
  pub body_length : ℕ
  pub tag : ℕ
  pub body : List ℕ

-- `TLV()`
pub empty_tlv : Tlv
empty_tlv = record { body_length = 0; tag = 0; body = [] }

-- `GetFullLength`, of the type of the length, which has `size` bytes; the tag has `tag_size`.
pub tlv_full_length : ℕ → ℕ → Tlv → ℕ
tlv_full_length size tag_size t = (size + tag_size + t.body_length) % 256 ^ size

pub marshall_tlv : ℕ → ℕ → List ℕ → ℕ → Tlv → Option ℕ × List ℕ
unfolding tlv_full_length le
marshall_tlv size tag_size buffer len t =
    let n = tlv_full_length size tag_size t in
    let headed = blit (blit buffer 0 (le size t.body_length)) size (le tag_size t.tag) in
    if above_signed n len
    then (none, buffer)
    else (some n, blit headed (size + tag_size) (take t.body_length t.body))

-- The length is stored to the buffer, not loaded from it.
pub unmarshall_tlv : ℕ → ℕ → List ℕ → ℕ → Tlv → Option ℕ × Tlv × List ℕ
unfolding tlv_full_length le un_le
unmarshall_tlv size tag_size buffer len t =
    let n = tlv_full_length size tag_size t in
    let stored = blit buffer 0 (le size t.body_length) in
    let t' = record t {
      tag = un_le (slice stored size tag_size);
      body = drop (size + tag_size) stored;
    } in
    if above_signed n len then (none, t, stored) else (some n, t', stored)

-- `strlen`, and the text up to the terminator.
unfoldable pub string_length : List ℕ → ℕ
string_length [] = 0
string_length (b ∷ bs) = let n = string_length bs in if b == 0 then 0 else suc n

-- `Marshall` of a string, given without its terminator: `strncpy` stops after `uBuffLen` bytes and
-- pads with 0.
pub marshall_string : List ℕ → ℕ → List ℕ → ℕ × List ℕ
unfolding string_length
marshall_string buffer len psz =
    let b = blit buffer 0 (take len (psz ++ replicate len 0)) in (string_length b, b)

-- `Unmarshall` of a string: the result, the string and the buffer. With `uBuffLen` 0 the terminator is
-- stored before the buffer.
pub unmarshall_string : List ℕ → ℕ → ℕ × List ℕ × List ℕ
unfolding string_length
unmarshall_string buffer len =
    let n = string_length (take len buffer) in
    let ended = if n == 0 then buffer else set buffer (n - 1) 0 in
    let b = if n == len then ended else buffer in (n, take (string_length b) b, b)

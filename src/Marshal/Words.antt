-- ===== src/Marshal/Words.antt =====
-- Words of any size in a buffer.
use zephyr_server.Common.{
  ℕ, zero, suc, ◌*◌, ◌/◌, ◌^◌, ◌≤◌, ◌<◌, ◌≡◌, refl, sym, ap, ◌∙◌, true, false, none, some, List,
  leb, length, drop, slice-blit_self, drop-blit, arith,
}
use native.Mathlib.Nat.{pow-suc}
use zephyr_server.Marshal.{le, un_le, marshall_word, unmarshall_word}

pub length-le : (size w : ℕ) → length (le size w) ≡ size
unfolding le
length-le zero w = refl
length-le (suc size) w = ap suc (length-le size (w / 2 ^ 8))

-- `size` bytes hold every number below 256 ^ size.
pub un_le-le : (size w : ℕ) → w < 256 ^ size → un_le (le size w) ≡ w
unfolding le un_le
un_le-le zero w h = omega arith
un_le-le (suc size) w h =
    let e : 256 ^ suc size ≡ 256 ^ size * 256 = pow-suc 256 size in
    let i = un_le-le size (w / 2 ^ 8) in omega (arith, e, i (omega (arith, e)))

-- A word is read back as it was written, both calls count its bytes, and the bytes behind it stay as
-- they are, where the length given covers it and the buffer has that many bytes; else nothing is
-- written.
pub unmarshall_word-marshall_word :
    (size : ℕ) (buffer : List ℕ) (len w old : ℕ)
    → len ≤ length buffer
    → w < 256 ^ size
    → let (r, buffer') = marshall_word size buffer len w in
      (size ≤ len
        → (r ≡ some size)
          × (unmarshall_word size buffer' len old ≡ (some size, w))
          × (drop size buffer' ≡ drop size buffer))
      × (len < size → (r ≡ none) × (buffer' ≡ buffer))
unfolding marshall_word unmarshall_word
unmarshall_word-marshall_word size buffer len w old h k = (
  (λ q.
      (let fits : leb size len ≡ true = ground arith in
        let n = length-le size w in
        let stands = slice-blit_self buffer 0 (le size w) size (sym n) (omega arith) in
        rw fits (
          refl,
          ap (λ v. (some size, v)) (ap un_le stands ∙ un_le-le size w k),
          drop-blit buffer (le size w) size (omega arith),
        ))),
  (λ q. (let short : leb size len ≡ false = ground arith in rw short (refl, refl))),
)

-- ===== src/Marshal/Texts.antt =====
-- Strings in a buffer.
use zephyr_server.Common.{
  ℕ, zero, suc, ◌≤◌, ◌<◌, ◌≡◌, ◌≢◌, refl, ap, false, List, [], ◌∷◌, ◌++◌, ◌==◌, length, take,
  replicate, blit, take-append_exact, arith,
}
use zephyr_server.Marshal.{string_length, marshall_string, unmarshall_string}

-- No byte of a text is the terminator.
unfoldable pub IsText : List ℕ → Type 0
IsText [] = Unit {0}
IsText (c ∷ cs) = (c ≢ 0) × IsText cs

string_length-text : (cs rest : List ℕ) → IsText cs → string_length (cs ++ (0 ∷ rest)) ≡ length cs
unfolding string_length IsText
string_length-text [] rest t = refl
string_length-text (c ∷ cs) rest (n, t) = ground (arith, string_length-text cs rest t)

-- What `strncpy` leaves: the text, the terminator and what follows.
blit_text :
    (buffer cs : List ℕ) (len pad : ℕ)
    → length cs < len
    → len ≤ length buffer
    → 0 < pad
    → (rest : List ℕ) × (blit buffer 0 (take len (cs ++ replicate pad 0)) ≡ cs ++ (0 ∷ rest))
unfolding blit
blit_text (b ∷ bs) [] (suc len) (suc pad) h k p = (_, refl)
blit_text (b ∷ bs) (c ∷ cs) (suc len) pad h k p =
    let (rest, e) = blit_text bs cs len pad (omega arith) (omega arith) p in
    (rest, ap (λ zs. c ∷ zs) e)
blit_text [] cs (suc len) pad h k p = absurd (omega arith)
blit_text buffer cs zero pad h k p = absurd (omega arith)
blit_text (b ∷ bs) [] (suc len) zero h k p = absurd (omega arith)

take_text :
    (cs rest : List ℕ) (len : ℕ)
    → length cs < len
    → (rest' : List ℕ) × (take len (cs ++ (0 ∷ rest)) ≡ cs ++ (0 ∷ rest'))
take_text [] rest (suc len) h = (take len rest, refl)
take_text (c ∷ cs) rest (suc len) h =
    let (rest', e) = take_text cs rest len (omega arith) in (rest', ap (λ zs. c ∷ zs) e)
take_text cs rest zero h = absurd (omega arith)

-- A text that is shorter than the length given comes back whole, both calls give its length, and
-- `Unmarshall` leaves the buffer as it was.
pub unmarshall_string-marshall_string :
    (buffer : List ℕ) (len : ℕ) (psz : List ℕ)
    → IsText psz
    → length psz < len
    → len ≤ length buffer
    → let (n, buffer') = marshall_string buffer len psz in
      (n ≡ length psz) × (unmarshall_string buffer' len ≡ (length psz, psz, buffer'))
unfolding marshall_string unmarshall_string
unmarshall_string-marshall_string buffer len psz t h k =
    let (rest, e) = blit_text buffer psz len len h k (omega arith) in
    let (rest', e') = take_text psz rest len h in
    let n = string_length-text psz rest t in
    let n' = string_length-text psz rest' t in
    let apart : (length psz == len) ≡ false = ground arith in
    rw (e, e', n, n', apart, n)
      (
        refl,
        ap (λ z. (length psz, z, psz ++ (0 ∷ rest)))
            (take-append_exact (length psz) psz (0 ∷ rest) refl),
      )

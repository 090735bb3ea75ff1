-- ===== src/Marshal/Tests.antt =====
-- Buffers at concrete values.
use zephyr_server.Common.{ℕ, ◌≤◌, ◌<◌, ◌≡◌, none, some, List, [], ◌∷◌, take, replicate, arith}
use zephyr_server.Marshal.{
  OctSeq, marshall_octets, unmarshall_octets, Tlv, marshall_string, unmarshall_string,
}
use zephyr_server.Marshal.Octets.{unmarshall_octets-marshall_octets}
use zephyr_server.Marshal.Texts.{IsText, unmarshall_string-marshall_string}

abbrev buffer : List ℕ
buffer = replicate 12 7

abbrev three : OctSeq
three = record { body_length = 3; body = 1 ∷ 2 ∷ 3 ∷ [] }

abbrev no_octets : OctSeq
no_octets = record { body_length = 0; body = [] }

unmarshall_octets-marshall_octets_example :
    let (r, buffer') = marshall_octets 2 buffer 10 three in
    (5 ≤ 10
      → let (r', s') = unmarshall_octets 2 buffer' 10 no_octets in
        (r ≡ some 5) × (r' ≡ r) × (s'.body_length ≡ 3) × (take 3 s'.body ≡ 1 ∷ 2 ∷ 3 ∷ []))
    × (10 < 5 → (r ≡ none) × (buffer' ≡ buffer))
unmarshall_octets-marshall_octets_example =
    unmarshall_octets-marshall_octets 2 buffer 10 three no_octets (omega arith, omega arith)
      (omega arith) (omega arith) (omega arith)

abbrev tagged : Tlv
tagged = record { body_length = 3; tag = 9; body = 1 ∷ 2 ∷ 3 ∷ [] }

abbrev word : List ℕ
word = 104 ∷ 105 ∷ []

word-IsText : IsText word
unfolding IsText
word-IsText = (omega arith, (omega arith, tt))

unmarshall_string-marshall_string_example :
    let (n, buffer') = marshall_string buffer 5 word in
    (n ≡ 2) × (unmarshall_string buffer' 5 ≡ (2, word, buffer'))
unmarshall_string-marshall_string_example =
    unmarshall_string-marshall_string buffer 5 word word-IsText (omega arith) (omega arith)

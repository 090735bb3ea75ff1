-- ===== src/Connection/Tests.antt =====
-- `AppRoutine` at a ring of eight bytes, in which the first of two messages goes round the end.
use zephyr_server.Common.{ℕ, ◌+◌, ◌≡◌, refl, ap, true, false, List, [], ◌∷◌, length, take, arith}
use zephyr_server.Pipe.{Pipe}
use zephyr_server.Pipe.Invariant.{IsValid, contents}
use zephyr_server.Connection.{Protocol, ended, still, header_length, using, received, app_routine}
use zephyr_server.Connection.Rounds.{cut}
use zephyr_server.Connection.Framing.{app_routine-cut, app_routine_never_ends}
use zephyr_server.Connection.Messages.{Framed, app_routine-joined, app_routine-empty}

-- A parser of messages whose first byte is their length.
abbrev first_byte : List ℕ → ℕ → ℕ
first_byte [] len = 0
first_byte (x ∷ xs) len = x

abbrev prefixed : Protocol
prefixed = record {
  min_header_length = 1;
  max_header_length = 1;
  on_recv = first_byte;
  stays = λ m. true;
}

-- What a connection without a parser has.
abbrev without_parser : Protocol
without_parser = record {
  min_header_length = 0;
  max_header_length = 0;
  on_recv = first_byte;
  stays = λ m. true;
}

abbrev ring : Pipe
ring = record {
  mem_pool = 9 ∷ 3 ∷ 5 ∷ 6 ∷ 0 ∷ 0 ∷ 0 ∷ 2 ∷ [];
  header = 4;
  rear = 7;
  mem_pool_size = 8;
}

ring-IsValid : IsValid ring
ring-IsValid = omega arith

header_one : (len : ℕ) → header_length prefixed len ≡ 1
unfolding header_length
header_one len = ground arith

first_Framed : Framed prefixed (2 ∷ 9 ∷ [])
first_Framed = (
  omega arith,
  omega arith,
  λ rest.
      ap (λ n. first_byte (take n (2 ∷ 9 ∷ rest)) (length (2 ∷ 9 ∷ rest)))
        (header_one (length (2 ∷ 9 ∷ rest))),
)

second_Framed : Framed prefixed (3 ∷ 5 ∷ 6 ∷ [])
second_Framed = (
  omega arith,
  omega arith,
  λ rest.
      ap (λ n. first_byte (take n (3 ∷ 5 ∷ 6 ∷ rest)) (length (3 ∷ 5 ∷ 6 ∷ rest)))
        (header_one (length (3 ∷ 5 ∷ 6 ∷ rest))),
)

app_routine-cut_example :
    (ms : List (List ℕ)) × (sent : ℕ) × (p' : Pipe) × (app_routine 9 prefixed using true true ring
      ≡ received (ended ms sent p'))
    × ((ms, contents p') ≡ cut 9 prefixed (2 ∷ 9 ∷ 3 ∷ 5 ∷ 6 ∷ []))
    × (sent + length (contents p') ≡ 5)
    × IsValid p'
app_routine-cut_example = app_routine-cut 9 prefixed (λ m. refl) ring-IsValid (omega arith)

app_routine-joined_example :
    (sent : ℕ) × (p' : Pipe) × (app_routine 9 prefixed using true true ring
      ≡ received (ended ((2 ∷ 9 ∷ []) ∷ (3 ∷ 5 ∷ 6 ∷ []) ∷ []) sent p'))
    × (contents p' ≡ [])
    × (sent ≡ 5)
    × IsValid p'
app_routine-joined_example =
    app_routine-joined 9 prefixed ((2 ∷ 9 ∷ []) ∷ (3 ∷ 5 ∷ 6 ∷ []) ∷ []) [] (λ m. refl) ring-IsValid
      (omega arith) (omega arith) (first_Framed, (second_Framed, tt)) (omega arith) refl

app_routine-empty_example :
    (p' : Pipe) × (app_routine 9 prefixed using false true ring ≡ received (ended [] 0 p'))
    × (contents p' ≡ [])
    × IsValid p'
app_routine-empty_example = app_routine-empty 9 prefixed true ring-IsValid (omega arith)

app_routine_never_ends_example : app_routine 5 without_parser using true false ring ≡ received still
app_routine_never_ends_example = app_routine_never_ends 5 without_parser ring refl

-- ===== src/Connection.antt =====
-- The connection of Comm/Net/win/source/Connection.cpp and Comm/Net/win/include/Connection.h: how the
-- application's thread takes messages out of the incoming pipe, `AppRoutine`. The parser of the protocol and
-- the application's callback are parameters.
pub mod Rounds
pub mod Framing
pub mod Messages
pub mod Events
mod Tests
use zephyr_server.Common.{
  ℕ, zero, suc, ◌+◌, Bool, true, false, ◌||◌, Option, none, some, ◌>>=◌, List, [], ◌∷◌, length,
  slice, ltb, leb, ◌==◌, if◌then◌else◌,
}
use zephyr_server.Pipe.{Pipe, get_data_len, get_data, read_data, return_msg_buff, peek}
use mathlib.Core.Option
use zephyr_server.Pipe.ZeroCopy.{shown}

-- `EnConnectionState`
pub data State : Type 0 where
  not_in_use trying established using broken aborted : State

-- What a connection has of the application: the lengths that the parser told, `IfParser::OnRecv` by the
-- bytes of the header and the number of bytes held, and whether the callback is still set after `OnRecv` of a
-- message, which may disconnect.
pub record Protocol : Type 0 where
  pub min_header_length : ℕ
  pub max_header_length : ℕ
  pub on_recv : List ℕ → ℕ → ℕ
  pub stays : List ℕ → Bool

-- How a loop over the pipe ends: the messages that the callback got, `sendLen`, and the pipe. `still` is
-- fuel that has run out, `fault` the use of a null pointer.
pub data Outcome : Type 0 where
  ended : List (List ℕ) → ℕ → Pipe → Outcome
  still : Outcome
  fault : Outcome

-- A message before the rest of the loop; `called` says that the callback got it.
unfoldable pub after : Bool → List ℕ → Outcome → Outcome
after called m (ended ms n p) = ended (if called then m ∷ ms else ms) (length m + n) p
after called m still = still
after called m fault = fault

-- The header: in place, or by `Peek` where it lies in two pieces.
unfoldable pub header_in : Option ℕ × ℕ → ℕ → Pipe → Option (List ℕ)
header_in (none, piece) n p = none
header_in (some at, piece) n p =
    if ltb piece n then Option.map (shown p n) (peek p n) else some (slice p.mem_pool at n)

unfoldable pub read_header : ℕ → Pipe → Option (List ℕ)
unfolding header_in
read_header n p = header_in (get_data p n) n p

-- A whole message of `n` bytes, given to the callback in place or as a copy. In place, the callback is
-- tested first; for a copy it is not.
unfoldable pub deliver_in :
    (Bool → Pipe → Outcome) → Protocol → Bool → Option ℕ × ℕ → ℕ → Pipe → Outcome
unfolding after
deliver_in rest c called (none, piece) n p = fault
deliver_in rest c called (some at, piece) n p =
    let copy = read_data p n in
    let here = slice p.mem_pool at n in
    if ltb piece n
    then (if called then after true copy.1 (rest (c.stays copy.1) copy.2) else fault)
    else after called here
        (rest (if called then c.stays here else false) (return_msg_buff p at n).1)

-- What follows for the length that the parser tells of the first message.
unfoldable pub with_length : (Bool → Pipe → Outcome) → Protocol → Bool → ℕ → Pipe → Outcome
unfolding deliver_in
with_length rest c called n p =
    if n == 0 || ltb (get_data_len p) n
    then ended [] 0 p
    else deliver_in rest c called (get_data p n) n p

unfoldable pub with_header :
    (Bool → Pipe → Outcome) → Protocol → Bool → Option (List ℕ) → Pipe → Outcome
unfolding with_length
with_header rest c called none p = fault
with_header rest c called (some h) p = with_length rest c called (c.on_recv h (get_data_len p)) p

-- How much of the header is looked at.
unfoldable pub header_length : Protocol → ℕ → ℕ
header_length c len =
    if leb c.max_header_length len then c.max_header_length else c.min_header_length

-- The loop of `AppRoutine` with a parser.
unfoldable pub parse_loop : ℕ → Protocol → Bool → Pipe → Outcome
unfolding read_header with_header header_length
parse_loop zero c called p = still
parse_loop (suc fuel) c called p =
    if ltb (get_data_len p) c.min_header_length
    then ended [] 0 p
    else with_header (parse_loop fuel c) c called (read_header (header_length c (get_data_len p)) p)
        p

-- The loop of `AppRoutine` without a parser: the callback gets the piece that `GetData` hands out.
unfoldable pub raw_in : (Bool → Pipe → Outcome) → Protocol → Bool → Option ℕ × ℕ → Pipe → Outcome
unfolding after
raw_in rest c called (none, piece) p = fault
raw_in rest c called (some at, piece) p =
    let here = slice p.mem_pool at piece in
    after called here (rest (if called then c.stays here else false) (return_msg_buff p at piece).1)

unfoldable pub raw_loop : ℕ → Protocol → Bool → Pipe → Outcome
unfolding raw_in
raw_loop zero c called p = still
raw_loop (suc fuel) c called p =
    if ltb (get_data_len p) c.min_header_length
    then ended [] 0 p
    else raw_in (raw_loop fuel c) c called (get_data p (get_data_len p)) p

-- Without a callback all that was received is thrown away.
unfoldable pub drain_in : (Pipe → Outcome) → Option ℕ × ℕ → Pipe → Outcome
drain_in rest (none, piece) p = fault
drain_in rest (some at, piece) p = rest (return_msg_buff p at piece).1

unfoldable pub drain : ℕ → Pipe → Outcome
unfolding drain_in
drain zero p = still
drain (suc fuel) p =
    if get_data_len p == 0
    then ended [] 0 p
    else drain_in (drain fuel) (get_data p (get_data_len p)) p

-- What `AppRoutine` returns, and whether it called `OnDissconneted`: -1 is `release`.
pub data Routine : Type 0 where
  received : Outcome → Routine
  release : Bool → Routine
  nothing : Routine

-- `AppRoutine` by the state, whether the callback is set, and whether there is a parser.
unfoldable pub app_routine : ℕ → Protocol → State → Bool → Bool → Pipe → Routine
unfolding parse_loop raw_loop drain
app_routine fuel c using false parser p = received (drain fuel p)
app_routine fuel c using true true p = received (parse_loop fuel c true p)
app_routine fuel c using true false p = received (raw_loop fuel c true p)
app_routine fuel c aborted called parser p = release false
app_routine fuel c broken called parser p = release called
app_routine fuel c state called parser p = nothing

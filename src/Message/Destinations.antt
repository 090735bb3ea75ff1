-- ===== src/Message/Destinations.antt =====
-- The body and the addresses that a message goes to, before and after it is changed.
use zephyr_server.Common.{
  ℕ, ◌+◌, ◌-◌, ◌*◌, ◌%◌, ◌^◌, ◌≤◌, ◌<◌, ◌≡◌, ◌≢◌, refl, sym, ap, ap₂, ◌∙◌, Bool, false, ◌&&◌, ◌||◌,
  some, List, [], ◌∷◌, ◌++◌, append-nil, ltb, ◌==◌, if◌then◌else◌, length, take, drop, slice, blit,
  sub32, length-slice, slice-append, slice-blit_self, slice-blit_before, length-drop, take-slice,
  take-append-drop, take-drop_all, take-append_over, slice-slice, slice-append_behind, zero, suc,
  Bool-cases, inl, inr, arith,
}
use zephyr_server.Doid.{Doid, doid_size, bytes}
use zephyr_server.Message.{
  Message, get_body, all_bytes, init_dests, init, reset_body_length, re_init_msg4send,
  get_dest_doid_by_idx, get_length,
}

-- The memory behind the header has the body and the addresses.
pub record IsMessage (m : Message) : Type 0 where
  pub dest_size : length m.dest ≡ doid_size
  pub room : m.info.body_length + doid_size * m.info.broadcast_nr ≤ length m.tail
  pub nr_fits : m.info.broadcast_nr < 2 ^ 6
  pub body_fits : m.info.body_length < 2 ^ 18

-- The bytes of all addresses, the one in the header first.
abbrev pub destinations : Message → List ℕ
destinations m = m.dest ++ slice m.tail m.info.body_length (doid_size * m.info.broadcast_nr)

-- `ReInitMsg4Send` of a part of the addresses leaves a message to exactly these, in order, with the same
-- body.
pub re_init_msg4send-destinations :
    (m : Message) (from_dest to : ℕ)
    → IsMessage m
    → from_dest ≤ to
    → to ≤ m.info.broadcast_nr
    → let m' = re_init_msg4send from_dest to m in
      (destinations m'
        ≡ slice (destinations m) (doid_size * from_dest) (doid_size * (to - from_dest + 1)))
      × (get_body m' ≡ get_body m)
      × (m'.info.broadcast_nr ≡ to - from_dest)
unfolding re_init_msg4send get_body get_dest_doid_by_idx
re_init_msg4send-destinations m zero to v h k =
    let not_less : ltb to zero ≡ false = ground arith in
    let nr : (to - zero) % 2 ^ 6 ≡ to = omega (arith, v.nr_fits) in
    let body = m.info.body_length in
    let others = slice m.tail body (doid_size * m.info.broadcast_nr) in
    let part : take (doid_size * (to - zero + 1)) (m.dest ++ others)
        ≡ m.dest ++ slice m.tail body (doid_size * to) =
      take-append_over (doid_size * (to - zero + 1)) m.dest others (omega (arith, v.dest_size))
      ∙ ap (λ n. m.dest ++ take n others) (omega (arith, v.dest_size))
      ∙ ap (λ z. m.dest ++ z)
          (take-slice m.tail body (doid_size * to) (doid_size * m.info.broadcast_nr)
            (omega arith)) in
    rw (not_less, nr) (sym part, refl, omega arith)
re_init_msg4send-destinations m (suc from) to v h k =
    let not_less : ltb to (suc from) ≡ false = ground arith in
    let later : (suc from == zero) ≡ false = ground arith in
    let n = to - suc from in
    let nr : n % 2 ^ 6 ≡ n = omega (arith, v.nr_fits) in
    let body = m.info.body_length in
    let others = slice m.tail (body + doid_size * suc from) (doid_size * n) in
    let first = slice m.tail (body + doid_size * (suc from - 1)) doid_size in
    let part : slice (destinations m) (doid_size * suc from) (doid_size * (n + 1))
        ≡ first ++ others =
      slice-append_behind m.dest (slice m.tail body (doid_size * m.info.broadcast_nr))
        (doid_size * suc from) (doid_size * (n + 1)) (doid_size * (suc from - 1))
        (omega (arith, v.dest_size))
      ∙ slice-slice m.tail body (doid_size * m.info.broadcast_nr) (doid_size * (suc from - 1))
          (doid_size * (n + 1)) (body + doid_size * (suc from - 1)) (omega arith) refl
      ∙ slice-append m.tail (body + doid_size * (suc from - 1)) doid_size (doid_size * n)
          (body + doid_size * suc from) (doid_size * (n + 1)) (omega arith) (omega arith) in
    let size : length others ≡ doid_size * n = length-slice m.tail _ _ (omega (arith, v.room)) in
    elim (Bool-cases (n == zero)) [
      | inl e ↦
          let none_left : n ≡ zero = ground arith in
          rw (not_less, later, nr, e)
            (
              ap (λ z. first ++ slice m.tail body (doid_size * z)) none_left
                  ∙ ap (λ z. first ++ slice m.tail (body + doid_size * suc from) (doid_size * z))
                      (sym none_left)
                  ∙ sym part,
              refl,
              refl,
            )
      | inr e ↦
          rw (not_less, later, nr, e)
            (
              ap (λ z. first ++ z)
                    (slice-blit_self m.tail body others (doid_size * n) (sym size)
                      (omega (arith, v.room)))
                  ∙ sym part,
              slice-blit_before m.tail body others 0 body (omega arith),
              refl,
            )
    ]

-- `ResetBodyLength` to no more bytes keeps the front of the body, and the addresses too where there are
-- none behind the body or more than one. It does not move a single address: the message then goes to
-- what stands in the old body.
pub reset_body_length-destinations :
    (m : Message) (body_length : ℕ)
    → IsMessage m
    → body_length ≤ m.info.body_length
    → (m' : Message) × (reset_body_length body_length m ≡ some m')
      × (get_body m' ≡ take body_length (get_body m))
      × (m.info.broadcast_nr ≢ 1 → destinations m' ≡ destinations m)
      × (m.info.broadcast_nr ≡ 1 → destinations m' ≡ m.dest ++ slice m.tail body_length doid_size)
unfolding reset_body_length get_body
reset_body_length-destinations m n v h =
    let not_less : ltb m.info.body_length n ≡ false = ground arith in
    let nr = m.info.broadcast_nr in
    let others = slice m.tail m.info.body_length (doid_size * nr) in
    let size : length others ≡ doid_size * nr = length-slice m.tail _ _ (omega (arith, v.room)) in
    let front = take-slice m.tail 0 n m.info.body_length h in
    elim (Bool-cases (ltb 1 nr)) [
      | inl e ↦ (
        record m { info = record m.info { body_length = n }; tail = blit m.tail n others },
        rw (not_less, e) refl,
        slice-blit_before m.tail n others 0 n (omega arith) ∙ sym front,
        (λ q.
            ap (λ z. m.dest ++ z)
              (slice-blit_self m.tail n others (doid_size * nr) (sym size)
                (omega (arith, v.room)))),
        (λ q. absurd (ground arith)),
      )
      | inr e ↦ (
        record m { info = record m.info { body_length = n } },
        rw (not_less, e) refl,
        sym front,
        (λ q. (let none_there : nr ≡ 0 = ground arith in rw none_there refl)),
        (λ q. ap (λ z. m.dest ++ slice m.tail n (doid_size * z)) q),
      )
    ]

length-all_bytes : (ds : List Doid) → length (all_bytes ds) ≡ doid_size * length ds
unfolding all_bytes bytes
length-all_bytes [] = refl
length-all_bytes (d ∷ ds) = omega (arith, length-all_bytes ds)

drop-all_bytes : (ds : List Doid) → all_bytes (drop 1 ds) ≡ drop doid_size (all_bytes ds)
unfolding all_bytes bytes
drop-all_bytes [] = refl
drop-all_bytes (d ∷ ds) = refl

if_length :
    (sort : List Doid → List Doid) (ds : List Doid) (n : ℕ) (b : Bool)
    → ((xs : List Doid) → length (sort xs) ≡ length xs)
    → length ds ≡ n
    → length (if b then sort ds else ds) ≡ n
if_length sort ds n b perm e = ground (arith, perm ds)

-- The addresses behind the first, where there are any, stand behind the body.
blit_rest :
    (num body : ℕ) (tail rest : List ℕ)
    → length rest ≡ doid_size * (num - 1)
    → body + doid_size * (num - 1) ≤ length tail
    → let tail' = if ltb 1 num then blit tail body rest else tail in
      (slice tail' body (doid_size * (num - 1)) ≡ rest) × (take body tail' ≡ take body tail)
blit_rest num body tail rest e h = elim (Bool-cases (ltb 1 num)) [
  | inl q ↦ rw q (
    slice-blit_self tail body rest (doid_size * (num - 1)) (sym e) (omega arith),
    slice-blit_before tail body rest 0 body (omega arith),
  )
  | inr q ↦
      let no_more : doid_size * (num - 1) ≡ 0 = ground arith in
      rw (q, no_more) (sym (nil_of rest (e ∙ no_more)), refl)
]
  where
    nil_of : (xs : List ℕ) → length xs ≡ 0 → xs ≡ []
    nil_of xs z = (take-drop_all 0 xs z).1

-- `Init` of a message to `num` addresses, with memory for the body and the addresses behind the first,
-- succeeds and leaves the body in place; the message goes to the addresses given, or to what the sort
-- made of them where they were to be sorted. The length and the method are those given.
pub init-destinations :
    (sort : List Doid → List Doid) (body_length method_id : ℕ) (src : Doid) (dests : List Doid)
    (num : ℕ) (rearrange : Bool) (m : Message)
    → ((ds : List Doid) → length (sort ds) ≡ length ds)
    → body_length < 2 ^ 18
    → method_id ≤ 0x3FFFF
    → 0 < num
    → num ≤ 63
    → length dests ≡ num
    → body_length + doid_size * (num - 1) ≤ length m.tail
    → (m' : Message) × (init sort body_length method_id src (some dests) num rearrange m ≡ some m')
      × (destinations m' ≡ all_bytes (if ltb 1 num && rearrange then sort dests else dests))
      × (get_body m' ≡ take body_length m.tail)
      × (m'.info.method_id ≡ method_id)
      × (get_length m' ≡ 24 + body_length + doid_size * (num - 1))
unfolding init init_dests get_body get_length
init-destinations sort body method src dests num rearrange m perm h k p q e r =
    let small : (ltb 63 num || ltb 0x3FFFF method) ≡ false = ground arith in
    let (t, d) = take-drop_all num dests e in
    let same : sort (take num dests) ++ drop num dests ≡ sort dests =
      ap₂ (λ x y. sort x ++ y) t d ∙ append-nil (sort dests) in
    let ds = if ltb 1 num && rearrange then sort dests else dests in
    let bytes = all_bytes ds in
    let count : length ds ≡ num = if_length sort dests num (ltb 1 num && rearrange) perm e in
    let size : length bytes ≡ doid_size * num =
      length-all_bytes ds ∙ ap (λ z. doid_size * z) count in
    let others : take (doid_size * (num - 1)) (all_bytes (drop 1 ds)) ≡ drop doid_size bytes =
      ap (take (doid_size * (num - 1))) (drop-all_bytes ds)
      ∙ (take-drop_all (doid_size * (num - 1)) (drop doid_size bytes)
          (omega (arith, size, length-drop doid_size bytes))).0 in
    let body' : body % 2 ^ 18 ≡ body = omega arith in
    let method' : method % 2 ^ 20 ≡ method = omega arith in
    let nr : sub32 num 1 % 2 ^ 6 ≡ num - 1 = omega arith in
    let rest = drop doid_size bytes in
    let placed =
      blit_rest num body m.tail rest (omega (arith, size, length-drop doid_size bytes))
        (omega arith) in
    (
      init_dests sort body method src dests num rearrange m,
      rw small refl,
      rw (same, body', nr, others)
          (ap (λ z. take doid_size bytes ++ z) (placed.0) ∙ take-append-drop doid_size bytes),
      rw (same, body', others) placed.1,
      method',
      rw (body', nr) (omega arith),
    )

-- ===== src/Netif/Receive.antt =====
-- The ring against a list of packets that wait.
use unikernel_with_region_in.Base.{
  ℕ, zero, suc, ◌+◌, ◌-◌, ◌%◌, ◌<◌, ◌≡◌, ◌≢◌, refl, ap, sym, ◌∙◌, arith, ◌==◌, ==_of_ne, ==_refl,
  ltb, if◌then◌else◌, none, some, List, [], ◌∷◌, ◌++◌, length, Bool-cases, inl, inr,
}
use unikernel_with_region_in.Netif.Queue.{
  Packet, Ring, queue_size, initial, put_slot, netif_rx, take,
}

pub record IsValid (q : Ring) : Type 0 where
  pub write_in : q.write_pos < queue_size
  pub read_in : q.read_pos < queue_size

-- The slots from `i` on, `k` of them.
abbrev pub slots_from : (ℕ → Packet) → ℕ → ℕ → List Packet
slots_from f zero i = []
slots_from f (suc k) i = f i ∷ slots_from f k ((i + 1) % queue_size)

abbrev pub how_many : Ring → ℕ
how_many q = (q.write_pos + 999 - q.read_pos) % queue_size

-- The packets that were put and not taken.
abbrev pub pending : Ring → List Packet
pending q = slots_from q.slots (how_many q) ((q.read_pos + 1) % queue_size)

slots_from-put :
    (k i w : ℕ) (f : ℕ → Packet) (p : Packet)
    → k < queue_size
    → i < queue_size
    → w ≡ (i + k) % queue_size
    → slots_from (put_slot f w p) (suc k) i ≡ slots_from f k i ++ (p ∷ [])
slots_from-put zero i w f p hk hi e = let here : i ≡ w = omega arith in rw (here, ==_refl w) refl
slots_from-put (suc k) i w f p hk hi e =
    let there : i ≢ w = omega arith in
    rw (==_of_ne i w there) (
      ap (λ l. f i ∷ l)
        (slots_from-put k ((i + 1) % queue_size) w f p (omega arith) (omega arith) (omega arith)))

netif_rx-IsValid : (p : Packet) (q : Ring) → IsValid q → IsValid (netif_rx p q)
unfolding netif_rx
netif_rx-IsValid p q v = record { write_in = omega arith; read_in = v.read_in }

-- A ring that is not full takes a packet behind the others.
pub pending-netif_rx :
    (p : Packet) (q : Ring)
    → IsValid q
    → how_many q < 999
    → pending (netif_rx p q) ≡ pending q ++ (p ∷ [])
unfolding netif_rx
pending-netif_rx p q v room =
    ap (λ n. slots_from (put_slot q.slots q.write_pos p) n ((q.read_pos + 1) % queue_size))
      {y = suc (how_many q)} (omega (arith, v.write_in, v.read_in))
    ∙ slots_from-put (how_many q) ((q.read_pos + 1) % queue_size) q.write_pos q.slots p
        (omega arith) (omega arith) (omega (arith, v.write_in, v.read_in))

-- A full ring is empty after it takes a packet.
pub pending-netif_rx_full :
    (p : Packet) (q : Ring) → IsValid q → how_many q ≡ 999 → pending (netif_rx p q) ≡ []
unfolding netif_rx
pending-netif_rx_full p q v full =
    ap (λ n. slots_from (put_slot q.slots q.write_pos p) n ((q.read_pos + 1) % queue_size)) {y = 0}
      (omega (arith, v.write_in, v.read_in))

length-pending : (f : ℕ → Packet) (k i : ℕ) → length (slots_from f k i) ≡ k
length-pending f zero i = refl
length-pending f (suc k) i = ap suc (length-pending f k ((i + 1) % queue_size))

take-empty : (q : Ring) → IsValid q → how_many q ≡ 0 → take q ≡ none
unfolding take
take-empty q v h =
    let e : (q.read_pos + 1) % queue_size ≡ q.write_pos = omega (arith, v.write_in, v.read_in) in
    rw (e, ==_refl q.write_pos) refl

pub take-first :
    (q : Ring)
    → IsValid q
    → 0 < how_many q
    → (q' : Ring) × (take q ≡ some (q.slots ((q.read_pos + 1) % queue_size), q'))
      × IsValid q'
      × (pending q ≡ q.slots ((q.read_pos + 1) % queue_size) ∷ pending q')
unfolding take
take-first q v h =
    let ne : (q.read_pos + 1) % queue_size ≢ q.write_pos = omega (arith, v.write_in, v.read_in) in
    let q' = record q { read_pos = (q.read_pos + 1) % queue_size } in
    (
      q',
      rw (==_of_ne ((q.read_pos + 1) % queue_size) q.write_pos ne) refl,
      record { write_in = v.write_in; read_in = omega arith },
      ap (λ n. slots_from q.slots n ((q.read_pos + 1) % queue_size)) {y = suc (how_many q')}
          (omega (arith, v.write_in, v.read_in)),
    )

-- What happens to the ring: the driver brings a packet, or Receive looks for one.
pub data Event : Type 0 where
  arrives : Packet → Event
  reads : Event

-- The packets that Receive gets, on the ring and on a list that is emptied by the packet for which
-- there is no room.
unfoldable pub received_from : List Event → Ring → List Packet
received_from [] q = []
received_from (arrives p ∷ es) q = received_from es (netif_rx p q)
received_from (reads ∷ es) q = elim (take q) [
  | none ↦ received_from es q
  | some (p, q') ↦ p ∷ received_from es q'
]

abbrev pub arrive_at : Packet → List Packet → List Packet
arrive_at p ps = if ltb (length ps) 999 then ps ++ (p ∷ []) else []

unfoldable pub expected_from : List Event → List Packet → List Packet
expected_from [] ps = []
expected_from (arrives p ∷ es) ps = expected_from es (arrive_at p ps)
expected_from (reads ∷ es) [] = expected_from es []
expected_from (reads ∷ es) (p ∷ ps) = p ∷ expected_from es ps

arrive_at-pending :
    (p : Packet) (q : Ring) → IsValid q → pending (netif_rx p q) ≡ arrive_at p (pending q)
arrive_at-pending p q v = elim (Bool-cases (ltb (how_many q) 999)) [
  | inl h ↦
      rw (length-pending q.slots (how_many q) ((q.read_pos + 1) % queue_size), h)
        (pending-netif_rx p q v (ground arith))
  | inr h ↦
      rw (length-pending q.slots (how_many q) ((q.read_pos + 1) % queue_size), h)
        (pending-netif_rx_full p q v (ground arith))
]

received_from-pending :
    (es : List Event) (q : Ring) → IsValid q → received_from es q ≡ expected_from es (pending q)
unfolding received_from expected_from
received_from-pending [] q v = refl
received_from-pending (arrives p ∷ es) q v =
    received_from-pending es (netif_rx p q) (netif_rx-IsValid p q v)
    ∙ ap (expected_from es) (arrive_at-pending p q v)
received_from-pending (reads ∷ es) q v = elim (Bool-cases (how_many q == 0)) [
  | inl h ↦
      let none_left : how_many q ≡ 0 = ground arith in
      let nothing : pending q ≡ [] =
        ap (λ n. slots_from q.slots n ((q.read_pos + 1) % queue_size)) {y = 0} none_left in
      rw (take-empty q v none_left, received_from)
        (received_from-pending es q v
          ∙ ap (expected_from es) nothing
          ∙ sym (ap (expected_from (reads ∷ es)) nothing))
  | inr h ↦
      let (q', e, v', l) = take-first q v (ground arith) in
      rw (e, received_from, l)
        (ap (λ ps. q.slots ((q.read_pos + 1) % queue_size) ∷ ps) (received_from-pending es q' v'))
]

-- For every sequence of arrivals and reads from the start, Receive gets the packets in the order of
-- arrival and each once, as from a list; but a packet that arrives while 999 packets wait empties it,
-- and all of them are lost.
pub netif_lem :
    (slots : ℕ → Packet) (es : List Event) → received_from es (initial slots) ≡ expected_from es []
netif_lem slots es =
    received_from-pending es (initial slots)
      (record { write_in = omega arith; read_in = omega arith })

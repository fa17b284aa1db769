-- ===== src/Netif/Queue.antt =====
-- The ring of packets of netif-miniOS.c: dataPtrs, dataLengths, writePos and readPos.
use unikernel_with_region_in.Base.{ℕ, ◌+◌, ◌%◌, ◌==◌, Option, none, some, if◌then◌else◌}
use unikernel_with_region_in.Base.Int.{ℤ}
use unikernel_with_region_in.State.{Ptr}

abbrev pub queue_size : ℕ
queue_size = 1000

pub record Packet : Type 0 where
  pub start : Ptr
  pub len : ℤ

-- Slot `i` holds `dataPtrs[i]` and `dataLengths[i]`.
pub record Ring : Type 0 where
  pub slots : ℕ → Packet
  pub write_pos : ℕ
  pub read_pos : ℕ

abbrev pub initial : (ℕ → Packet) → Ring
initial slots = record { slots = slots; write_pos = 1; read_pos = 0 }

abbrev pub put_slot : (ℕ → Packet) → ℕ → Packet → ℕ → Packet
put_slot f i p j = if j == i then p else f j

unfoldable pub netif_rx : Packet → Ring → Ring
netif_rx p q = record q {
  slots = put_slot q.slots q.write_pos p;
  write_pos = (q.write_pos + 1) % queue_size;
}

-- The first steps of Receive: `none` while it waits.
unfoldable pub take : Ring → Option (Packet × Ring)
take q =
    let new_read_pos = (q.read_pos + 1) % queue_size in
    if new_read_pos == q.write_pos
    then none
    else some (q.slots new_read_pos, record q { read_pos = new_read_pos })

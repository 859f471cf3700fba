-- ===== src/Machine/Entropy.antt =====
-- vm.h with virtio/rng.h: what every access to the bus does for the entropy device.
use kthxvm.Base.{
  ℕ, ◌+◌, ◌*◌, ◌%◌, ◌^◌, ◌<◌, ◌≡◌, ◌≢◌, refl, ◌∙◌, Bool, true, List, [], ◌∷◌, length, map, u8, ok,
  arith,
}
use kthxvm.Memory.{load, Memory, read_bytes, Apart}
use kthxvm.Interrupt.{Interrupt}
use kthxvm.Interrupt.Lines.{Lines, line, deliver_to-nil, deliver_to-raise}
use kthxvm.Queue.{used_slot, Queue, descriptor, desc_at, avail_idx, avail_ring, used_idx}
use kthxvm.Config.{Config}
use kthxvm.Mmio.{Register, Device, queue_at}
use kthxvm.Mmio.Bus.{Slot, bus_update}
use kthxvm.Rng.Members.{update_selected}
use kthxvm.Rng.Update.{update_lem}
use kthxvm.Machine.Virtio.{Class, blk, rng, net, members, update}
use kthxvm.Blk.Members as BlkMembers
use kthxvm.Net.Members as NetMembers

-- The slots of the bus of the machine.
abbrev pub slot : ℕ → ℕ → Device Class → Class → Slot Class
slot addr irq d state = record {
  range = record { addr = addr; width = 0x1000 };
  device = record d { backend = state };
  irq = irq;
}

abbrev pub with_queue : Device Class → Queue → Device Class
with_queue d q = record d { queue_index = 0; queues = q ∷ [] }

abbrev pub slots : Device Class → Config → Device Class → Device Class → Config → List (Slot Class)
slots db cb dr dn cn =
    slot 0xd0000000 12 db (blk cb) ∷ slot 0xd0001000 13 dr rng ∷ slot 0xd0002000 14 dn (net cn) ∷ []

module _ (blk_bits : BlkMembers.Bits) (net_bits : NetMembers.Bits) (random : ℕ → List ℕ)
    (rng_id : ℕ) (decode : ℕ → Register) (version_1 : ℕ) (writable : ℕ → Bool) where
  -- With lines 12 to 14 registered, and line 13 on an eventfd that can be written: if the queue of
  -- the entropy device is ready and has a size, and its driver has published a buffer apart from
  -- the table of descriptors and from the used ring, then the update of the bus fills that buffer
  -- with random bytes, returns it with its length as the next used buffer and raises line 13,
  -- whatever the block and the network device are doing.
  pub bus_update-random :
      (lines : Lines) (db dr dn : Device Class) (cb cn : Config) (q : Queue) (m : Memory)
      (l12 l13 l14 : Interrupt)
      → line lines 12 ≡ ok l12
      → line lines 13 ≡ ok l13
      → line lines 14 ≡ ok l14
      → writable l13.fd ≡ true
      → ((n : ℕ) → length (random n) ≡ n)
      → q.ready ≡ true
      → q.size ≢ 0
      → q.last_avail < avail_idx q m
      → let d = descriptor m (desc_at q (avail_ring q m (q.last_avail % q.size))) in
        Apart d.addr d.len q.desc_addr (16 * 2 ^ 16)
        → Apart d.addr d.len (q.used_addr + 2) (2 + 8 * q.size)
        → let q' = record q { last_avail = q.last_avail + 1 } in
          (lines' : Lines) × (l : Interrupt) × (m' : Memory) × (bus_update
              (members blk_bits net_bits random rng_id)
              decode
              version_1
              writable
              lines
              (slots db cb (with_queue dr q) dn cn)
              m
            ≡ ok (lines', slots db cb (with_queue dr q') dn cn, m'))
          × (line lines' 13 ≡ ok l)
          × (l.state ≡ true)
          × (read_bytes m' d.addr d.len ≡ map u8 (random d.len))
          × (load 4 m' (used_slot q (used_idx q m % q.size))
              ≡ avail_ring q m (q.last_avail % q.size))
          × (load 4 m' (used_slot q (used_idx q m % q.size) + 4) ≡ d.len)
          × (used_idx q m' ≡ (used_idx q m + 1) % 2 ^ 16)
  unfolding bus_update update update_selected queue_at
  bus_update-random lines db dr dn cb cn q m l12 l13 l14 h12 h13 h14 w sized ready s lt table ring =
      let (m', done, filled, number, len, moved) =
        update_lem random q m sized ready s lt table ring in
      let (lines', l, raise, there, up, others) = deliver_to-raise writable lines 13 l13 h13 w in
      let last : line lines' 14 ≡ ok l14 = others 14 (omega arith) ∙ h14 in
      (
        lines',
        l,
        m',
        rw
            (
              deliver_to-nil writable lines 12 h12,
              done,
              raise,
              deliver_to-nil writable lines' 14 last,
            )
            refl,
        there,
        up,
        filled,
        number,
        len,
        moved,
      )

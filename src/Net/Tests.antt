-- ===== src/Net/Tests.antt =====
-- virtio/net.h on a frame of six bytes in two buffers, at descriptors 0 and 1.
use kthxvm.Base.{
  ℕ, ◌≡◌, ◌==◌, refl, true, [], ◌∷◌, some, ok, ◌>>=◌, if◌then◌else◌, set_level, arith, inl,
}
use kthxvm.Memory.{Memory, load}
use kthxvm.Queue.{Queue, descriptor, add_used}
use kthxvm.Net.{update_tx, update_rx}
use kthxvm.Net.Receive.{delivered, update_rx_lem}
use kthxvm.Net.Transmit.{bytes, update_tx_lem}

abbrev queue : ℕ → Queue
queue last_avail = record {
  size = 4;
  desc_addr = 0x1000;
  avail_addr = 0x2000;
  used_addr = 0x3000;
  notify = 0;
  last_avail = last_avail;
  ready = true;
}

abbrev memory : Memory
memory a =
    if a == 0x1001
    then 0x40
    else if a == 0x1008
    then 4
    else if a == 0x100c
    then 1
    else if a == 0x100e
    then 1
    else if a == 0x1011
    then 0x50
    else if a == 0x1018
    then 2
    else if a == 0x2002
    then 1
    else 0

update_tx_lem_example : update_tx (λ frame. 6) 65562 2 (queue 0) memory ≡ (
    add_used (queue 1) memory 0 6 >>= λ (m', idx). ok (
      some (record {
        queue = queue 1;
        memory = m';
        frames = bytes memory (0x4000, 4) ((0x5000, 2) ∷ []) ∷ [];
        effects = set_level true ∷ [];
      })))
unfolding load descriptor
update_tx_lem_example =
    update_tx_lem (λ frame. 6) 65562 2 (queue 0) memory (0x4000, 4) ((0x5000, 2) ∷ []) refl
      (omega arith) (omega arith) (refl, refl, refl, (refl, refl, refl)) (omega arith) (omega arith)

-- The same chain, with its buffers behind the table of descriptors.
abbrev far : Memory
far a =
    if a == 0x1001
    then 0
    else if a == 0x1002
    then 0x40
    else if a == 0x1011
    then 0
    else if a == 0x1012
    then 0x50
    else memory a

update_rx_lem_example :
    update_rx true (some (1 ∷ 2 ∷ 3 ∷ 4 ∷ 5 ∷ [])) 2 (queue 0) (9 ∷ 9 ∷ 9 ∷ 9 ∷ 9 ∷ 9 ∷ []) far ≡ (
      add_used
        (queue 1)
        (delivered far (1 ∷ 2 ∷ 3 ∷ 4 ∷ 5 ∷ []) (0x400000, 4) ((0x500000, 2) ∷ []))
        0
        5
      >>= λ (m', idx). ok (
          some (record {
            queue = queue 1;
            memory = m';
            buffer = 1 ∷ 2 ∷ 3 ∷ 4 ∷ 5 ∷ 9 ∷ [];
            effects = set_level true ∷ [];
          })))
unfolding load descriptor
update_rx_lem_example =
    update_rx_lem (1 ∷ 2 ∷ 3 ∷ 4 ∷ 5 ∷ []) (9 ∷ 9 ∷ 9 ∷ 9 ∷ 9 ∷ 9 ∷ []) 2 (queue 0) far
      (0x400000, 4) ((0x500000, 2) ∷ []) refl (omega arith) (omega arith)
      (refl, refl, refl, (refl, refl, refl)) (inl (omega arith), inl (omega arith)) (omega arith)
      (omega arith) (omega arith)

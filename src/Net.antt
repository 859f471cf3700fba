-- ===== src/Net.antt =====
-- src/kvm/virtio/net.h, the network device: the transmission and the reception of a frame.
-- `send` is what `write` on the tap device returns for a frame, at 32 bits, and `room` the size of
-- the buffer, 65550 and the size of the header. The walk along a chain has fuel, and its result is
-- `none` if that is used up.
pub mod Transmit
pub mod Receive
pub mod Members
mod Tests
use kthxvm.Base.{
  ℕ, zero, suc, true, Option, none, some, List, [], ◌∷◌, ◌++◌, length, has, ltb, ◌==◌, ◌+◌, ◌-◌,
  ◌^◌, min, drop, slice, sub64, Bool, u32, if◌then◌else◌, Result, ok, err, fault, ◌>>=◌, Effect,
  set_level,
}
use kthxvm.Memory.{Memory, read_bytes, write_bytes}
use kthxvm.Queue.{Queue, descriptor, desc_at, avail_id, next, pop_back, add_used}

pub record Net : Type 0 where
  pub queue : Queue
  pub memory : Memory
  pub frames : List (List ℕ)
  pub effects : List Effect

-- The loop of `update_tx`, from the descriptor at `p` on, with the bytes that are copied.
pub gather_frame : ℕ → ℕ → Queue → Memory → ℕ → List ℕ → Result (Option (List ℕ))
gather_frame room zero q m p buffer = ok none
gather_frame room (suc n) q m p buffer =
    let d = descriptor m p in
    let buffer' = buffer ++ read_bytes m d.addr d.len in
    let later = gather_frame room n q m (desc_at q d.next) buffer' in
    if ltb room (length buffer')
    then err fault
    else if has d.flags 0x1
    then later
    else ok (some buffer')

module _ (send : List ℕ → ℕ) (room : ℕ) where
  -- After the frame is sent: the buffer is returned and the line raised.
  pub return_frame : Queue → Memory → ℕ → Option (List ℕ) → Result (Option Net)
  return_frame q m start none = ok none
  return_frame q m start (some frame) = do
    (m', idx) ← add_used q m start (u32 (send frame))
    ok (
        some
          (record { queue = q; memory = m'; frames = frame ∷ []; effects = set_level true ∷ [] }))

  -- The frames are those that `write` is given.
  pub update_tx : ℕ → Queue → Memory → Result (Option Net)
  update_tx n q m = do
    (q', o) ← next q m
    elim o [
      | none ↦ ok (some (record { queue = q'; memory = m; frames = []; effects = [] }))
      | some p ↦ do
        start ← avail_id q' m
        frame ← gather_frame room n q' m p []
        return_frame q' m start frame
    ]

-- `update_ctrl`: a command is returned as it is, with the length zero.
pub update_ctrl : Queue → Memory → Result Net
update_ctrl q m = do
  (q', o) ← next q m
  elim o [
    | none ↦ ok (record { queue = q'; memory = m; frames = []; effects = [] })
    | some p ↦ do
      start ← avail_id q' m
      (m', idx) ← add_used q' m start 0
      ok (record { queue = q'; memory = m'; frames = []; effects = set_level true ∷ [] })
  ]

-- `buffer` is the static array of the function, which a later call finds as this one leaves it.
pub record Received : Type 0 where
  pub queue : Queue
  pub memory : Memory
  pub buffer : List ℕ
  pub effects : List Effect

-- The loop of `update_rx`, from the descriptor at `p` on: the memory, and `len`. `size` is what
-- `read` returned, at 64 bits. A descriptor is read again after the bytes are stored.
pub scatter_frame : List ℕ → ℕ → ℕ → Queue → Memory → ℕ → ℕ → Result (Option (Memory × ℕ))
scatter_frame buffer size zero q m p len = ok none
scatter_frame buffer size (suc n) q m p len =
    let d = descriptor m p in
    let write_len = min (u32 (sub64 size len)) d.len in
    let m' = write_bytes m d.addr (slice buffer len write_len) in
    let d' = descriptor m' p in
    let len' = u32 (len + write_len) in
    let later = scatter_frame buffer size n q m' (desc_at q d'.next) len' in
    if ltb (length buffer) (len + write_len)
    then err fault
    else if len' == size
    then ok (some (m', len'))
    else if has d'.flags 0x1
    then later
    else ok (some (m', len'))

-- The end of `update_rx`.
pub return_buffer : Queue → List ℕ → ℕ → Option (Memory × ℕ) → Result (Option Received)
return_buffer q buffer start none = ok none
return_buffer q buffer start (some (m, len)) = do
  (m', idx) ← add_used q m start len
  ok (some (record { queue = q; memory = m'; buffer = buffer; effects = set_level true ∷ [] }))

-- The number that `read` returns, and the array after it: `received` is the frame, which is no
-- longer than the array, or `none` for a failure, which is -1 and only prints.
abbrev pub read_size : Option (List ℕ) → ℕ
read_size none = 2 ^ 64 - 1
read_size (some frame) = length frame

abbrev pub read_into : List ℕ → Option (List ℕ) → List ℕ
read_into buffer none = buffer
read_into buffer (some frame) = frame ++ drop (length frame) buffer

-- `readable` is what the poll of the tap device gives.
pub update_rx : Bool → Option (List ℕ) → ℕ → Queue → List ℕ → Memory → Result (Option Received)
update_rx readable received n q buffer m = do
  (q', o) ← next q m
  elim o [
    | none ↦ ok (some (record { queue = q'; memory = m; buffer = buffer; effects = [] }))
    | some p ↦
        if readable
        then (do
          start ← avail_id q' m
          let buffer' = read_into buffer received
          r ← scatter_frame buffer' (read_size received) n q' m p 0
          return_buffer q' buffer' start r)
        else ok (some (record { queue = pop_back q'; memory = m; buffer = buffer; effects = [] }))
  ]

-- ===== src/Uart.antt =====
-- src/kvm/device/uart.h, the serial port `kvm::device::uart`.
-- Each method runs under the device's mutex, so it is one step on the state. Calls of
-- `irq->set_level` and `term->put` are returned as effects, in order.
-- `update_irq` reads `tmp_iir` before anything is stored in it: `junk` is what it holds then.
pub mod Invariant
pub mod Fifo
pub mod Input
pub mod Registers
pub mod Terminal
mod Tests
use kthxvm.Base.{
  ℕ, ◌+◌, ◌≡◌, List, [], ◌∷◌, ◌++◌, Bool, true, false, ◌&&◌, ◌||◌, not, bit_and, bit_or, u8, u16,
  has, ltb, ◌==◌, if◌then◌else◌, ◌<<<◌, ◌>>>◌, get_or, set, take, replicate, Effect, set_level, put,
}

pub record Uart : Type 0 where
  pub has_term : Bool
  pub baud_divisor : ℕ
  pub ier : ℕ
  pub iir : ℕ
  pub fcr : ℕ
  pub lcr : ℕ
  pub mcr : ℕ
  pub lsr : ℕ
  pub msr : ℕ
  pub scr : ℕ
  pub rx_buf : List ℕ
  pub rx_cnt : ℕ
  pub rx_done : ℕ
  pub tx_buf : List ℕ
  pub tx_cnt : ℕ

abbrev pub fifo_len : ℕ
fifo_len = 64

-- The constructor and the member initialisers. The two arrays are not initialised.
pub init : Bool → List ℕ → List ℕ → Uart
init has_term rx tx = record {
  has_term = has_term;
  baud_divisor = 0;
  ier = 0;
  iir = 0x1;
  fcr = 0;
  lcr = 0;
  mcr = 0x08;
  lsr = bit_or 0x20 0x40;
  msr = bit_or (bit_or 0x20 0x10) 0x80;
  scr = 0;
  rx_buf = rx;
  rx_cnt = 0;
  rx_done = 0;
  tx_buf = tx;
  tx_cnt = 0;
}

pub is_dlab_set : Uart → Bool
is_dlab_set u = has u.lcr 0x80

pub is_loop : Uart → Bool
is_loop u = has u.mcr 0x10

pub flush_tx : Uart → Uart × List Effect
flush_tx u =
    let u' = record u { lsr = bit_or u.lsr (bit_or 0x20 0x40) } in
    if u.tx_cnt == 0
    then (u', [])
    else (record u' { tx_cnt = 0 }, if u.has_term then put (take u.tx_cnt u.tx_buf) ∷ [] else [])

-- `tmp_iir` when it is tested.
pub pending : Uart → ℕ → ℕ
pending u junk =
    let recv = if has u.ier 0x1 && has u.lsr 0x1 then bit_or junk 0x4 else junk in
    if has u.ier 0x2 && has u.lsr 0x40 then bit_or recv 0x2 else recv

pub raise : Uart → ℕ → Uart × List Effect
raise u tmp_iir =
    if tmp_iir == 0
    then (record u { iir = 0x1 }, set_level false ∷ [])
    else (record u { iir = tmp_iir }, set_level true ∷ set_level false ∷ [])

pub update_irq : Uart → ℕ → Uart × List Effect
unfolding pending raise flush_tx
update_irq u junk =
    let (u1, es1) = raise u (pending u junk) in
    let (u2, es2) = flush_tx u1 in if has u.ier 0x2 then (u1, es1) else (u2, es1 ++ es2)

-- `case DATA` of `read`: the state, and the byte if one is stored in `buf[0]`.
pub read_data : Uart → List ℕ → Uart × List ℕ
read_data u buf =
    let u' = record u { rx_done = u8 (u.rx_done + 1) } in
    let buf' = set buf 0 (get_or u.rx_buf u.rx_done 0) in
    if u.rx_cnt == u.rx_done
    then (u, buf)
    else if has u.lsr 0x10
    then (record u { lsr = bit_and u.lsr 0xef }, set buf 0 0)
    else if u.rx_cnt == u'.rx_done
    then (record u' { lsr = bit_and u.lsr 0xfe; rx_cnt = 0; rx_done = 0 }, buf')
    else (u', buf')

-- The second `switch` of `read`.
pub read_register : Uart → ℕ → List ℕ → Uart × List ℕ
read_register u offset buf =
    if offset == 0
    then read_data u buf
    else if offset == 1
    then (u, set buf 0 u.ier)
    else if offset == 2
    then (u, set buf 0 (bit_or u.iir 0xc0))
    else if offset == 3
    then (u, set buf 0 u.lcr)
    else if offset == 4
    then (u, set buf 0 u.mcr)
    else if offset == 5
    then (u, set buf 0 u.lsr)
    else if offset == 6
    then (u, set buf 0 u.msr)
    else if offset == 7
    then (u, set buf 0 u.scr)
    else (u, buf)

pub read : Uart → ℕ → ℕ → ℕ → Uart × List ℕ × List Effect
read u junk offset size =
    let buf = replicate size 0 in
    let (u', buf') = read_register u offset buf in
    let (u'', es) = update_irq u' junk in
    if is_dlab_set u && offset == 0
    then (u, set buf 0 (u8 u.baud_divisor), [])
    else if is_dlab_set u && offset == 1
    then (u, set buf 0 (u8 (u.baud_divisor >>> 8)), [])
    else (u'', buf', es)

-- The `switch` under `is_dlab_set()` of `write`. It does not return.
pub write_divisor : Uart → ℕ → ℕ → Uart
write_divisor u offset byte =
    if offset == 0
    then record u { baud_divisor = bit_or (bit_and u.baud_divisor 0xff00) (u16 byte) }
    else if offset == 1
    then record u { baud_divisor = bit_or (bit_and u.baud_divisor 0x00ff) (u16 (u16 byte <<< 8)) }
    else u

-- `rx_buf[rx_cnt++] = byte; lsr |= LSR_DATA_BIT`
pub receive : Uart → ℕ → Uart
receive u byte = record u {
  rx_buf = set u.rx_buf u.rx_cnt byte;
  rx_cnt = u8 (u.rx_cnt + 1);
  lsr = bit_or u.lsr 0x1;
}

-- `case DATA` of `write`.
pub write_data : Uart → ℕ → Uart × List Effect
unfolding is_loop flush_tx
write_data u byte =
    let stored = record u {
      tx_buf = set u.tx_buf u.tx_cnt byte;
      tx_cnt = u8 (u.tx_cnt + 1);
      lsr = bit_and u.lsr 0xbf;
    } in
    let half = record stored { lsr = bit_and stored.lsr 0xdf } in
    if is_loop u
    then (if ltb u.rx_cnt fifo_len then (receive u byte, []) else (u, []))
    else if ltb u.tx_cnt fifo_len
    then flush_tx (if stored.tx_cnt == 32 then half else stored)
    else (record u { lsr = bit_and u.lsr 0x9f }, [])

-- The second `switch` of `write`.
pub write_register : Uart → ℕ → ℕ → Uart × List Effect
write_register u offset byte =
    if offset == 0
    then write_data u byte
    else if offset == 1
    then (record u { ier = bit_and byte 0x0f }, [])
    else if offset == 2
    then (record u { fcr = byte }, [])
    else if offset == 3
    then (record u { lcr = byte }, [])
    else if offset == 4
    then (record u { mcr = byte }, [])
    else if offset == 7
    then (record u { scr = byte }, [])
    else (u, [])

-- `byte` is `data[0]`, the only byte that is read.
pub write : Uart → ℕ → ℕ → ℕ → Uart × List Effect
write u junk offset byte =
    let u0 = if is_dlab_set u then write_divisor u offset byte else u in
    let (u1, es1) = write_register u0 offset byte in
    let (u2, es2) = update_irq u1 junk in (u2, es1 ++ es2)

-- What `term->get()` gives while `term->readable(0)`: a byte, or -1 at the end of the input.
pub data Key : Type 0 where
  byte : ℕ → Key
  eof : Key

-- The loop of `write_stdio`, and the input that it leaves.
pub fill : Uart → List Key → Uart × List Key
fill u [] = (u, [])
fill u (eof ∷ keys) = (u, if ltb u.rx_cnt fifo_len then keys else eof ∷ keys)
fill u (byte c ∷ keys) =
    let rest = fill (receive u (u8 c)) keys in
    if ltb u.rx_cnt fifo_len then rest else (u, byte c ∷ keys)

pub write_stdio : Uart → ℕ → List Key → Uart × ℕ × List Key × List Effect
write_stdio u junk keys =
    let (u1, es1) = update_irq u junk in
    let (u2, rest) = fill u keys in
    let (u3, es3) = update_irq u2 junk in
    if is_loop u
    then (u, 0, keys, [])
    else if has u.lsr 0x1 || not (u.rx_cnt == 0)
    then (u1, 0, keys, es1)
    else (u3, 1, rest, es3)

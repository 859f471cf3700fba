-- ===== src/Blk/File.antt =====
-- The `std::fstream` on the disk's image that virtio/blk.h uses: its bytes, one position for
-- reading and writing, and the bit that a failure sets and that nothing clears.
use kthxvm.Base.{
  ℕ, ◌+◌, ◌-◌, ◌^◌, ◌≡◌, refl, ◌∙◌, Bool, true, false, List, [], ◌++◌, ltb, leb, ◌==◌,
  if◌then◌else◌, length, min, max, arith, Bool-cases, inl, inr, length-append, map, u8, ◌≤◌, ◌<◌,
}
use kthxvm.Memory.{
  Memory, write_bytes, read_bytes, write_bytes-nil, write_bytes-append, length-read_bytes,
  read_bytes-write_bytes, write_bytes-Outside, Outside,
}

pub record Stream : Type 0 where
  pub content : Memory
  pub size : ℕ
  pub pos : ℕ
  pub failed : Bool

-- `seekg` and `seekp`; an offset of 2^63 or more is negative.
pub seek : Stream → ℕ → Stream
seek f p =
    if f.failed
    then f
    else if leb (2 ^ 63) p
    then record f { failed = true }
    else record f { pos = p }

-- `read`: the bytes that are stored, which are fewer at the end of the file.
pub stream_read : Stream → ℕ → Stream × List ℕ
stream_read f n =
    let got = min n (f.size - f.pos) in
    if f.failed
    then (f, [])
    else (record f { pos = f.pos + got; failed = ltb got n }, read_bytes f.content f.pos got)

pub stream_write : Stream → List ℕ → Stream
stream_write f bs =
    let end = f.pos + length bs in
    if f.failed then f else record f {
      content = write_bytes f.content f.pos bs;
      pos = end;
      size = if length bs == 0 then f.size else max f.size end;
    }

-- Two writes in a row are one write of all the bytes.
pub stream_write-append :
    (f : Stream) (bs cs : List ℕ) → stream_write (stream_write f bs) cs ≡ stream_write f (bs ++ cs)
unfolding stream_write
stream_write-append f bs cs = elim (Bool-cases f.failed) [
  | inl bad ↦ rw bad refl
  | inr good ↦
      let all = length-append bs cs in
      let there : f.pos + length bs + length cs ≡ f.pos + length (bs ++ cs) = omega (arith, all) in
      let grown : (if length cs == 0
            then (if length bs == 0 then f.size else max f.size (f.pos + length bs))
            else max (if length bs == 0 then f.size else max f.size (f.pos + length bs))
                (f.pos + length bs + length cs))
          ≡ (if length (bs ++ cs) == 0 then f.size else max f.size (f.pos + length (bs ++ cs))) =
        ground (arith, all) in
      rw good (λ i. record {
        content = write_bytes-append bs cs f.content f.pos i;
        pos = there i;
        size = grown i;
        failed = false;
      })
]

pub stream_write-nil : (f : Stream) → stream_write f [] ≡ f
unfolding stream_write
stream_write-nil f = elim (Bool-cases f.failed) [
  | inl bad ↦ rw bad refl
  | inr good ↦
      let here : f.pos + 0 ≡ f.pos = omega arith in
      rw good (λ i. record {
        content = write_bytes-nil f.content f.pos i;
        pos = here i;
        size = f.size;
        failed = false;
      })
]

pub stream_read-length : (f : Stream) (n : ℕ) → length (stream_read f n).1 ≤ n
unfolding stream_read
stream_read-length f n = elim (Bool-cases f.failed) [
  | inl bad ↦ rw bad (omega arith)
  | inr good ↦
      let got = min n (f.size - f.pos) in
      rw (good, length-read_bytes got f.content f.pos) (omega arith)
]

pub stream_read_failed : (f : Stream) (n : ℕ) → f.failed ≡ true → stream_read f n ≡ (f, [])
unfolding stream_read
stream_read_failed f n bad = rw bad refl

pub seek_failed : (f : Stream) (p : ℕ) → f.failed ≡ true → seek f p ≡ f
unfolding seek
seek_failed f p bad = rw bad refl

-- A read inside of the file gives its bytes, and leaves the rest of the stream's state.
pub seek-stream_read :
    (f : Stream) (p n : ℕ)
    → f.failed ≡ false
    → p < 2 ^ 63
    → p + n ≤ f.size
    → stream_read (seek f p) n ≡ (record f { pos = p + n }, read_bytes f.content p n)
unfolding seek stream_read
seek-stream_read f p n good small inside =
    let below : leb (2 ^ 63) p ≡ false = ground arith in
    let all : min n (f.size - p) ≡ n = omega arith in
    let exact : ltb n n ≡ false = ground arith in rw (good, below, all, exact) refl

pub stream_read_inside :
    (f : Stream) (n : ℕ)
    → f.failed ≡ false
    → f.pos + n ≤ f.size
    → stream_read f n ≡ (record f { pos = f.pos + n }, read_bytes f.content f.pos n)
unfolding stream_read
stream_read_inside f n good inside =
    let all : min n (f.size - f.pos) ≡ n = omega arith in
    let exact : ltb n n ≡ false = ground arith in rw (good, all, exact) refl

pub seek_inside :
    (f : Stream) (p : ℕ) → f.failed ≡ false → p < 2 ^ 63 → seek f p ≡ record f { pos = p }
unfolding seek
seek_inside f p good small =
    let below : leb (2 ^ 63) p ≡ false = ground arith in rw (good, below) refl

-- In the file `f'` the run from `pos` on has these bytes, the rest is as in `f`, and the file has
-- not failed and ends behind the run if it did not reach so far.
pub record Stored (f : Stream) (pos : ℕ) (bytes : List ℕ) (f' : Stream) : Type 0 where
  pub has : read_bytes f'.content pos (length bytes) ≡ bytes
  pub kept : (x : ℕ) → Outside pos (length bytes) x → f'.content x ≡ f.content x
  pub grown : f'.size ≡ (if length bytes == 0 then f.size else max f.size (pos + length bytes))
  pub good : f'.failed ≡ false

pub stream_write-Stored :
    (f : Stream) (pos : ℕ) (bytes : List ℕ)
    → f.failed ≡ false
    → pos < 2 ^ 63
    → map u8 bytes ≡ bytes
    → Stored f pos bytes (stream_write (seek f pos) bytes)
unfolding stream_write seek
stream_write-Stored f pos bytes good small plain =
    let below : leb (2 ^ 63) pos ≡ false = ground arith in
    rw (good, below)
      (record {
        has = read_bytes-write_bytes bytes f.content pos ∙ plain;
        kept = λ x out. write_bytes-Outside bytes f.content pos x out;
        grown = refl;
        good = refl;
      })

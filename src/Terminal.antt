-- ===== src/Terminal.antt =====
-- src/os/terminal.h: the output and the input of the terminal. The answers of the system's calls
-- are arguments, one for each call; where they come to an end the result is `none`.
-- The attributes of the terminal, which the constructor sets, are not modelled.
pub mod Put
mod Tests
use kthxvm.Base.{
  ℕ, ◌+◌, ◌-◌, Bool, true, false, ◌&&◌, ◌||◌, Option, none, some, List, [], ◌∷◌, ◌++◌, ltb, ◌==◌,
  if◌then◌else◌,
}
use kthxvm.Memory.{Memory, read_bytes}

-- What `write` answers: how many bytes it took, or a failure.
pub data Wrote : Type 0 where
  wrote : ℕ → Wrote
  failed : Wrote

-- What `read` answers for one byte: the byte, the end of the input, or an error with its number.
pub data Got : Type 0 where
  got : ℕ → Got
  end : Got
  failed_with : ℕ → Got

-- The loop of `put`, from `offset` on: what it returns, and the bytes that are written. `area` is
-- the memory from `data` on: each call of `write` is given `size` bytes from `data + offset` on,
-- which go past the end of the buffer when `offset` is not zero.
pub put_loop : Memory → ℕ → ℕ → List Wrote → Option (ℕ × List ℕ)
put_loop area size offset [] = if ltb offset size then none else some (size, [])
put_loop area size offset (failed ∷ rest) =
    if ltb offset size then some (size - offset, []) else some (size, [])
put_loop area size offset (wrote n ∷ rest) =
    let sent = read_bytes area offset n in
    let later : Option (ℕ × List ℕ) = elim (put_loop area size (offset + n) rest) [
      | none ↦ none
      | some (ret, bytes) ↦ some (ret, sent ++ bytes)
    ] in
    if ltb offset size then later else some (size, [])

pub put : Memory → ℕ → List Wrote → Option (ℕ × List ℕ)
put area size answers = put_loop area size 0 answers

-- `get`, with `none` for -1; EAGAIN and EINTR are tried again, and another error leaves the zero
-- that `c` begins with.
pub get : List Got → Option (Option ℕ)
get [] = none
get (got c ∷ rest) = some (some c)
get (end ∷ rest) = some none
get (failed_with errno ∷ rest) =
    let again = get rest in if errno == 11 || errno == 4 then again else some (some 0)

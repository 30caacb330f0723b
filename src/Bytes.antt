-- ===== src/Bytes.antt =====
-- Byte buffers: `write_bytes`, `read_bytes` and `pad_slice` of nodes/src/lib.rs, and the integer
-- encodings that the callers use. A byte is a number below 256, an array is a list with its length
-- stated where it matters, and `none` is a panic: a slice out of range.
pub mod Laws
pub mod Reads
pub mod Parts
use arm_noir.Prelude.{
  ℕ, zero, suc, ◌+◌, ◌-◌, ◌*◌, ◌/◌, ◌%◌, ◌≤◌, Option, none, some, List, [], ◌∷◌, ◌++◌, length, take,
  drop, replicate, Bool, true, false, ◌==◌, leb, if◌then◌else◌, ◌>>=◌,
}

abbrev pub Bytes : Type 0
Bytes = List ℕ

-- `[0u8; N]`
unfoldable pub zeros : ℕ → Bytes
zeros n = replicate n 0

-- A destination and the offset of the next write.
abbrev pub Buffer : Type 0
Buffer = Bytes × ℕ

unfoldable pub write_bytes : Buffer → Bytes → Option Buffer
write_bytes (dest, offset) src =
    let next_offset = offset + length src in
    if leb next_offset (length dest)
    then some (take offset dest ++ (src ++ drop next_offset dest), next_offset)
    else none

-- Consecutive calls of `write_bytes` on one buffer.
unfoldable pub write_parts : List Bytes → Buffer → Option Buffer
write_parts [] buffer = some buffer
write_parts (part ∷ parts) buffer = do buffer' ← write_bytes buffer part; write_parts parts buffer'

-- `assert_eq!(offset, N)` and the array that was written.
abbrev pub finish : ℕ → Buffer → Option Bytes
finish n (bytes, offset) = if offset == n then some bytes else none

-- The parts one behind the other.
abbrev pub join : List Bytes → Bytes
join [] = []
join (part ∷ parts) = part ++ join parts

-- N bytes at the offset, and the next offset.
unfoldable pub read_bytes : ℕ → Bytes → ℕ → Option (Bytes × ℕ)
read_bytes n src offset =
    let next_offset = offset + n in
    if leb next_offset (length src) then some (take n (drop offset src), next_offset) else none

unfoldable pub pad_slice : ℕ → Bytes → Option Bytes
pad_slice m src = if leb (length src) m then some (src ++ zeros (m - length src)) else none

-- `to_le_bytes` and `to_be_bytes` of an integer of k bytes.
unfoldable pub le_bytes : ℕ → ℕ → Bytes
le_bytes zero n = []
le_bytes (suc k) n = (n % 256) ∷ le_bytes k (n / 256)

unfoldable pub be_bytes : ℕ → ℕ → Bytes
be_bytes zero n = []
be_bytes (suc k) n = be_bytes k (n / 256) ++ (n % 256) ∷ []

-- `b as u8`
abbrev pub flag_byte : Bool → ℕ
flag_byte b = if b then 1 else 0

-- The result of `copy_from_slice` into a slice of n bytes.
unfoldable pub copy_from_slice : ℕ → Bytes → Option Bytes
copy_from_slice n src = if length src == n then some src else none

-- `&b[..n]` and `&b[n..]`
unfoldable pub slice_to : ℕ → Bytes → Option Bytes
slice_to n b = if leb n (length b) then some (take n b) else none

unfoldable pub slice_from : ℕ → Bytes → Option Bytes
slice_from n b = if leb n (length b) then some (drop n b) else none

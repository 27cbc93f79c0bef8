-- ===== src/Net/Netbuf.antt =====
-- net/netbuf.c: packet buffers, and `net_checksum` of net/net.c. A buffer is the place of `data` in
-- `raw`, the length, and what the memory from `raw` on holds, also behind the NETBUF_SIZE bytes.
pub mod Inside
pub mod Checksum
mod Tests
use plant_os.Base.{
  ℕ, zero, suc, ◌+◌, ◌-◌, ◌*◌, ◌/◌, ◌%◌, ◌^◌, Bool, true, false, Option, none, some, List, [], ◌∷◌,
  length, ltb, leb, ◌==◌, if◌then◌else◌,
}

pub record Netbuf : Type 0 where
  pub raw : ℕ → ℕ
  pub start : ℕ
  pub len : ℕ

abbrev pub netbuf_size : ℕ
netbuf_size = 2048

abbrev pub netbuf_headroom : ℕ
netbuf_headroom = 64

-- What `netbuf_alloc` makes of the memory that it gets.
unfoldable pub netbuf_new : Netbuf
netbuf_new = record { raw = λ i. 0; start = netbuf_headroom; len = 0 }

-- `none` is NULL.
unfoldable pub netbuf_push : Netbuf → ℕ → Option Netbuf
netbuf_push nb n =
    if ltb nb.start n
    then none
    else some (record nb { start = nb.start - n; len = (nb.len + n) % 2 ^ 16 })

unfoldable pub netbuf_pull : Netbuf → ℕ → Option Netbuf
netbuf_pull nb n =
    if ltb nb.len n then none else some (record nb { start = nb.start + n; len = nb.len - n })

unfoldable pub netbuf_put : Netbuf → ℕ → Option Netbuf
netbuf_put nb n =
    if ltb netbuf_size (nb.start + nb.len + n)
    then none
    else some (record nb { len = (nb.len + n) % 2 ^ 16 })

-- `nb->data[i]`
abbrev pub byte : Netbuf → ℕ → ℕ
byte nb i = nb.raw (nb.start + i)

abbrev pub be16 : (ℕ → ℕ) → ℕ → ℕ
be16 b i = b i * 2 ^ 8 + b (i + 1)

abbrev pub be32 : (ℕ → ℕ) → ℕ → ℕ
be32 b i = be16 b i * 2 ^ 16 + be16 b (i + 2)

-- The bytes of a 16-bit and a 32-bit number in network order.
abbrev pub put16 : ℕ → List ℕ
put16 x = (x / 2 ^ 8) ∷ (x % 2 ^ 8) ∷ []

abbrev pub put32 : ℕ → List ℕ
put32 x = (x / 2 ^ 24) ∷ (x / 2 ^ 16 % 2 ^ 8) ∷ (x / 2 ^ 8 % 2 ^ 8) ∷ (x % 2 ^ 8) ∷ []

-- `memcpy` of the bytes to the place `i`.
unfoldable pub fill : (ℕ → ℕ) → ℕ → List ℕ → ℕ → ℕ
fill raw i [] j = raw j
fill raw i (x ∷ xs) j = let rest = fill raw (i + 1) xs j in if j == i then x else rest

-- The bytes that are written at `nb->data + i`.
abbrev pub write_bytes : Netbuf → ℕ → List ℕ → Netbuf
write_bytes nb i xs = record nb { raw = fill nb.raw (nb.start + i) xs }

-- The `n` bytes from place `i` on.
unfoldable pub slice : (ℕ → ℕ) → ℕ → ℕ → List ℕ
slice b i zero = []
slice b i (suc n) = b i ∷ slice b (i + 1) n

-- The bytes of the packet.
abbrev pub contents : Netbuf → List ℕ
contents nb = slice nb.raw nb.start nb.len

-- The loop of `net_checksum` over the bytes.
unfoldable pub sum16 : List ℕ → ℕ → ℕ
sum16 [] sum = sum
sum16 (x ∷ []) sum = (sum + x * 2 ^ 8) % 2 ^ 32
sum16 (x ∷ y ∷ xs) sum = sum16 xs ((sum + (x * 2 ^ 8 + y)) % 2 ^ 32)

-- `while (sum >> 16) sum = (sum & 0xFFFF) + (sum >> 16);`, at most `n` rounds.
unfoldable pub fold16 : ℕ → ℕ → ℕ
fold16 zero sum = sum
fold16 (suc n) sum =
    let more = fold16 n (sum % 2 ^ 16 + sum / 2 ^ 16) in if sum / 2 ^ 16 == 0 then sum else more

-- Three rounds are enough for 32 bits.
unfoldable pub net_checksum : List ℕ → ℕ
net_checksum xs = 2 ^ 16 - 1 - fold16 3 (sum16 xs 0) % 2 ^ 16

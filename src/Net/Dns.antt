-- ===== src/Net/Dns.antt =====
-- net/dns.c: names in wire format, replies, and the cache of resolved names. A string is the list of
-- its characters before the NUL, and a datagram is its length with what the memory from its start
-- on holds.
pub mod Spelling
pub mod Names
pub mod Reply
pub mod Cached
mod Tests
use plant_os.Base.{
  ℕ, zero, suc, ◌+◌, ◌-◌, ◌*◌, ◌/◌, ◌%◌, ◌^◌, Bool, true, false, ◌&&◌, ◌||◌, not, Option, none,
  some, List, [], ◌∷◌, ◌++◌, length, get_or, set, take, find_index, ltb, leb, ◌==◌, if◌then◌else◌,
}
use Prim.Native.Nat.{bit_or}

-- `struct dns_cache_entry`
pub record CacheEntry : Type 0 where
  pub hostname : List ℕ
  pub ip : ℕ
  pub timestamp : ℕ
  pub valid : Bool

abbrev pub blank : CacheEntry
blank = record { hostname = []; ip = 0; timestamp = 0; valid = false }

-- The loop of `dns_cache_lookup` over the two names, with the test behind it.
unfoldable pub name_eq : List ℕ → List ℕ → Bool
name_eq [] [] = true
name_eq [] (y ∷ ys) = false
name_eq (x ∷ xs) [] = false
name_eq (x ∷ xs) (y ∷ ys) = let rest = name_eq xs ys in if x == y then rest else false

abbrev pub caches : List ℕ → CacheEntry → Bool
caches hostname e = e.valid && name_eq hostname e.hostname

unfoldable pub dns_cache_lookup : List CacheEntry → List ℕ → Option ℕ
dns_cache_lookup cache hostname = elim (find_index (caches hostname) cache) [
  | some i ↦ some (get_or cache i blank).ip
  | none ↦ none
]

-- The search of `dns_cache_insert` from slot `i` on: the first free slot, else the oldest so far.
unfoldable pub insert_slot : List CacheEntry → ℕ → ℕ → ℕ → ℕ
insert_slot [] i best oldest = best
insert_slot (e ∷ es) i best oldest =
    let older = insert_slot es (i + 1) i e.timestamp in
    let other = insert_slot es (i + 1) best oldest in
    if not e.valid then i else (if ltb e.timestamp oldest then older else other)

-- The entry keeps at most 63 characters of the name.
unfoldable pub dns_cache_insert : List CacheEntry → List ℕ → ℕ → ℕ → List CacheEntry
dns_cache_insert cache hostname ip now =
    set cache (insert_slot cache 0 0 0xffffffff)
      (record { hostname = take 63 hostname; ip = ip; timestamp = now; valid = true })

-- The characters before the next dot, and those from it on.
unfoldable pub until_dot : List ℕ → List ℕ × List ℕ
until_dot [] = ([], [])
until_dot (c ∷ cs) =
    let (label, rest) = until_dot cs in if c == 46 then ([], c ∷ cs) else (c ∷ label, rest)

-- `if (*p == '.') p++;`
unfoldable pub skip_dot : List ℕ → List ℕ
skip_dot [] = []
skip_dot (c ∷ cs) = if c == 46 then cs else c ∷ cs

-- The rounds of the loop of `dns_encode_name`, at most `n`, from position `pos` on: the bytes that
-- are written, with the root label; `none` is the result -1, or too few rounds.
unfoldable pub encode_loop : ℕ → List ℕ → ℕ → ℕ → Option (List ℕ)
encode_loop zero p pos bufsize = none
encode_loop (suc n) [] pos bufsize = if leb bufsize pos then none else some (0 ∷ [])
encode_loop (suc n) (c ∷ cs) pos bufsize =
    let (label, rest) = until_dot (c ∷ cs) in
    let more = encode_loop n (skip_dot rest) (pos + length label + 1) bufsize in
    if ltb 63 (length label) || leb bufsize (pos + length label + 1)
    then none
    else (elim more [ none ↦ none | some out ↦ some (length label ∷ (label ++ out)) ])

-- Each round takes a character at least.
unfoldable pub dns_encode_name : List ℕ → ℕ → Option (List ℕ)
dns_encode_name name bufsize = encode_loop (length name + 1) name 0 bufsize

-- The results of `dns_skip_name`: a position, or -1; `starved` is more rounds than allowed.
pub data Skip : Type 0 where
  at : ℕ → Skip
  truncated starved : Skip

unfoldable pub skip_loop : ℕ → (ℕ → ℕ) → ℕ → ℕ → Skip
skip_loop zero byte pos len = starved
skip_loop (suc n) byte pos len =
    let more = skip_loop n byte (pos + 1 + byte pos) len in
    if ltb pos len
    then (if byte pos == 0
        then at (pos + 1)
        else if byte pos / 64 % 4 == 3
        then at (pos + 2)
        else more)
    else truncated

-- Each round moves on by a byte at least.
unfoldable pub dns_skip_name : (ℕ → ℕ) → ℕ → ℕ → Skip
dns_skip_name byte offset len = skip_loop (len + 1) byte offset len

unfoldable pub be16 : (ℕ → ℕ) → ℕ → ℕ
be16 byte i = byte i * 2 ^ 8 + byte (i + 1)

-- `if (pos < 0) return;`
unfoldable pub skip_then : Skip → (ℕ → Option ℕ) → Option ℕ
skip_then (at p) next = next p
skip_then truncated next = none
skip_then starved next = none

-- The loop over the questions: the position behind them, or an early return.
unfoldable pub skip_questions : ℕ → (ℕ → ℕ) → ℕ → ℕ → Option ℕ
skip_questions zero byte pos len = some pos
skip_questions (suc n) byte pos len =
    skip_then (dns_skip_name byte pos len)
      (λ p. let rest = skip_questions n byte (p + 4) len in if ltb len (p + 4) then none else rest)

-- One answer, behind its name: the address if it is an A record, or `next` at the one behind it.
unfoldable pub answer_at : (ℕ → Option ℕ) → (ℕ → ℕ) → ℕ → ℕ → Option ℕ
answer_at next byte p len =
    if ltb len (p + 10)
    then none
    else (if ltb len (p + 10 + be16 byte (p + 8))
        then none
        else (if be16 byte p == 1 && be16 byte (p + 8) == 4
            then some (be16 byte (p + 10) * 2 ^ 16 + be16 byte (p + 12))
            else next (p + 10 + be16 byte (p + 8))))

-- The loop over the answers: the address of the first A record, 0 if there is none, or an early
-- return.
unfoldable pub find_answer : ℕ → (ℕ → ℕ) → ℕ → ℕ → Option ℕ
find_answer zero byte pos len = some 0
find_answer (suc n) byte pos len =
    skip_then (dns_skip_name byte pos len)
      (λ p. answer_at (λ q. find_answer n byte q len) byte p len)

-- `dns_reply_received`, `dns_reply_id`, `dns_resolved_ip` and `dns_reply_rcode`
pub record Pending : Type 0 where
  pub received : Bool
  pub id : ℕ
  pub resolved : ℕ
  pub rcode : ℕ

unfoldable pub answers : (ℕ → ℕ) → ℕ → Option ℕ → Option ℕ
answers byte len none = none
answers byte len (some pos) = find_answer (be16 byte 6) byte pos len

-- The four assignments at the end of `dns_process_reply`.
unfoldable pub reply : Pending → (ℕ → ℕ) → Option ℕ → Pending
reply s byte none = s
reply s byte (some ip) = record {
  received = true;
  id = be16 byte 0;
  resolved = ip;
  rcode = byte 3 % 16;
}

unfoldable pub dns_process_reply : Pending → (ℕ → ℕ) → ℕ → Pending
dns_process_reply s byte len =
    if ltb len 12
    then s
    else (if byte 2 / 128 % 2 == 1
        then reply s byte (answers byte len (skip_questions (be16 byte 4) byte 12 len))
        else s)

-- The test of `dns_resolve` for an address in digits.
unfoldable pub is_ip : List ℕ → Bool
is_ip [] = true
is_ip (c ∷ cs) = (c == 46 || (leb 48 c && leb c 57)) && is_ip cs

-- The loop that reads the four numbers, with those read so far, the last of them open.
unfoldable pub parse_ip : List ℕ → ℕ → List ℕ → List ℕ
parse_ip [] part parts = parts
parse_ip (c ∷ cs) part parts =
    let next = parse_ip cs (part + 1) parts in
    let digit =
      parse_ip cs part (set parts part ((get_or parts part 0 * 10 + (c + 2 ^ 32 - 48)) % 2 ^ 32)) in
    if ltb part 4 then (if c == 46 then next else digit) else parts

-- `(parts[0] << 24) | (parts[1] << 16) | (parts[2] << 8) | parts[3]`
unfoldable pub join_ip : List ℕ → ℕ
join_ip parts =
    bit_or
      (bit_or (bit_or (get_or parts 0 0 * 2 ^ 24 % 2 ^ 32) (get_or parts 1 0 * 2 ^ 16 % 2 ^ 32))
        (get_or parts 2 0 * 2 ^ 8 % 2 ^ 32))
      (get_or parts 3 0)

-- The header and the question of the query that `dns_resolve` sends, or the result -1.
unfoldable pub dns_query : List ℕ → ℕ → Option (List ℕ)
dns_query hostname now = elim (dns_encode_name hostname (256 - 12 - 4)) [
  | none ↦ none
  | some name ↦ some (
      (now % 2 ^ 16 / 2 ^ 8 ∷ now % 2 ^ 8 ∷ 1 ∷ 0 ∷ 0 ∷ 1 ∷ 0 ∷ 0 ∷ 0 ∷ 0 ∷ 0 ∷ 0 ∷ [])
      ++ (name ++ (0 ∷ 1 ∷ 0 ∷ 1 ∷ [])))
]

-- What `dns_resolve` makes of a name before it sends anything.
pub data Resolve : Type 0 where
  known : ℕ → Resolve
  ask : List ℕ → Resolve
  failed : Resolve

unfoldable pub dns_resolve_start : List CacheEntry → List ℕ → ℕ → ℕ → Resolve
dns_resolve_start cache hostname dns_server now =
    if dns_server == 0 then failed else (elim (dns_cache_lookup cache hostname) [
      | some ip ↦ known ip
      | none ↦
          if is_ip hostname
          then known (join_ip (parse_ip hostname 0 (0 ∷ 0 ∷ 0 ∷ 0 ∷ [])))
          else elim (dns_query hostname now) [ none ↦ failed | some q ↦ ask q ]
    ])

-- What it makes of the reply: the address, or -1, and the cache.
unfoldable pub dns_resolve_end : List CacheEntry → List ℕ → Pending → ℕ → Option ℕ × List CacheEntry
dns_resolve_end cache hostname s now =
    if not (s.rcode == 0) || s.resolved == 0
    then (none, cache)
    else (some s.resolved, dns_cache_insert cache hostname s.resolved now)

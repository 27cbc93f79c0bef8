-- ===== src/Net/Dns/Cached.antt =====
-- The cache of resolved names: `dns_cache_lookup` after `dns_cache_insert`.
use plant_os.Base.{
  ℕ, ◌+◌, ◌<◌, ◌≤◌, ◌≡◌, refl, inl, inr, true, false, none, some, List, [], ◌∷◌, length, length-set,
  get_or, get_or-set, set, take, find_index-cases, ◌==◌, Bool-cases, arith,
}
use plant_os.Net.Dns.{
  CacheEntry, blank, name_eq, caches, dns_cache_lookup, insert_slot, dns_cache_insert,
}

name_eq_self : (a : List ℕ) → name_eq a a ≡ true
unfolding name_eq
name_eq_self [] = refl
name_eq_self (x ∷ xs) = ground (arith, name_eq_self xs)

insert_slot-lt :
    (cache : List CacheEntry) (i best oldest n : ℕ)
    → best < n
    → i + length cache ≤ n
    → insert_slot cache i best oldest < n
unfolding insert_slot
insert_slot-lt [] i best oldest n hb hn = hb
insert_slot-lt (e ∷ es) i best oldest n hb hn =
    ground
      (arith, insert_slot-lt es (i + 1) i e.timestamp n, insert_slot-lt es (i + 1) best oldest n)

lookup_none :
    (cache : List CacheEntry) (hostname : List ℕ)
    → dns_cache_lookup cache hostname ≡ none
    → (j : ℕ) → j < length cache
    → caches hostname (get_or cache j blank) ≡ false
unfolding dns_cache_lookup
lookup_none cache hostname e = elim (find_index-cases (caches hostname) blank cache) [
  | inl (_, n) ↦ n
  | inr (i, found, f) ↦ absurd (ground (arith, rw (found, dns_cache_lookup) at e))
]

-- The name that an insertion keeps, the first 63 characters, is found with the new address, if it
-- was not cached before: also where the host name has more than 63 characters.
pub dns_cache_lookup-dns_cache_insert :
    (cache : List CacheEntry) (hostname : List ℕ) (ip now : ℕ)
    → 0 < length cache
    → dns_cache_lookup cache (take 63 hostname) ≡ none
    → dns_cache_lookup (dns_cache_insert cache hostname ip now) (take 63 hostname) ≡ some ip
unfolding dns_cache_insert dns_cache_lookup
dns_cache_lookup-dns_cache_insert cache hostname ip now ne absent =
    let k = insert_slot cache 0 0 0xffffffff in
    let lt : k < length cache =
      insert_slot-lt cache 0 0 0xffffffff (length cache) ne (omega arith) in
    let e : CacheEntry = record {
      hostname = take 63 hostname;
      ip = ip;
      timestamp = now;
      valid = true;
    } in
    let at_slot = λ (j : ℕ). get_or-set cache k j e blank lt in
    elim (find_index-cases (caches (take 63 hostname)) blank (set cache k e)) [
      | inl (_, n) ↦
          absurd
            (ground (arith, n k, length-set cache k e, at_slot k, name_eq_self (take 63 hostname)))
      | inr (i, found, f) ↦ elim (Bool-cases (k == i)) [
        | inl same ↦ rw (found, dns_cache_lookup) (ground (arith, at_slot i))
        | inr other ↦ absurd (
            ground (
              arith,
              lookup_none cache (take 63 hostname) absent i,
              f.in_range,
              f.passes,
              length-set cache k e,
              at_slot i,
            ))
      ]
    ]

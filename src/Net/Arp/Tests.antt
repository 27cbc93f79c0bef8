-- ===== src/Net/Arp/Tests.antt =====
-- Two addresses in the cache.
use plant_os.Base.{
  ℕ, ◌<◌, ◌≡◌, ◌≢◌, ◌⊎◌, refl, true, false, some, none, List, [], ◌∷◌, length, replicate,
  get_or-replicate, arith,
}
use plant_os.Net.Arp.{
  ArpEntry, blank, arp_init, arp_cache_size, arp_cache_put, arp_resolve, put_slot,
}
use plant_os.Net.Arp.Resolve.{entry, IsUnique, arp_resolve-arp_cache_put}

empty-IsUnique : IsUnique arp_init
unfolding arp_init
empty-IsUnique i j hi hj vi vj same =
    absurd (ground (arith, get_or-replicate arp_cache_size i blank))

abbrev one_known : List ArpEntry
one_known = arp_cache_put arp_init 0x0a000202 (1 ∷ 2 ∷ 3 ∷ 4 ∷ 5 ∷ 6 ∷ [])

one_known-IsUnique : IsUnique one_known
unfolding arp_init
one_known-IsUnique =
    (arp_resolve-arp_cache_put arp_init 0x0a000202 (1 ∷ 2 ∷ 3 ∷ 4 ∷ 5 ∷ 6 ∷ []) 0 empty-IsUnique
      (omega arith) (ground arith)).1

one_known-size : 0 < length one_known
unfolding arp_init arp_cache_put put_slot plant_os.Base.find_index
one_known-size = omega arith

abbrev mac : List ℕ
mac = 9 ∷ 9 ∷ 9 ∷ 9 ∷ 9 ∷ 9 ∷ []

arp_resolve-arp_cache_put_example :
    (arp_resolve (arp_cache_put one_known 0x0a000203 mac) 0x0a000203 ≡ some mac)
    × IsUnique (arp_cache_put one_known 0x0a000203 mac)
    × ((arp_resolve (arp_cache_put one_known 0x0a000203 mac) 0x0a000202
          ≡ arp_resolve one_known 0x0a000202)
        ⊎ ((entry one_known 0).ip ≡ 0x0a000202)
          × ((j : ℕ) → j < length one_known → (entry one_known j).valid ≡ true))
arp_resolve-arp_cache_put_example =
    arp_resolve-arp_cache_put one_known 0x0a000203 mac 0x0a000202 one_known-IsUnique one_known-size
      (ground arith)

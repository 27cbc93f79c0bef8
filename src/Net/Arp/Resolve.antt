-- ===== src/Net/Arp/Resolve.antt =====
-- `arp_resolve` after `arp_cache_put`.
use plant_os.Base.{
  ℕ_discrete, ℕ, ◌<◌, ◌≡◌, ◌≢◌, refl, sym, ap, ◌∙◌, ◌⊎◌, inl, inr, true, not, none, some, List,
  length, length-set, get_or, get_or-set, set, find_index-cases, ◌==◌, if◌then◌else◌, arith,
}
use plant_os.Net.Arp.{ArpEntry, blank, knows, put_slot, arp_cache_put, arp_resolve}

abbrev pub entry : List ArpEntry → ℕ → ArpEntry
entry cache i = get_or cache i blank

-- No address stands in two valid slots.
abbrev pub IsUnique : List ArpEntry → Type 0
IsUnique cache =
    (i j : ℕ)
    → i < length cache
    → j < length cache
    → (entry cache i).valid ≡ true
    → (entry cache j).valid ≡ true
    → (entry cache i).ip ≡ (entry cache j).ip
    → i ≡ j

-- The slot is the first one, and no slot is free.
abbrev pub IsEvicting : List ArpEntry → ℕ → Type 0
IsEvicting cache k = (k ≡ 0) × ((j : ℕ) → j < length cache → (entry cache j).valid ≡ true)

-- The chosen slot holds the address, or no slot does.
record IsPutSlot (cache : List ArpEntry) (ip : ℕ) (k : ℕ) : Type 0 where
  in_range : k < length cache
  only : (j : ℕ) → j < length cache → (entry cache j).valid ≡ true → (entry cache j).ip ≡ ip → k ≡ j
  -- Only an overflowing cache loses an address.
  loses : (entry cache k).valid ≡ true → ((entry cache k).ip ≡ ip) ⊎ IsEvicting cache k

put_slot-IsPutSlot :
    (cache : List ArpEntry) (ip : ℕ)
    → IsUnique cache
    → 0 < length cache
    → IsPutSlot cache ip (put_slot cache ip)
unfolding put_slot
put_slot-IsPutSlot cache ip u ne = elim (find_index-cases (knows ip) blank cache) [
  | inr (i, e, f) ↦
      rw (e, put_slot)
        (record {
          in_range = f.in_range;
          only = λ j lt v same.
              u i j f.in_range lt (ground (arith, f.passes)) v (ground (arith, f.passes));
          loses = λ v. inl (ground (arith, f.passes));
        })
  | inl (e, none_of) ↦ elim (find_index-cases (λ e. not e.valid) blank cache) [
    | inr (i, e', f) ↦
        rw (e, put_slot, e')
          (record {
            in_range = f.in_range;
            only = λ j lt v same. absurd (ground (arith, none_of j lt));
            loses = λ v. absurd (ground (arith, f.passes));
          })
    | inl (e', full) ↦
        rw (e, put_slot, e')
          (record {
            in_range = ne;
            only = λ j lt v same. absurd (ground (arith, none_of j lt));
            loses = λ v. inr (refl, λ j lt. ground (arith, full j lt));
          })
  ]
]

resolve-at :
    (cache : List ArpEntry) (ip j : ℕ)
    → IsUnique cache
    → j < length cache
    → (entry cache j).valid ≡ true
    → (entry cache j).ip ≡ ip
    → arp_resolve cache ip ≡ some (entry cache j).mac
unfolding arp_resolve
resolve-at cache ip j u lt v same = elim (find_index-cases (knows ip) blank cache) [
  | inl (e, none_of) ↦ absurd (ground (arith, none_of j lt))
  | inr (i, e, f) ↦
      rw (e, arp_resolve)
        (ap (λ k. some (entry cache k).mac)
          (u i j f.in_range lt (ground (arith, f.passes)) v (ground (arith, f.passes))))
]

resolve-none :
    (cache : List ArpEntry) (ip : ℕ)
    → ((j : ℕ) → j < length cache → (entry cache j).valid ≡ true → (entry cache j).ip ≢ ip)
    → arp_resolve cache ip ≡ none
unfolding arp_resolve
resolve-none cache ip h = elim (find_index-cases (knows ip) blank cache) [
  | inl (e, none_of) ↦ rw (e, arp_resolve) refl
  | inr (i, e, f) ↦ absurd (h i f.in_range (ground (arith, f.passes)) (ground (arith, f.passes)))
]

-- What the cache holds after `arp_cache_put`.
module _ (cache : List ArpEntry) (ip : ℕ) (mac : List ℕ) (u : IsUnique cache) where
  module _ (k : ℕ) (s : IsPutSlot cache ip k) where
    abbrev put : List ArpEntry
    put = set cache k (record { ip = ip; mac = mac; valid = true })

    put-at :
        (j : ℕ)
        → entry put j
          ≡ (if k == j then record { ip = ip; mac = mac; valid = true } else entry cache j)
    put-at j = get_or-set cache k j (record { ip = ip; mac = mac; valid = true }) blank s.in_range

    length-put : length put ≡ length cache
    length-put = length-set cache k (record { ip = ip; mac = mac; valid = true })

    put-IsUnique : IsUnique put
    put-IsUnique i j hi hj vi vj same =
        ground (arith, put-at i, put-at j, length-put, s.only i, s.only j, u i j)

    put_others :
        (other : ℕ)
        → other ≢ ip
        → (arp_resolve put other ≡ arp_resolve cache other)
          ⊎ ((entry cache k).ip ≡ other) × IsEvicting cache k
    put_others other ne = elim (find_index-cases (knows other) blank cache) [
      | inl (e, none_of) ↦ inl (
          resolve-none put other
            (λ j lt v same. ground (arith, none_of j, put-at j, length-put, ne))
          ∙ sym (resolve-none cache other (λ j lt v same. ground (arith, none_of j, ne))))
      | inr (i, e, f) ↦
          let valid : (entry cache i).valid ≡ true = ground (arith, f.passes) in
          let same : (entry cache i).ip ≡ other = ground (arith, f.passes) in
          elim (ℕ_discrete k i) [
            | yes at_k ↦ elim (s.loses (rw at_k valid)) [
              | inl is_ip ↦ absurd (ne (sym same ∙ rw (sym at_k) is_ip))
              | inr full ↦ inr (rw at_k same, full)
            ]
            | no elsewhere ↦
                let kept : entry put i ≡ entry cache i = ground (arith, put-at i, elsewhere) in
                inl (
                  resolve-at put other i put-IsUnique (rw length-put f.in_range) (rw kept valid)
                    (rw kept same)
                  ∙ rw kept (sym (resolve-at cache other i u f.in_range valid same)))
          ]
    ]

-- In a cache that holds no address twice, `arp_resolve` gives the address that `arp_cache_put` was given
-- last for it, still no address stands twice, and every other address resolves as before, or it was
-- that of the first slot of a full cache.
pub arp_resolve-arp_cache_put :
    (cache : List ArpEntry) (ip : ℕ) (mac : List ℕ) (other : ℕ)
    → IsUnique cache
    → 0 < length cache
    → other ≢ ip
    → (arp_resolve (arp_cache_put cache ip mac) ip ≡ some mac)
      × IsUnique (arp_cache_put cache ip mac)
      × ((arp_resolve (arp_cache_put cache ip mac) other ≡ arp_resolve cache other)
          ⊎ ((entry cache 0).ip ≡ other)
            × ((j : ℕ) → j < length cache → (entry cache j).valid ≡ true))
unfolding arp_cache_put
arp_resolve-arp_cache_put cache ip mac other u ne differs =
    let k = put_slot cache ip in
    let s = put_slot-IsPutSlot cache ip u ne in
    let unique = put-IsUnique cache ip mac u k s in
    let here : entry (arp_cache_put cache ip mac) k ≡ record { ip = ip; mac = mac; valid = true } =
      ground (arith, put-at cache ip mac u k s k) in
    (
      resolve-at (arp_cache_put cache ip mac) ip k unique
            (rw (length-put cache ip mac u k s) s.in_range) (rw here refl) (rw here refl)
          ∙ rw here refl,
      unique,
      elim (put_others cache ip mac u k s other differs) [
        | inl same ↦ inl same
        | inr (is_other, (at_0, full)) ↦
            inr (ap (λ i. (entry cache i).ip) (sym at_0) ∙ is_other, full)
      ],
    )

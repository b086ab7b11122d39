-- ===== src/Server/Multicast.antt =====
-- src/server.rs: the multicast groups of a UDP listener. What the socket answers is an argument:
-- where it fails, `unwrap` panics, which is `none`.
use coap_rs.Common.{
  ℕ, ◌+◌, ◌≤◌, ◌≡◌, Bool, true, false, ◌&&◌, Option, none, some, List, [], ◌∷◌, ◌++◌, ◌==◌, leb,
  if◌then◌else◌, arith, All, All-append, any, Bool-cases, inl, inr, ◌⊎◌,
}

-- `std::net::IpAddr`: the octets of an IPv4 address, the segments of an IPv6 address.
pub data IpAddr : Type 0 where
  v4 : ℕ → ℕ → ℕ → ℕ → IpAddr
  v6 : ℕ → ℕ → ℕ → ℕ → ℕ → ℕ → ℕ → ℕ → IpAddr

abbrev pub same_ip : IpAddr → IpAddr → Bool
same_ip (v4 a b c d) (v4 p q r s) = a == p && (b == q && (c == r && d == s))
same_ip (v6 a b c d e f g h) (v6 p q r s t u v w) =
    a == p && (b == q && (c == r && (d == s && (e == t && (f == u && (g == v && h == w))))))
same_ip _ _ = false

-- `is_multicast` of the standard library: 224.0.0.0/4 and ff00::/8.
abbrev pub is_multicast : IpAddr → Bool
is_multicast (v4 a _ _ _) = leb 224 a && leb a 239
is_multicast (v6 a _ _ _ _ _ _ _) = leb 0xff00 a && leb a 0xffff

-- `is_v4` is the family of the socket's local address.
pub record UdpCoapListener : Type 0 where
  pub is_v4 : Bool
  pub multicast_addresses : List IpAddr

abbrev pub family : IpAddr → Bool
family (v4 _ _ _ _) = true
family (v6 _ _ _ _ _ _ _ _) = false

-- Both addresses are of one family.
abbrev pub fits : IpAddr → UdpCoapListener → Bool
fits addr l = if l.is_v4 then family addr else (if family addr then false else true)

-- An address of the other family is passed over.
unfoldable pub join_multicast : Bool → IpAddr → UdpCoapListener → Option UdpCoapListener
join_multicast joined addr l =
    let pushed = record l { multicast_addresses = l.multicast_addresses ++ addr ∷ [] } in
    if is_multicast addr
    then (if fits addr l then (if joined then some pushed else none) else some l)
    else none

-- `position` and `remove`
unfoldable pub remove_first : IpAddr → List IpAddr → Option (List IpAddr)
remove_first addr [] = none
remove_first addr (item ∷ items) =
    let rest = remove_first addr items in
    if same_ip item addr
    then some items
    else (elim rest [ none ↦ none | some left ↦ some (item ∷ left) ])

unfoldable pub leave_multicast : Bool → IpAddr → UdpCoapListener → Option UdpCoapListener
unfolding remove_first
leave_multicast left addr l =
    let removed = (elim (remove_first addr l.multicast_addresses) as (λ _. Option UdpCoapListener) [
      | none ↦ none
      | some addrs ↦ some (record l { multicast_addresses = addrs })
    ]) in
    if is_multicast addr
    then (if fits addr l then (if left then removed else none) else some l)
    else none

-- The group of all CoAP nodes; `segment` chooses the scope of an IPv6 group.
unfoldable pub all_coap : Bool → ℕ → IpAddr
all_coap true segment = v4 224 0 1 187
all_coap false segment = v6 (0xff00 + segment) 0 0 0 0 0 0 0xfd

unfoldable pub enable_all_coap : Bool → ℕ → UdpCoapListener → Option UdpCoapListener
unfolding all_coap join_multicast
enable_all_coap joined segment l =
    if leb segment 0xf then join_multicast joined (all_coap l.is_v4 segment) l else none

-- The groups of a listener are multicast addresses of its socket's family.
unfoldable pub IsGrouped : UdpCoapListener → Type 0
IsGrouped l = All (λ a. (is_multicast a ≡ true) × (fits a l ≡ true)) l.multicast_addresses

abbrev pub with_all_coap : ℕ → UdpCoapListener → UdpCoapListener
with_all_coap segment l = record l {
  multicast_addresses = l.multicast_addresses ++ all_coap l.is_v4 segment ∷ [];
}

all_coap-grouped :
    (segment : ℕ) (l : UdpCoapListener)
    → segment ≤ 15
    → (is_multicast (all_coap l.is_v4 segment) ≡ true) × (fits (all_coap l.is_v4 segment) l ≡ true)
unfolding all_coap
all_coap-grouped segment l small = elim (Bool-cases l.is_v4) [
  | inl four ↦ (ground arith, ground arith)
  | inr six ↦ (ground arith, ground arith)
]

-- Every segment up to 15 adds the group of all CoAP nodes to the listener where the socket joins it,
-- and panics otherwise; the groups of the listener stay multicast addresses of its socket's family. A
-- larger segment panics whatever the socket answers.
pub enable_all_coap-IsGrouped :
    (joined : Bool) (segment : ℕ) (l : UdpCoapListener)
    → IsGrouped l
    → ((segment ≤ 15)
        × IsGrouped (with_all_coap segment l)
        × (enable_all_coap joined segment l
            ≡ (if joined then some (with_all_coap segment l) else none)))
      ⊎ ((16 ≤ segment) × (enable_all_coap joined segment l ≡ none))
unfolding enable_all_coap join_multicast IsGrouped
enable_all_coap-IsGrouped joined segment l grouped = elim (Bool-cases (leb segment 15)) [
  | inr large ↦ inr (ground arith, ground arith)
  | inl small ↦
      let low : segment ≤ 15 = ground arith in
      let (multicast, same) = all_coap-grouped segment l low in
      inl (
        low,
        All-append (λ a. (is_multicast a ≡ true) × (fits a l ≡ true)) l.multicast_addresses
            (all_coap l.is_v4 segment ∷ []) grouped ((multicast, same), tt),
        ground (arith, multicast, same),
      )
]

remove_first-append :
    (addr : IpAddr) (addrs : List IpAddr)
    → any (λ item. same_ip item addr) addrs ≡ false
    → same_ip addr addr ≡ true
    → remove_first addr (addrs ++ addr ∷ []) ≡ some addrs
unfolding remove_first
remove_first-append addr [] fresh own = ground arith
remove_first-append addr (item ∷ addrs) fresh own =
    let ih = remove_first-append addr addrs (ground arith) own in ground (arith, ih)

same_ip_self : (a : IpAddr) → same_ip a a ≡ true
same_ip_self (v4 a b c d) = ground arith
same_ip_self (v6 a b c d e f g h) = ground arith

-- A group that is joined and left again leaves the listener as it was, where it is a multicast
-- address that the listener does not have and the socket joins and leaves it.
pub leave_multicast-join_multicast :
    (addr : IpAddr) (l : UdpCoapListener)
    → is_multicast addr ≡ true
    → any (λ item. same_ip item addr) l.multicast_addresses ≡ false
    → (l' : UdpCoapListener) × (join_multicast true addr l ≡ some l')
      × (leave_multicast true addr l' ≡ some l)
unfolding join_multicast leave_multicast
leave_multicast-join_multicast addr l multicast fresh = elim (Bool-cases (fits addr l)) [
  | inr passed ↦ (l, ground arith, ground arith)
  | inl right ↦
      let again = remove_first-append addr l.multicast_addresses fresh (same_ip_self addr) in
      (
        record l { multicast_addresses = l.multicast_addresses ++ addr ∷ [] },
        ground arith,
        ground (arith, again),
      )
]

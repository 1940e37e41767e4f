-- ===== src/Dialer.antt =====
-- `isBlockedIP` and `SafeDialContext` of internal/infra/safedial/dialer.go. The packages net and net/netip
-- are parameters: the tests of an address, the resolver's answer and the opening of a connection.
pub mod Vetting
mod Tests
use webhook_delivery_system.Prelude.{
  Bool, true, false, ◌||◌, not, Option, none, some, List, [], ◌∷◌, Text, if◌then◌else◌,
}

-- The tests of net/netip; a prefix is the text that `MustParsePrefix` reads.
pub record NetIp (Address : Type 0) : Type 0 where
  pub unmap : Address → Address
  pub is_valid : Address → Bool
  pub is_loopback : Address → Bool
  pub is_private : Address → Bool
  pub is_link_local_unicast : Address → Bool
  pub is_link_local_multicast : Address → Bool
  pub is_multicast : Address → Bool
  pub is_unspecified : Address → Bool
  pub contains : Text → Address → Bool

-- `SplitHostPort` and the answer of `LookupNetIP`.
pub record Resolver (Address : Type 0) : Type 0 where
  pub split_host_port : Text → Option (Text × Text)
  pub lookup_net_ip : Text → Option (List Address)

pub data DialError (Address : Type 0) : Type 0 where
  malformed : DialError Address
  unresolved : DialError Address
  no_addresses : DialError Address
  blocked : Address → DialError Address

-- A connection is opened to an address and a port, or refused before.
pub data Dial (Address : Type 0) : Type 0 where
  refused : DialError Address → Dial Address
  connecting : Address → Text → Dial Address

-- 0.0.0.0/8, 100.64.0.0/10 and 240.0.0.0/4.
abbrev pub blocked_prefixes : List Text
blocked_prefixes =
    (48 ∷ 46 ∷ 48 ∷ 46 ∷ 48 ∷ 46 ∷ 48 ∷ 47 ∷ 56 ∷ [])
    ∷ (49 ∷ 48 ∷ 48 ∷ 46 ∷ 54 ∷ 52 ∷ 46 ∷ 48 ∷ 46 ∷ 48 ∷ 47 ∷ 49 ∷ 48 ∷ [])
    ∷ (50 ∷ 52 ∷ 48 ∷ 46 ∷ 48 ∷ 46 ∷ 48 ∷ 46 ∷ 48 ∷ 47 ∷ 52 ∷ [])
    ∷ []

module _ {Address : Type 0} (n : NetIp Address) where
  unfoldable pub in_prefixes : List Text → Address → Bool
  in_prefixes [] a = false
  in_prefixes (p ∷ ps) a = if n.contains p a then true else in_prefixes ps a

  unfoldable pub is_blocked_unmapped : Address → Bool
  unfolding in_prefixes
  is_blocked_unmapped a =
      if not (n.is_valid a)
      then true
      else if n.is_loopback a
          || (n.is_private a
              || (n.is_link_local_unicast a
                  || (n.is_link_local_multicast a || (n.is_multicast a || n.is_unspecified a))))
      then true
      else in_prefixes blocked_prefixes a

  unfoldable pub is_blocked_ip : Address → Bool
  unfolding is_blocked_unmapped
  is_blocked_ip a = is_blocked_unmapped (n.unmap a)

  -- The first address of an answer that is blocked.
  unfoldable pub first_blocked : List Address → Option Address
  unfolding is_blocked_ip
  first_blocked [] = none
  first_blocked (a ∷ ips) = if is_blocked_ip a then some a else first_blocked ips

  abbrev pub pinned : Address → Text → Option Address → Dial Address
  pinned first port (some a) = refused (blocked a)
  pinned first port none = connecting first port

  unfoldable pub dial_answer : Text → Option (List Address) → Dial Address
  unfolding first_blocked
  dial_answer port none = refused unresolved
  dial_answer port (some []) = refused no_addresses
  dial_answer port (some (first ∷ ips)) = pinned first port (first_blocked (first ∷ ips))

  unfoldable pub dial_split : Resolver Address → Option (Text × Text) → Dial Address
  unfolding dial_answer
  dial_split r none = refused malformed
  dial_split r (some (host, port)) = dial_answer port (r.lookup_net_ip host)

  unfoldable pub safe_dial_context : Resolver Address → Text → Dial Address
  unfolding dial_split
  safe_dial_context r address = dial_split r (r.split_host_port address)

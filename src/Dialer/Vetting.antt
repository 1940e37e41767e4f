-- ===== src/Dialer/Vetting.antt =====
-- What the safe dialer of internal/infra/safedial/dialer.go connects to.
use webhook_delivery_system.Prelude.{
  true, false, Option, none, some, List, [], ◌∷◌, Text, ◌≡◌, ◌↔◌, refl, arith, ap, subst, ◌∙◌,
}
use webhook_delivery_system.Dialer.{
  NetIp, Resolver, connecting, blocked_prefixes, in_prefixes, is_blocked_unmapped, is_blocked_ip,
  first_blocked, pinned, dial_answer, dial_split, safe_dial_context,
}

module _ {Address : Type 0} (n : NetIp Address) where
  -- In none of the prefixes.
  abbrev pub IsOutside : List Text → Address → Type 0
  IsOutside [] a = Unit
  IsOutside (p ∷ ps) a = (n.contains p a ≡ false) × IsOutside ps a

  -- Valid, of none of the classes, and in none of the blocked prefixes.
  pub record IsPublic (a : Address) : Type 0 where
    pub valid : n.is_valid a ≡ true
    pub loopback : n.is_loopback a ≡ false
    pub private : n.is_private a ≡ false
    pub link_local : n.is_link_local_unicast a ≡ false
    pub link_local_multicast : n.is_link_local_multicast a ≡ false
    pub multicast : n.is_multicast a ≡ false
    pub unspecified : n.is_unspecified a ≡ false
    pub outside : IsOutside blocked_prefixes a

  abbrev pub ArePublic : List Address → Type 0
  ArePublic [] = Unit
  ArePublic (a ∷ ips) = IsPublic (n.unmap a) × ArePublic ips

  outside : (ps : List Text) (a : Address) → in_prefixes n ps a ≡ false → IsOutside ps a
  unfolding in_prefixes
  outside [] a h = tt
  outside (p ∷ ps) a h = (ground arith, outside ps a (ground arith))

  in_prefixes-outside : (ps : List Text) (a : Address) → IsOutside ps a → in_prefixes n ps a ≡ false
  unfolding in_prefixes
  in_prefixes-outside [] a h = refl
  in_prefixes-outside (p ∷ ps) a (h, rest) = ground (arith, in_prefixes-outside ps a rest)

  unblocked : (a : Address) → is_blocked_unmapped n a ≡ false → IsPublic a
  unfolding is_blocked_unmapped
  unblocked a h = record {
    valid = ground arith;
    loopback = ground arith;
    private = ground arith;
    link_local = ground arith;
    link_local_multicast = ground arith;
    multicast = ground arith;
    unspecified = ground arith;
    outside = outside blocked_prefixes a (ground arith);
  }

  public_unblocked : (a : Address) → IsPublic a → is_blocked_unmapped n a ≡ false
  unfolding is_blocked_unmapped
  public_unblocked a h =
      let v = h.valid in
      let l = h.loopback in
      let p = h.private in
      let u = h.link_local in
      let m = h.link_local_multicast in
      let c = h.multicast in
      let s = h.unspecified in ground (arith, in_prefixes-outside blocked_prefixes a h.outside)

  first_public : (ips : List Address) → first_blocked n ips ≡ none → ArePublic ips
  unfolding first_blocked is_blocked_ip
  first_public [] h = tt
  first_public (a ∷ ips) h = (unblocked (n.unmap a) (ground arith), first_public ips (ground arith))

  public_first : (ips : List Address) → ArePublic ips → first_blocked n ips ≡ none
  unfolding first_blocked is_blocked_ip
  public_first [] h = refl
  public_first (a ∷ ips) (h, rest) =
      ground (arith, public_unblocked (n.unmap a) h, public_first ips rest)

  -- The answer that a connection to `a` rests on.
  pub record Vetted (r : Resolver Address) (address : Text) (a : Address) (port : Text)
      : Type 0 where
    pub host : Text
    pub rest : List Address
    pub split : r.split_host_port address ≡ some (host, port)
    pub answer : r.lookup_net_ip host ≡ some (a ∷ rest)
    pub public : ArePublic (a ∷ rest)

  pinned_connects :
      (first : Address) (port : Text) (b : Option Address) (a : Address) (target : Text)
      → pinned n first port b ≡ connecting a target
      → (first ≡ a) × (port ≡ target) × (b ≡ none)
  pinned_connects first port none a target h = (cc, cc, refl)
  pinned_connects first port (some b) a target h = absurd cc

  answer_vetted :
      (port : Text) (ips : Option (List Address)) (a : Address) (target : Text)
      → dial_answer n port ips ≡ connecting a target
      → (port ≡ target) × ((rest : List Address) × (ips ≡ some (a ∷ rest)) × ArePublic (a ∷ rest))
  unfolding dial_answer
  answer_vetted port none a target h = absurd cc
  answer_vetted port (some []) a target h = absurd cc
  answer_vetted port (some (first ∷ ips)) a target h =
      let (same, ports, clear) =
        pinned_connects first port (first_blocked n (first ∷ ips)) a target h in
      (ports, (ips, cc, subst (λ x. ArePublic (x ∷ ips)) same (first_public (first ∷ ips) clear)))

  split-Vetted :
      (r : Resolver Address) (address : Text) (a : Address) (target : Text)
      → (parts : Option (Text × Text)) → r.split_host_port address ≡ parts
      → dial_split n r parts ≡ connecting a target
      → Vetted r address a target
  unfolding dial_split
  split-Vetted r address a target none e h = absurd cc
  split-Vetted r address a target (some (host, port)) e h =
      let (ports, (rest, answer, public)) = answer_vetted port (r.lookup_net_ip host) a target h in
      record {
        host = host;
        rest = rest;
        split = e ∙ ap (λ p. some (host, p)) ports;
        answer = answer;
        public = public;
      }

  checked_connects :
      (r : Resolver Address) (address : Text) (a : Address) (port : Text)
      → Vetted r address a port
      → safe_dial_context n r address ≡ connecting a port
  unfolding safe_dial_context dial_split dial_answer
  checked_connects r address a port v =
      ap (dial_split n r) v.split
      ∙ (ap (dial_answer n port) v.answer
          ∙ ap (pinned n a port) (public_first (a ∷ v.rest) v.public))

  -- The dialer opens a connection to an address and a port exactly when the target splits into a host
  -- and that port, the resolver's one answer for the host starts with that address, and every address
  -- of the answer, unmapped from IPv6, is valid and in no class and no range that is blocked. So one
  -- blocked address refuses the target, and the address that is dialed is one that was checked.
  pub safe_dial_context-Vetted :
      (r : Resolver Address) (address : Text) (a : Address) (port : Text)
      → safe_dial_context n r address ≡ connecting a port ↔ Vetted r address a port
  unfolding safe_dial_context
  safe_dial_context-Vetted r address a port = (
    split-Vetted r address a port (r.split_host_port address) refl,
    checked_connects r address a port,
  )

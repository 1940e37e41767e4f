-- ===== src/Dialer/Tests.antt =====
-- Runs of the safe dialer of internal/infra/safedial/dialer.go. An address is a number here: 127 is a
-- loopback address, 227 the same mapped into IPv6, and 10 a private one.
use webhook_delivery_system.Prelude.{
  ℕ, ◌==◌, if◌then◌else◌, false, true, some, [], ◌∷◌, List, ◌≡◌, ◌↔◌, refl,
}
use webhook_delivery_system.Dialer.{
  NetIp, Resolver, refused, no_addresses, blocked, connecting, safe_dial_context,
}
use webhook_delivery_system.Dialer.Vetting.{Vetted, safe_dial_context-Vetted}

abbrev numbers : NetIp ℕ
numbers = record {
  unmap = λ a. if a == 227 then 127 else a;
  is_valid = λ a. true;
  is_loopback = λ a. a == 127;
  is_private = λ a. a == 10;
  is_link_local_unicast = λ a. false;
  is_link_local_multicast = λ a. false;
  is_multicast = λ a. false;
  is_unspecified = λ a. a == 0;
  contains = λ p a. a == 100;
}

abbrev answering : List ℕ → Resolver ℕ
answering ips = record {
  split_host_port = λ t. some (t, 56 ∷ []);
  lookup_net_ip = λ host. some ips;
}

mapped_is_refused : safe_dial_context numbers (answering (8 ∷ 227 ∷ [])) [] ≡ refused (blocked 227)
unfolding safe_dial_context
mapped_is_refused = refl

empty_is_refused : safe_dial_context numbers (answering []) [] ≡ refused no_addresses
unfolding safe_dial_context
empty_is_refused = refl

safe_dial_context-Vetted_example :
    safe_dial_context numbers (answering (8 ∷ 9 ∷ [])) (104 ∷ []) ≡ connecting 8 (56 ∷ [])
    ↔ Vetted numbers (answering (8 ∷ 9 ∷ [])) (104 ∷ []) 8 (56 ∷ [])
safe_dial_context-Vetted_example =
    safe_dial_context-Vetted numbers (answering (8 ∷ 9 ∷ [])) (104 ∷ []) 8 (56 ∷ [])

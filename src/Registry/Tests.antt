-- ===== src/Registry/Tests.antt =====
-- Runs of the registry of internal/infra/registry/registry.go.
use webhook_delivery_system.Prelude.{
  ℕ, ◌+◌, ◌*◌, ◌≡◌, refl, List, [], ◌∷◌, arith, length, ◌==◌, ==_iff,
}
use webhook_delivery_system.Registry.{Key, Registry, lookup, get, sweep}
use webhook_delivery_system.Registry.Laws.{
  Distinct, live, Call, gets, removes, sweeps, after, sweep_exact, get_stable,
}

instance abbrev number_key : Key ℕ
number_key = record { same = ◌==◌; same_iff = ==_iff }

-- Two keys, one of them idle for 50.
abbrev two : Registry ℕ ℕ
two = record {
  items = (1, record { val = 10; last_used = 0 }) ∷ (2, record { val = 20; last_used = 40 }) ∷ [];
  create = λ k. k * 100;
  idle_ttl = 30;
}

one_removed : (sweep 50 two).1 ≡ 1
unfolding sweep webhook_delivery_system.Registry.sweep_items
one_removed = refl

sweep_exact_example :
    let (r', n) = sweep 50 two in
    ((k : ℕ) → lookup k r'.items ≡ live 50 30 (lookup k two.items))
    × (length r'.items + n ≡ 2)
    × Distinct r'.items
sweep_exact_example = sweep_exact 50 two (refl, (refl, tt))

abbrev others : List (Call ℕ)
others = gets 45 1 ∷ removes 1 ∷ sweeps 70 ∷ gets 60 3 ∷ []

get_stable_example : (get 90 2 (after (get 44 2 two).0 others)).1 ≡ (get 44 2 two).1
get_stable_example =
    get_stable 44 90 2 two others (refl, (refl, tt))
      (omega arith, ((λ e. omega (arith, e)), (omega arith, (omega arith, tt))))

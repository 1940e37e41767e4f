-- ===== src/Config/Timeouts.antt =====
-- What a configuration that passes `validate`, internal/config/config.go, means for the delivery lease of
-- internal/store/delivery_lifecycle.go and the registries.
use webhook_delivery_system.Prelude.{
  ℕ, ◌+◌, ◌%◌, ◌≤◌, ◌<◌, ◌≡◌, refl, subst, Bool, true, false, List, [], ◌∷◌, arith,
}
use webhook_delivery_system.Domain.{ok}
use webhook_delivery_system.Store.Sql.{Db, Trip, done, second, seconds_arg, affected, log_by_id}
use webhook_delivery_system.Store.Lifecycle.{claim_pending}
use webhook_delivery_system.Store.History.{Op, run}
use webhook_delivery_system.Store.Exclusion.{AreForeign, still_leased}
use webhook_delivery_system.Http.Numbers.{pos}
use webhook_delivery_system.Config.{
  ConfigLibrary, Config, Problem, failed, checks, validate, ltb_int,
}

abbrev AllHold : List (Bool × Problem) → Type 0
AllHold [] = Unit {0}
AllHold ((b, p) ∷ rest) = (b ≡ true) × AllHold rest

failed-AllHold : (xs : List (Bool × Problem)) → failed xs ≡ [] → AllHold xs
failed-AllHold [] h = tt
failed-AllHold ((true, p) ∷ rest) h = (refl, failed-AllHold rest h)
failed-AllHold ((false, p) ∷ rest) h = absurd (cc)

above : (v w : ℕ) → ltb_int (pos w) (pos v) ≡ true → w < v
above v w h = ground arith

visibility_above :
    (l : ConfigLibrary) (c : Config) (v w : ℕ)
    → validate l c ≡ []
    → c.visibility_timeout ≡ pos v
    → c.webhook_timeout ≡ pos w
    → w < v
unfolding validate
visibility_above l c v w h ev ew =
    let all = failed-AllHold (checks l c) h in
    let held : ltb_int c.webhook_timeout c.visibility_timeout ≡ true =
      all.1.1.1.1.1.1.1.1.1.1.1.1.0 in
    above v w (
      subst (λ x. ltb_int x (pos v) ≡ true) ew
        (subst (λ y. ltb_int c.webhook_timeout y ≡ true) ev held))

whole_lease : (v w : ℕ) → w < v → v % second ≡ 0 → seconds_arg v ≡ v
unfolding seconds_arg
whole_lease v w h whole = ground arith

-- For a configuration that passes its checks and whose visibility timeout is a number of whole
-- seconds, the visibility timeout exceeds the webhook timeout. When moreover no two attempt rows have
-- the id, a claim of it succeeds, and the request starts less than the difference of the two timeouts
-- after the claim: whatever other deliverers do to the tables from the claim on - claims of any row
-- before the client's timeout, reschedules of other rows, and successes, retries under other ids,
-- final failures and drops of any row - a claim of the id that is done before the client's timeout,
-- the webhook timeout after the start of the request, does not win and changes no row.
pub claim_outlives_timeout :
    (l : ConfigLibrary) (c : Config) (v w : ℕ) (t u : Trip) (id next start : ℕ)
    (ops : List (Trip × Op)) (db : Db)
    → validate l c ≡ []
    → c.visibility_timeout ≡ pos v
    → c.webhook_timeout ≡ pos w
    → v % second ≡ 0
    → affected (log_by_id id) db.logs ≤ 1
    → (claim_pending t id v db).0 ≡ ok true
    → start + w < t.now + v
    → AreForeign id (start + w) ops
    → u.outcome ≡ done
    → u.now ≤ start + w
    → let db' = run ops (claim_pending t id v db).1 in
      (w < v)
      × ((claim_pending u id next db').0 ≡ ok false)
      × ((claim_pending u id next db').1.logs ≡ db'.logs)
claim_outlives_timeout l c v w t u id next start ops db h ev ew whole k won early f d soon =
    let above = visibility_above l c v w h ev ew in
    let (lost, same) =
      still_leased t u id v next (start + w) ops db k won
        (omega (arith, early, whole_lease v w above whole)) f d soon in
    (above, lost, same)

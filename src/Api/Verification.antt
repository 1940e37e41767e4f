-- ===== src/Api/Verification.antt =====
-- `verifyIngest` of internal/api/handler_ingest.go: the drift window, and the signature under the current
-- secret or, within the grace window, the previous one. The source compares seconds as floating point
-- numbers, which is exact where the drift window is a number of whole seconds.
use webhook_delivery_system.Prelude.{
  ℕ, suc, ◌+◌, ◌-◌, ◌*◌, ◌/◌, ◌≤◌, ◌≡◌, inl, inr, refl, Bool, true, false, ◌&&◌, not, Option, none,
  some, [], Text, arith, text_eq, leb, ltb, if◌then◌else◌, Bool-cases,
}
use webhook_delivery_system.Domain.{
  Subscription, signature_invalid, timestamp_out_of_window, Result, ok, err,
}
use webhook_delivery_system.Store.Sql.{second}
use webhook_delivery_system.Signature.{Mac, build_message, verify}
use webhook_delivery_system.Http.Numbers.{ℤ, pos, negsuc, parse_int}
use webhook_delivery_system.Api.{Options}

-- The absolute value of the int64 `now - ts`, in seconds, for a `now` below 2^63.
abbrev pub skew : ℕ → ℤ → ℕ
skew now (pos ts) = if leb ts now then now - ts else ts - now
skew now (negsuc n) =
    if ltb (now + suc n) 9223372036854775808
    then now + suc n
    else 18446744073709551616 - (now + suc n)

abbrev pub in_grace : Options → ℕ → Option ℕ → Bool
in_grace o now none = false
in_grace o now (some rotated_at) = ltb now (rotated_at + o.secret_grace_window)

unfoldable pub signature_valid : Mac → Options → ℕ → Subscription → Text → Text → Result (Unit {0})
signature_valid h o now sub message sig =
    if verify h message sub.secret_key sig
    then ok tt
    else if not (text_eq sub.previous_secret_key [])
        && (in_grace o now sub.secret_rotated_at && verify h message sub.previous_secret_key sig)
    then ok tt
    else err signature_invalid

pub in_window :
    Mac → Options → ℕ → ℕ → Subscription → Text → Text → Text → Text → Option ℤ → Result (Unit {0})
unfolding signature_valid
in_window h o checked_at graced_at sub body timestamp key sig none = err timestamp_out_of_window
in_window h o checked_at graced_at sub body timestamp key sig (some ts) =
    if ltb o.signature_drift_window (skew (checked_at / second) ts * second)
    then err timestamp_out_of_window
    else signature_valid h o graced_at sub (build_message timestamp key body) sig

unfoldable pub verify_ingest :
    Mac → Options → ℕ → ℕ → Subscription → Text → Text → Text → Text → Result (Unit {0})
unfolding in_window
verify_ingest h o checked_at graced_at sub body timestamp key sig =
    in_window h o checked_at graced_at sub body timestamp key sig (parse_int timestamp)

-- A secret of the subscription that signs at this time.
pub data Signs (o : Options) (now : ℕ) (sub : Subscription) : Text → Type 0 where
  current : Signs o now sub sub.secret_key
  previous :
      (rotated_at : ℕ)
      → sub.secret_rotated_at ≡ some rotated_at
      → ltb now (rotated_at + o.secret_grace_window) ≡ true
      → Signs o now sub sub.previous_secret_key

-- A timestamp within the drift window of the clock, and the signature of the message by a secret.
pub record IsAuthentic (h : Mac) (o : Options) (checked_at graced_at : ℕ) (sub : Subscription)
    (body timestamp key sig : Text) : Type 0 where
  pub stamped : ℤ
  pub stamp : parse_int timestamp ≡ some stamped
  pub recent : skew (checked_at / second) stamped * second ≤ o.signature_drift_window
  pub secret : Text
  pub held : Signs o graced_at sub secret
  pub signed : verify h (build_message timestamp key body) secret sig ≡ true

grace-Signs :
    (h : Mac) (o : Options) (now : ℕ) (sub : Subscription) (message sig : Text) (rotated : Option ℕ)
    → sub.secret_rotated_at ≡ rotated
    → (in_grace o now rotated && verify h message sub.previous_secret_key sig) ≡ true
    → Signs o now sub sub.previous_secret_key
      × (verify h message sub.previous_secret_key sig ≡ true)
grace-Signs h o now sub message sig none e k = absurd (cc)
grace-Signs h o now sub message sig (some at) e k = (previous at e (ground arith), ground arith)

signature_valid-Signs :
    (h : Mac) (o : Options) (now : ℕ) (sub : Subscription) (message sig : Text)
    → signature_valid h o now sub message sig ≡ ok tt
    → (secret : Text) × Signs o now sub secret × (verify h message secret sig ≡ true)
unfolding signature_valid
signature_valid-Signs h o now sub message sig k =
    elim (Bool-cases (verify h message sub.secret_key sig)) [
      | inl now_signed ↦ (sub.secret_key, current, now_signed)
      | inr other ↦
          let (s, v) =
            grace-Signs h o now sub message sig sub.secret_rotated_at refl (ground arith) in
          (sub.previous_secret_key, s, v)
    ]

window-IsAuthentic :
    (h : Mac) (o : Options) (checked_at graced_at : ℕ) (sub : Subscription)
    (body timestamp key sig : Text) (ts : Option ℤ)
    → parse_int timestamp ≡ ts
    → in_window h o checked_at graced_at sub body timestamp key sig ts ≡ ok tt
    → IsAuthentic h o checked_at graced_at sub body timestamp key sig
unfolding in_window
window-IsAuthentic h o checked_at graced_at sub body timestamp key sig none e k = absurd (cc)
window-IsAuthentic h o checked_at graced_at sub body timestamp key sig (some ts) e k =
    let (secret, held, signed) =
      signature_valid-Signs h o graced_at sub (build_message timestamp key body) sig
        (ground arith) in
    record {
      stamped = ts;
      stamp = e;
      recent = ground arith;
      secret = secret;
      held = held;
      signed = signed;
    }

pub verify_ingest-IsAuthentic :
    (h : Mac) (o : Options) (checked_at graced_at : ℕ) (sub : Subscription)
    (body timestamp key sig : Text)
    → verify_ingest h o checked_at graced_at sub body timestamp key sig ≡ ok tt
    → IsAuthentic h o checked_at graced_at sub body timestamp key sig
unfolding verify_ingest
verify_ingest-IsAuthentic h o checked_at graced_at sub body timestamp key sig k =
    window-IsAuthentic h o checked_at graced_at sub body timestamp key sig (parse_int timestamp)
      refl k

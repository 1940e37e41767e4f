-- ===== src/Api/Subscriptions.antt =====
-- internal/api/handler_subscription.go.
use webhook_delivery_system.Prelude.{ℕ, Bool, true, Option, none, some, List, [], Text, map}
use webhook_delivery_system.Domain.{
  Subscription, DeliveryLog, RecoveryCursor, infrastructure, Result, ok, err,
}
use webhook_delivery_system.Store.Sql.{Trip}
use webhook_delivery_system.Store.Subscriptions.{list_by_subscription}
use webhook_delivery_system.Cache.{State, Net, get_by_id}
use webhook_delivery_system.Cache
use webhook_delivery_system.Targets.{validate_target_url}
use webhook_delivery_system.Http.{
  Decoded, Parsed, parsed, answered, read_json, write_json, write_error, write_domain_error, empty,
}
use webhook_delivery_system.Http.Clamping.{parse_limit}
use webhook_delivery_system.Api.{Libraries, Options}
use webhook_delivery_system.Api.Cursor.{CursorLibrary, encode_cursor, decode_cursor}
use webhook_delivery_system.Api.Dto.{
  Reply, Answer, CreateSubscriptionRequest, UpdateSubscriptionRequest, subscription, created,
  subscriptions, attempts, to_subscription_response, to_attempt_response,
}

-- The answer with a subscription, or with the error.
abbrev pub shown : ℕ → Result Subscription → Answer
shown status (ok s) = write_json status (subscription (to_subscription_response s))
shown status (err e) = write_domain_error e

abbrev pub shown_with_secret : ℕ → Text → Result Subscription → Answer
shown_with_secret status secret (ok s) =
    write_json status (created (record { view = to_subscription_response s; secret_key = secret }))
shown_with_secret status secret (err e) = write_domain_error e

abbrev pub or_true : Option Bool → Bool
or_true none = true
or_true (some b) = b

-- The database fills in the fields that the request does not set.
abbrev pub new_subscription : CreateSubscriptionRequest → Text → Subscription
new_subscription q secret = record {
  id = 0;
  target_url = q.target_url;
  secret_key = secret;
  previous_secret_key = [];
  secret_rotated_at = none;
  event_types = q.event_types;
  is_active = or_true q.is_active;
  consecutive_failures = 0;
  created_at = 0;
  updated_at = 0;
}

abbrev pub create_with : Net → CreateSubscriptionRequest → Option Text → State → Answer × State
create_with n q none s = (write_domain_error infrastructure, s)
create_with n q (some secret) s =
    let (r, s') = Cache.create n (new_subscription q secret) s in
    (shown_with_secret 201 secret r, s')

abbrev pub create_valid :
    Net → CreateSubscriptionRequest → Option Text → Result (Unit {0}) → State → Answer × State
create_valid n q minted (err e) s = (write_domain_error e, s)
create_valid n q minted (ok _) s = create_with n q minted s

abbrev pub create_parsed :
    Libraries
    → Options
    → Net
    → Option Text
    → Parsed CreateSubscriptionRequest Reply
    → State
    → Answer × State
create_parsed l o n minted (answered a) s = (a, s)
create_parsed l o n minted (parsed q) s =
    create_valid n q minted (validate_target_url l.validators l.urls o.allow_http_urls q.target_url)
      s

-- `handleCreateSubscription`; `minted` is the new secret, if randomness is at hand.
unfoldable pub handle_create_subscription :
    Libraries
    → Options
    → Net
    → Option Text
    → Option (Decoded CreateSubscriptionRequest)
    → State
    → Answer × State
unfolding read_json Cache.create
handle_create_subscription l o n minted q s = create_parsed l o n minted (read_json q) s

-- `handleListSubscriptions`
abbrev pub listed_page : CursorLibrary → Result (List Subscription × Option RecoveryCursor) → Answer
listed_page l (err e) = write_domain_error e
listed_page l (ok (items, next)) = write_json 200 (
    subscriptions
      (record { items = map to_subscription_response items; next_cursor = encode_cursor l next }))

abbrev pub list_after : CursorLibrary → Trip → ℕ → Result (Option RecoveryCursor) → State → Answer
list_after l t limit (err e) s = write_error 400 "invalid cursor"
list_after l t limit (ok cursor) s = listed_page l (Cache.list t limit cursor s)

unfoldable pub handle_list_subscriptions : CursorLibrary → Trip → Text → Text → State → Answer
unfolding Cache.list
handle_list_subscriptions l t limit cursor s =
    list_after l t (parse_limit limit 20 100) (decode_cursor l cursor) s

-- `handleGetSubscription`
unfoldable pub handle_get_subscription : Net → ℕ → State → Answer × State
unfolding get_by_id
handle_get_subscription n id s = let (r, s') = get_by_id n id s in (shown 200 r, s')

-- `handleUpdateSubscription`: the fields that the request carries.
abbrev pub or_keep : {A : Type 0} → Option A → A → A
or_keep none a = a
or_keep (some b) a = b

abbrev pub changed : UpdateSubscriptionRequest → Subscription → Subscription
changed q sub = record sub {
  target_url = or_keep q.target_url sub.target_url;
  event_types = or_keep q.event_types sub.event_types;
  is_active = or_keep q.is_active sub.is_active;
}

abbrev pub target_valid : Libraries → Options → Option Text → Result (Unit {0})
target_valid l o none = ok tt
target_valid l o (some url) = validate_target_url l.validators l.urls o.allow_http_urls url

abbrev pub update_valid :
    Net → UpdateSubscriptionRequest → Subscription → Result (Unit {0}) → State → Answer × State
update_valid n q sub (err e) s = (write_domain_error e, s)
update_valid n q sub (ok _) s = let (r, s') = Cache.update n (changed q sub) s in (shown 200 r, s')

abbrev pub update_found :
    Libraries
    → Options
    → Net
    → UpdateSubscriptionRequest
    → Result Subscription
    → State
    → Answer × State
update_found l o n q (err e) s = (write_domain_error e, s)
update_found l o n q (ok sub) s = update_valid n q sub (target_valid l o q.target_url) s

abbrev pub update_parsed :
    Libraries
    → Options
    → Net
    → Net
    → ℕ
    → Parsed UpdateSubscriptionRequest Reply
    → State
    → Answer × State
update_parsed l o fetched n id (answered a) s = (a, s)
update_parsed l o fetched n id (parsed q) s =
    let (r, s') = get_by_id fetched id s in update_found l o n q r s'

unfoldable pub handle_update_subscription :
    Libraries
    → Options
    → Net
    → Net
    → ℕ
    → Option (Decoded UpdateSubscriptionRequest)
    → State
    → Answer × State
unfolding read_json get_by_id Cache.update
handle_update_subscription l o fetched n id q s = update_parsed l o fetched n id (read_json q) s

-- `handleRotateSecret`
unfoldable pub handle_rotate_secret : Net → ℕ → Option Text → State → Answer × State
unfolding Cache.rotate
handle_rotate_secret n id none s = (write_domain_error infrastructure, s)
handle_rotate_secret n id (some secret) s =
    let (r, s') = Cache.rotate n id secret s in (shown_with_secret 200 secret r, s')

-- `handleDeleteSubscription`
abbrev pub deleted : Result (Unit {0}) → Answer
deleted (ok _) = record { status = 204; body = empty }
deleted (err e) = write_domain_error e

unfoldable pub handle_delete_subscription : Net → ℕ → State → Answer × State
unfolding Cache.delete
handle_delete_subscription n id s = let (r, s') = Cache.delete n id s in (deleted r, s')

-- `handleListAttempts`
abbrev pub listed_attempts : Result (List DeliveryLog) → Answer
listed_attempts (ok logs) = write_json 200 (attempts (map to_attempt_response logs))
listed_attempts (err e) = write_domain_error e

abbrev pub attempts_of : Trip → ℕ → ℕ → Result Subscription × State → Answer × State
attempts_of t id limit (err e, s) = (write_domain_error e, s)
attempts_of t id limit (ok _, s) = (listed_attempts (list_by_subscription t id limit s.db).0, s)

unfoldable pub handle_list_attempts : Net → Trip → ℕ → Text → State → Answer × State
unfolding get_by_id
handle_list_attempts n t id limit s = attempts_of t id (parse_limit limit 50 200) (get_by_id n id s)

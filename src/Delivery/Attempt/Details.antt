-- ===== src/Delivery/Attempt/Details.antt =====
-- The error details that `attempt` and `truncate` of internal/worker/delivery.go give to the tables.
use webhook_delivery_system.Prelude.{
  ℕ, zero, suc, ◌≤◌, ◌<◌, ◌≡◌, refl, Bool, true, false, Option, none, some, [], ◌∷◌, Text, length,
  take, ◌⊎◌, inl, inr, arith, ap, subst, sym, ◌∙◌, leb, ltb, ◌&&◌, text_eq_iff, if◌then◌else◌,
}
use webhook_delivery_system.Domain.{DeliveryLog, Subscription}
use webhook_delivery_system.Signature.{Mac, sign, verify, build_message}
use webhook_delivery_system.Delivery.Attempt.{
  Utf8, Wire, Outbound, Response, failed, responded, max_error_detail_len, cut_back, outbound,
  truncate, response_kept, attempt_built, attempt_canonical, attempt,
}

-- What the library documents: the result of `ToValidUTF8` is valid, and so is the empty string.
pub record IsUtf8 (u : Utf8) : Type 0 where
  pub made_valid : (s : Text) → u.valid (u.to_valid s) ≡ true
  pub empty_valid : u.valid [] ≡ true

-- The longest valid prefix of at most `n` bytes.
pub record IsLongest (u : Utf8) (n : ℕ) (s r : Text) : Type 0 where
  pub size : ℕ
  pub is_prefix : r ≡ take size s
  pub short : length r ≤ n
  pub is_valid : u.valid r ≡ true
  pub longest : (k : ℕ) → k ≤ n → k ≤ length s → length r < k → u.valid (take k s) ≡ false

length-take_le : (n : ℕ) (s : Text) → length (take n s) ≤ n
length-take_le zero s = omega arith
length-take_le (suc n) [] = omega arith
length-take_le (suc n) (c ∷ s) = omega (arith, length-take_le n s)

≤_split : (k n : ℕ) → k ≤ suc n → (k ≡ suc n) ⊎ (k ≤ n)
≤_split k n h = ground arith

length-take_exact : (n : ℕ) (s : Text) → n ≤ length s → length (take n s) ≡ n
length-take_exact zero s h = refl
length-take_exact (suc n) [] h = absurd (omega arith)
length-take_exact (suc n) (c ∷ s) h = ap suc (length-take_exact n s (omega arith))

take-length : (s : Text) → s ≡ take (length s) s
take-length [] = refl
take-length (c ∷ s) = ap (λ t. c ∷ t) (take-length s)

branches :
    (P : Text → Type 0) (b : Bool) {r t : Text}
    → (b ≡ true → P r)
    → (b ≡ false → P t)
    → P (if b then r else t)
branches P true good bad = good refl
branches P false good bad = bad refl

whole : (u : Utf8) (n : ℕ) (s : Text) → length s ≤ n → u.valid s ≡ true → IsLongest u n s s
whole u n s h v = record {
  size = length s;
  is_prefix = take-length s;
  short = h;
  is_valid = v;
  longest = λ k below within longer. absurd (omega arith);
}

-- A longer prefix that is not valid leaves the longest one as it is.
extend :
    (u : Utf8) (n : ℕ) (s r : Text)
    → u.valid (take (suc n) s) ≡ false
    → IsLongest u n s r
    → IsLongest u (suc n) s r
extend u n s r bad l = record {
  size = l.size;
  is_prefix = l.is_prefix;
  short = let before = l.short in omega arith;
  is_valid = l.is_valid;
  longest = λ k below within longer. elim (≤_split k n below) [
    | inl e ↦ subst (λ i. u.valid (take i s) ≡ false) (sym e) bad
    | inr le ↦ l.longest k le within longer
  ];
}

cut_back-IsLongest :
    (u : Utf8) (s : Text) (n : ℕ) → IsUtf8 u → n ≤ length s → IsLongest u n s (cut_back u s n)
unfolding cut_back
cut_back-IsLongest u s zero d h = record {
  size = 0;
  is_prefix = refl;
  short = omega arith;
  is_valid = d.empty_valid;
  longest = λ k below within longer. absurd (omega arith);
}
cut_back-IsLongest u s (suc n) d h =
    let exact = length-take_exact (suc n) s h in
    branches (IsLongest u (suc n) s) (u.valid (take (suc n) s))
      (λ good. record {
        size = suc n;
        is_prefix = refl;
        short = omega arith;
        is_valid = good;
        longest = λ k below within longer. absurd (omega arith);
      })
      (λ bad. extend u n s (cut_back u s n) bad (cut_back-IsLongest u s n d (omega arith)))

-- A text that is truncated to `n` bytes, over UTF-8 functions that are as documented, is the longest prefix
-- of at most `n` bytes, of the text made valid, that is valid UTF-8.
pub truncate-IsLongest :
    (u : Utf8) (s : Text) (n : ℕ) → IsUtf8 u → IsLongest u n (u.to_valid s) (truncate u s n)
unfolding truncate
truncate-IsLongest u s n d =
    branches (IsLongest u n (u.to_valid s)) (leb (length (u.to_valid s)) n)
      (λ fits. whole u n (u.to_valid s) (ground arith) (d.made_valid s))
      (λ over. cut_back-IsLongest u (u.to_valid s) n d (ground arith))

-- The detail is valid, and fits its column.
abbrev pub IsDetail : Utf8 → Text → Type 0
IsDetail u t = (length t ≤ max_error_detail_len) × (u.valid t ≡ true)

truncated : (u : Utf8) (s : Text) → IsUtf8 u → IsDetail u (truncate u s max_error_detail_len)
truncated u s d = let l = truncate-IsLongest u s max_error_detail_len d in (l.short, l.is_valid)

-- A request that the subscription's secret signs, and the response to it.
pub record IsAnswered (x : Wire) (log : DeliveryLog) (sub : Subscription) (status : ℕ)
    (detail : Text) : Type 0 where
  pub sent : Outbound
  pub target : sent.url ≡ log.target_url
  pub canonical : x.canonical_json log.payload ≡ inr sent.body
  pub signed :
      verify x.mac (build_message sent.timestamp [] sent.body) sub.secret_key sent.signature ≡ true
  pub body : Text
  pub response : x.client sent ≡ responded status body
  pub success : 200 ≤ status → status < 300 → detail ≡ []
  pub kept : IsDetail x.utf8 detail

signs : (h : Mac) (message secret : Text) → verify h message secret (sign h message secret) ≡ true
unfolding verify
signs h message secret = (text_eq_iff (sign h message secret) (sign h message secret)).1 refl

parts :
    {code status : ℕ} {t detail : Text}
    → ◌≡◌ {A = Option ℕ × Text} (some code, t) (some status, detail)
    → (code ≡ status) × (t ≡ detail)
parts h = (cc, cc)

not_success : (code : ℕ) → (leb 200 code && ltb code 300) ≡ false → 200 ≤ code → ¬ (code < 300)
not_success code h low high = ground arith

kept_if :
    (u : Utf8) (code status : ℕ) (t detail : Text) (b : Bool)
    → IsDetail u []
    → IsDetail u t
    → (leb 200 code && ltb code 300) ≡ b
    → ◌≡◌ {A = Option ℕ × Text}
        (if b then (some code, []) else (some code, t))
        (some status, detail)
    → (code ≡ status) × (200 ≤ status → status < 300 → detail ≡ []) × IsDetail u detail
kept_if u code status t detail true empty d is h =
    let (same, e) = parts h in (same, λ low high. sym e, subst (IsDetail u) e empty)
kept_if u code status t detail false empty d is h =
    let (same, e) = parts h in
    (
      same,
      λ low high. absurd (
          not_success code is (subst (λ n. 200 ≤ n) (sym same) low)
            (subst (λ n. n < 300) (sym same) high)),
      subst (IsDetail u) e d,
    )

kept_response :
    (x : Wire) (code status : ℕ) (body detail : Text)
    → IsUtf8 x.utf8
    → response_kept x (responded code body) ≡ (some status, detail)
    → (code ≡ status) × (200 ≤ status → status < 300 → detail ≡ []) × IsDetail x.utf8 detail
unfolding response_kept
kept_response x code status body detail d e =
    kept_if x.utf8 code status _ detail (leb 200 code && ltb code 300) (omega arith, d.empty_valid)
      (truncated x.utf8 (x.http_detail code (take max_error_detail_len body)) d) refl e

answered :
    (x : Wire) (now : ℕ) (log : DeliveryLog) (sub : Subscription) (body : Text)
    (response : Response) (status : ℕ) (detail : Text)
    → IsUtf8 x.utf8
    → x.canonical_json log.payload ≡ inr body
    → x.client (outbound x now log sub body) ≡ response
    → response_kept x response ≡ (some status, detail)
    → IsAnswered x log sub status detail
unfolding response_kept
answered x now log sub body (failed e) status detail d c sent k = absurd (cc)
answered x now log sub body (responded code content) status detail d c sent k =
    let (same, success, kept) = kept_response x code status content detail d k in
    record {
      sent = outbound x now log sub body;
      target = refl;
      canonical = c;
      signed = signs x.mac (build_message (x.format_int now) [] body) sub.secret_key;
      body = content;
      response = sent ∙ ap (λ n. responded n content) same;
      success = success;
      kept = kept;
    }

built_answered :
    (x : Wire) (now : ℕ) (log : DeliveryLog) (sub : Subscription) (body : Text) (e : Option Text)
    (status : ℕ) (detail : Text)
    → IsUtf8 x.utf8
    → x.canonical_json log.payload ≡ inr body
    → attempt_built x (outbound x now log sub body) e ≡ (some status, detail)
    → IsAnswered x log sub status detail
unfolding attempt_built
built_answered x now log sub body none status detail d c k =
    answered x now log sub body (x.client (outbound x now log sub body)) status detail d c refl k
built_answered x now log sub body (some e) status detail d c k = absurd (cc)

canonical_answered :
    (x : Wire) (now : ℕ) (log : DeliveryLog) (sub : Subscription) (canonical : Text ⊎ Text)
    (status : ℕ) (detail : Text)
    → IsUtf8 x.utf8
    → x.canonical_json log.payload ≡ canonical
    → attempt_canonical x now log sub canonical ≡ (some status, detail)
    → IsAnswered x log sub status detail
unfolding attempt_canonical
canonical_answered x now log sub (inl e) status detail d c k = absurd (cc)
canonical_answered x now log sub (inr body) status detail d c k =
    built_answered x now log sub body (x.request_error log.target_url) status detail d c k

-- When an attempt yields a status, over UTF-8 functions that are as documented, it is the client's
-- answer to a request to the row's target, whose body is the canonical form of the row's payload and
-- whose signature verifies under the subscription's secret, over the timestamp it carries and no
-- idempotency key; the detail is empty for a status from 200 to 299, and is in every case valid UTF-8
-- of at most 512 bytes.
pub attempt-IsAnswered :
    (x : Wire) (now : ℕ) (log : DeliveryLog) (sub : Subscription) (status : ℕ) (detail : Text)
    → IsUtf8 x.utf8
    → attempt x now log sub ≡ (some status, detail)
    → IsAnswered x log sub status detail
unfolding attempt
attempt-IsAnswered x now log sub status detail d k =
    canonical_answered x now log sub (x.canonical_json log.payload) status detail d refl k

-- ===== src/Store/Chains.antt =====
-- The attempt rows of a webhook as chains: each replay is a chain, each retry the next attempt of
-- its chain. A row is live while it is undelivered work or an entry of the dead letter queue.
use webhook_delivery_system.Prelude.{
  ◌≡◌, ◌≢◌, inl, inr, Bool, true, ◌||◌, some, List, [], ◌∷◌, arith, All, if◌then◌else◌, Bool-cases,
  subst,
}
use webhook_delivery_system.Domain.{DeliveryLog, final_failure, is_pending}
use webhook_delivery_system.Store.Sql.{update_where, delete_where, query_row}
use webhook_delivery_system.Store.Recovery.{lex_before}

abbrev pub is_live : DeliveryLog → Bool
is_live r = is_pending r.status || r.in_dlq

-- The order of the attempts of a webhook: by replay, then by attempt.
abbrev pub earlier : DeliveryLog → DeliveryLog → Bool
earlier r s = lex_before r.replay_number r.attempt_number s.replay_number s.attempt_number

-- Two rows have different ids; two rows of one webhook have different places in its order, and a
-- live one is the later.
pub record Apart (r s : DeliveryLog) : Type 0 where
  pub ids : r.id ≢ s.id
  pub places : r.webhook_id ≡ s.webhook_id → earlier r s || earlier s r ≡ true
  pub left_live : r.webhook_id ≡ s.webhook_id → is_live r ≡ true → earlier s r ≡ true
  pub right_live : r.webhook_id ≡ s.webhook_id → is_live s ≡ true → earlier r s ≡ true

abbrev pub Pairwise : List DeliveryLog → Type 0
Pairwise [] = Unit {0}
Pairwise (r ∷ rs) = All (Apart r) rs × Pairwise rs

-- A dead letter has failed for good.
abbrev pub Sound : DeliveryLog → Type 0
Sound r = r.in_dlq ≡ true → r.status ≡ final_failure

pub record IsChained (logs : List DeliveryLog) : Type 0 where
  pub pairwise : Pairwise logs
  pub sound : All Sound logs

-- A row after an update: it keeps its place, and is live only if it was.
pub record Ages (r s : DeliveryLog) : Type 0 where
  pub same_id : s.id ≡ r.id
  pub same_webhook : s.webhook_id ≡ r.webhook_id
  pub same_replay : s.replay_number ≡ r.replay_number
  pub same_attempt : s.attempt_number ≡ r.attempt_number
  pub was_live : is_live s ≡ true → is_live r ≡ true
  pub stays_sound : Sound r → Sound s

pub Ages-refl : (r : DeliveryLog) → Ages r r
Ages-refl r = ground arith

Apart-Ages : (r s r' s' : DeliveryLog) → Apart r s → Ages r r' → Ages s s' → Apart r' s'
Apart-Ages r s r' s' h a b = ground arith

module _ (p : DeliveryLog → Bool) (f : DeliveryLog → DeliveryLog) where
  abbrev updated : DeliveryLog → DeliveryLog
  updated r = if p r then f r else r

  module _ (ages : (r : DeliveryLog) → p r ≡ true → Ages r (f r)) where
    updated-Ages : (r : DeliveryLog) → Ages r (updated r)
    updated-Ages r = elim (Bool-cases (p r)) [
      | inl hit ↦ rw hit (ages r hit)
      | inr miss ↦ rw miss (Ages-refl r)
    ]

    All-Apart-update :
        (r : DeliveryLog) (rs : List DeliveryLog)
        → All (Apart r) rs
        → All (Apart (updated r)) (update_where p f rs)
    All-Apart-update r [] h = tt
    All-Apart-update r (s ∷ rs) h = (
      Apart-Ages r s (updated r) (updated s) h.0 (updated-Ages r) (updated-Ages s),
      All-Apart-update r rs h.1,
    )

    Pairwise-update : (rs : List DeliveryLog) → Pairwise rs → Pairwise (update_where p f rs)
    Pairwise-update [] h = tt
    Pairwise-update (r ∷ rs) h = (All-Apart-update r rs h.0, Pairwise-update rs h.1)

    Sound-update : (rs : List DeliveryLog) → All Sound rs → All Sound (update_where p f rs)
    Sound-update [] h = tt
    Sound-update (r ∷ rs) h = ((updated-Ages r).stays_sound h.0, Sound-update rs h.1)

    pub update_where-IsChained :
        (rs : List DeliveryLog) → IsChained rs → IsChained (update_where p f rs)
    update_where-IsChained rs h = record {
      pairwise = Pairwise-update rs h.pairwise;
      sound = Sound-update rs h.sound;
    }

module _ (p : DeliveryLog → Bool) where
  All-delete :
      (P : DeliveryLog → Type 0) (rs : List DeliveryLog) → All P rs → All P (delete_where p rs)
  All-delete P [] h = tt
  All-delete P (r ∷ rs) h = elim (Bool-cases (p r)) [
    | inl hit ↦ rw hit (All-delete P rs h.1)
    | inr miss ↦ rw miss (h.0, All-delete P rs h.1)
  ]

  Pairwise-delete : (rs : List DeliveryLog) → Pairwise rs → Pairwise (delete_where p rs)
  Pairwise-delete [] h = tt
  Pairwise-delete (r ∷ rs) h = elim (Bool-cases (p r)) [
    | inl hit ↦ rw hit (Pairwise-delete rs h.1)
    | inr miss ↦ rw miss (All-delete (Apart r) rs h.0, Pairwise-delete rs h.1)
  ]

  pub delete_where-IsChained :
      (rs : List DeliveryLog) → IsChained rs → IsChained (delete_where p rs)
  delete_where-IsChained rs h = record {
    pairwise = Pairwise-delete rs h.pairwise;
    sound = All-delete Sound rs h.sound;
  }

-- What holds of every row holds of the one that a query returns.
pub All-query :
    (P : DeliveryLog → Type 0) (p : DeliveryLog → Bool) (rs : List DeliveryLog) (r : DeliveryLog)
    → All P rs
    → query_row p rs ≡ some r
    → P r × (p r ≡ true)
All-query P p [] r h e = cc
All-query P p (s ∷ rs) r h e = elim (Bool-cases (p s)) [
  | inl hit ↦
      let same : s ≡ r = ground arith in (subst P same h.0, subst (λ x. p x ≡ true) same hit)
  | inr miss ↦ All-query P p rs r h.1 (ground arith)
]

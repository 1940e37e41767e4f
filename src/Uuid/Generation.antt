-- ===== src/Uuid/Generation.antt =====
-- internal/infra/idgen/idgen.go. The bytes of `crypto/rand` are given by their positions; a source that
-- fails gives none.
use Prim.Native.Nat.{bit_and, bit_or}
use webhook_delivery_system.Prelude.{
  false, ℕ, zero, suc, ◌+◌, ◌*◌, ◌/◌, ◌%◌, ◌<◌, ◌≡◌, ◌-◌, ==_iff, ap, subst, sym, ◌∙◌, inl, inr,
  Bool-cases, refl, Bool, true, ◌||◌, Option, none, some, [], ◌∷◌, Text, arith, ltb, length,
  if◌then◌else◌, ◌==◌,
}
use webhook_delivery_system.Uuid.{is_hex, valid_uuid}

abbrev pub Source : Type 0
Source = Option (ℕ → ℕ)

-- A lower case hexadecimal digit.
abbrev pub hex_digit : ℕ → ℕ
hex_digit n = if ltb n 10 then 48 + n else 87 + n

-- The two digits of a byte, before a text.
abbrev pub hex_byte : ℕ → Text → Text
hex_byte b rest = hex_digit (b / 16 % 16) ∷ hex_digit (b % 16) ∷ rest

abbrev pub hyphen : Text → Text
hyphen rest = 45 ∷ rest

-- The version in byte 6 and the variant in byte 8.
abbrev pub with_version : ℕ → ℕ
with_version b = bit_or (bit_and b 15) 64

abbrev pub with_variant : ℕ → ℕ
with_variant b = bit_or (bit_and b 63) 128

abbrev pub format_uuid : (ℕ → ℕ) → Text
format_uuid b = hex_byte (b 0) (
    hex_byte (b 1) (
      hex_byte (b 2) (
        hex_byte (b 3) (
          hyphen (
            hex_byte (b 4) (
              hex_byte (b 5) (
                hyphen (
                  hex_byte (with_version (b 6)) (
                    hex_byte (b 7) (
                      hyphen (
                        hex_byte (with_variant (b 8)) (
                          hex_byte (b 9) (
                            hyphen (
                              hex_byte (b 10) (
                                hex_byte (b 11) (
                                  hex_byte (b 12) (
                                    hex_byte (b 13)
                                      (hex_byte (b 14) (hex_byte (b 15) [])))))))))))))))))))

-- `NewUUIDv4`
unfoldable pub new_uuid_v4 : Source → Option Text
new_uuid_v4 none = none
new_uuid_v4 (some b) = some (format_uuid b)

-- `hex.EncodeToString` of the first `n` bytes from position `i` on, and `NewSecretKey`.
abbrev pub hex_from : (ℕ → ℕ) → ℕ → ℕ → Text
hex_from b i zero = []
hex_from b i (suc n) = hex_byte (b i) (hex_from b (i + 1) n)

unfoldable pub new_secret_key : Source → Option Text
new_secret_key none = none
new_secret_key (some b) = some (hex_from b 0 32)

hex_digit_hex : (n : ℕ) → is_hex (hex_digit (n % 16)) ≡ true
hex_digit_hex n = ground arith

-- The digits of the version and of the variant.
abbrev pub item_at : ℕ → Text → Option ℕ
item_at i [] = none
item_at zero (c ∷ s) = some c
item_at (suc i) (c ∷ s) = item_at i s

abbrev pub is_variant : ℕ → Bool
is_variant c = c == 56 || (c == 57 || (c == 97 || c == 98))

-- A test of the bytes up to a limit, the lowest one first.
bytes_pass : (ℕ → Bool) → ℕ → Bool
bytes_pass test zero = true
bytes_pass test (suc last) =
    let before = bytes_pass test last in if before then test last else false

byte_passes :
    (test : ℕ → Bool) (limit byte : ℕ)
    → byte < limit
    → bytes_pass test limit ≡ true
    → test byte ≡ true
unfolding bytes_pass
byte_passes test zero byte small h = absurd (omega arith)
byte_passes test (suc last) byte small h = ground (arith, byte_passes test last byte)

version_digit : (byte : ℕ) → byte < 256 → hex_digit (with_version byte / 16 % 16) == 52 ≡ true
unfolding bytes_pass
version_digit byte small =
    byte_passes (λ x. hex_digit (with_version x / 16 % 16) == 52) 256 byte small refl

variant_digit :
    (byte : ℕ) → byte < 256 → is_variant (hex_digit (with_variant byte / 16 % 16)) ≡ true
unfolding bytes_pass
variant_digit byte small =
    byte_passes (λ x. is_variant (hex_digit (with_variant x / 16 % 16))) 256 byte small refl

format_valid : (b : ℕ → ℕ) → valid_uuid (format_uuid b) ≡ true
unfolding valid_uuid
format_valid b = simp hex_digit_hex

the_text : {s t : Text} → ◌≡◌ {A = Option Text} (some s) (some t) → s ≡ t
the_text h = cc

-- An identifier that is minted from bytes is in the grammar that `ValidUUID` accepts from outside, and has
-- the version digit 4 and a variant digit 8, 9, a or b.
pub new_uuid_v4_valid :
    (b : ℕ → ℕ) (id : Text)
    → ((i : ℕ) → b i < 256)
    → new_uuid_v4 (some b) ≡ some id
    → (valid_uuid id ≡ true)
      × (item_at 14 id ≡ some 52)
      × ((v : ℕ) × (item_at 19 id ≡ some v) × (is_variant v ≡ true))
unfolding new_uuid_v4
new_uuid_v4_valid b id h e =
    let version : item_at 14 (format_uuid b) ≡ some 52 =
      ap some
        ((==_iff (hex_digit (with_version (b 6) / 16 % 16)) 52).0 (version_digit (b 6) (h 6))) in
    subst
      (λ t.
        (valid_uuid t ≡ true)
        × (item_at 14 t ≡ some 52)
        × ((v : ℕ) × (item_at 19 t ≡ some v) × (is_variant v ≡ true)))
      (the_text e)
      (
        format_valid b,
        version,
        (hex_digit (with_variant (b 8) / 16 % 16), refl, variant_digit (b 8) (h 8)),
      )

hex_digit_injective : (m n : ℕ) → hex_digit (m % 16) ≡ hex_digit (n % 16) → m % 16 ≡ n % 16
hex_digit_injective m n h = ground arith

byte_of_digits : (a b : ℕ) → a < 256 → b < 256 → a / 16 % 16 ≡ b / 16 % 16 → a % 16 ≡ b % 16 → a ≡ b
byte_of_digits a b h k d e = omega arith

heads : {c d : ℕ} {s t : Text} → ◌≡◌ {A = Text} (c ∷ s) (d ∷ t) → (c ≡ d) × (s ≡ t)
heads h = (cc, cc)

hex_from_injective :
    (a b : ℕ → ℕ) (i n : ℕ)
    → ((k : ℕ) → a k < 256)
    → ((k : ℕ) → b k < 256)
    → hex_from a i n ≡ hex_from b i n
    → (k : ℕ) → k < n
    → a (i + k) ≡ b (i + k)
hex_from_injective a b i zero ha hb e k l = absurd (omega arith)
hex_from_injective a b i (suc n) ha hb e k l =
    let (high, after_high) = heads e in
    let (low, rest) = heads after_high in
    let same : a i ≡ b i =
      byte_of_digits (a i) (b i) (ha i) (hb i) (hex_digit_injective (a i / 16) (b i / 16) high)
        (hex_digit_injective (a i) (b i) low) in
    elim (Bool-cases (k == 0)) [
      | inl first ↦
          let here : i + k ≡ i = omega (arith, (==_iff k 0).0 first) in
          subst (λ j. a j ≡ b j) (sym here) same
      | inr later ↦
          let step : i + 1 + (k - 1) ≡ i + k = ground arith in
          subst (λ j. a j ≡ b j) step
            (hex_from_injective a b (i + 1) n ha hb rest (k - 1) (ground arith))
    ]

length-hex_from : (b : ℕ → ℕ) (i n : ℕ) → length (hex_from b i n) ≡ 2 * n
length-hex_from b i zero = refl
length-hex_from b i (suc n) = omega (arith, length-hex_from b (i + 1) n)

-- A new secret is 64 characters long, and two secrets that are equal come from the same 32 random bytes:
-- no entropy is lost.
pub new_secret_key_injective :
    (a b : ℕ → ℕ) (secret : Text)
    → ((k : ℕ) → a k < 256)
    → ((k : ℕ) → b k < 256)
    → new_secret_key (some a) ≡ some secret
    → new_secret_key (some b) ≡ some secret
    → (length secret ≡ 64) × ((k : ℕ) → k < 32 → a k ≡ b k)
unfolding new_secret_key
new_secret_key_injective a b secret ha hb ea eb = (
  subst (λ t. length t ≡ 64) (the_text ea) (length-hex_from a 0 32),
  λ k l.
      let same = hex_from_injective a b 0 32 ha hb (the_text ea ∙ sym (the_text eb)) k l in
      let zero_add : 0 + k ≡ k = omega arith in subst (λ j. a j ≡ b j) zero_add same,
)

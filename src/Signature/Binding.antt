-- ===== src/Signature/Binding.antt =====
-- A signed message determines its fields.
use webhook_delivery_system.Prelude.{
  ◌≡◌, refl, Bool, true, false, ◌&&◌, [], ◌∷◌, ◌++◌, Text, arith, if◌then◌else◌, ◌==◌,
}
use webhook_delivery_system.Signature.{dot, build_message, key_bytes, valid_idempotency_key}

-- No byte of the text is a dot.
abbrev pub dotless : Text → Bool
dotless [] = true
dotless (c ∷ s) = (if c == dot then false else true) && dotless s

key_bytes-dotless : (k : Text) → key_bytes k ≡ true → dotless k ≡ true
key_bytes-dotless [] h = refl
key_bytes-dotless (c ∷ k) h = ground (arith, key_bytes-dotless k)

valid-dotless : (k : Text) → valid_idempotency_key k ≡ true → dotless k ≡ true
unfolding valid_idempotency_key
valid-dotless [] h = refl
valid-dotless (c ∷ k) h = ground (arith, key_bytes-dotless (c ∷ k))

-- The text before the first dot, and the text after it.
split :
    (s t x y : Text)
    → dotless s ≡ true
    → dotless t ≡ true
    → s ++ (dot ∷ x) ≡ t ++ (dot ∷ y)
    → (s ≡ t) × (x ≡ y)
split [] [] x y hs ht e = ground (arith)
split [] (c ∷ t) x y hs ht e = absurd (ground arith)
split (c ∷ s) [] x y hs ht e = absurd (ground arith)
split (c ∷ s) (d ∷ t) x y hs ht e = let rest = split s t x y in ground (arith, rest)

-- Two signed messages whose timestamps have no dot, and whose idempotency keys are valid, are equal
-- only if their timestamps, their keys and their bodies are: no field can be moved into another
-- under a signature that was made.
pub build_message_injective :
    (timestamp timestamp' key key' body body' : Text)
    → dotless timestamp ≡ true
    → dotless timestamp' ≡ true
    → valid_idempotency_key key ≡ true
    → valid_idempotency_key key' ≡ true
    → build_message timestamp key body ≡ build_message timestamp' key' body'
    → (timestamp ≡ timestamp') × ((key ≡ key') × (body ≡ body'))
unfolding build_message
build_message_injective timestamp timestamp' key key' body body' d d' v v' e =
    let (same, rest) =
      split timestamp timestamp' (key ++ (dot ∷ body)) (key' ++ (dot ∷ body')) d d' e in
    (same, split key key' body body' (valid-dotless key v) (valid-dotless key' v') rest)

-- ===== src/Observer/Keys.antt =====
-- src/observer.rs: `format_register_resource` loses nothing where no address prints a dollar sign.
use coap_rs.Common.{◌≡◌, refl, ◌≢◌, [], ◌∷◌, ◌++◌, Bytes, nat_key}
use coap_rs.Coap.{Endpoint}
use coap_rs.Observer.{format_register_resource}

-- No byte of a text is a dollar sign.
abbrev pub IsPlain : Bytes → Type 0
IsPlain [] = Unit
IsPlain (b ∷ bs) = (b ≢ b'$') × IsPlain bs

split_at_dollar :
    (a b p q : Bytes) → IsPlain a → IsPlain b → a ++ b'$' ∷ p ≡ b ++ b'$' ∷ q → (a ≡ b) × (p ≡ q)
split_at_dollar [] [] p q h k e = (refl, cc)
split_at_dollar [] (y ∷ b) p q h k e = absurd (k.0 (cc))
split_at_dollar (x ∷ a) [] p q h k e = absurd (h.0 (cc))
split_at_dollar (x ∷ a) (y ∷ b) p q h k e =
    let (same, rest) = split_at_dollar a b p q h.1 k.1 (cc) in (cc, rest)

module _ (net : Endpoint) (plain : (a : net.Addr) → IsPlain (net.display a)) where
  -- Two registrations have one key just if their addresses print alike and their paths are equal.
  pub format_register_resource-injective :
      (a b : net.Addr) (p q : Bytes)
      → format_register_resource net a p ≡ format_register_resource net b q
      → (net.display a ≡ net.display b) × (p ≡ q)
  format_register_resource-injective a b p q e =
      split_at_dollar (net.display a) (net.display b) p q (plain a) (plain b) e

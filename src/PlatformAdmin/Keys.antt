-- ===== src/PlatformAdmin/Keys.antt =====
-- `identityKey` joins issuer and subject by a line break, and `confirm` looks its three people up by
-- that text. With issuers that hold no line break the key determines the identity.
use Prim.Native.Char.{Char, code}
use Prim.Native.String.{String, [], ◌∷◌}
use text.Mathlib.TextLemmas.{nil-append, cons-append, head-eq_of_cons-eq, tail-eq_of_cons-eq}
use sq_hub.Common.{◌≡◌, ◌≢◌, refl, sym, ◌∙◌, ap, ap₂}
use sq_hub.Common.Identity.{Identity}
use sq_hub.PlatformAdmin.Proposals.{identity_key}

abbrev pub NoBreak : String → Type 0
NoBreak [] = Unit
NoBreak (c ∷ s) = (code c ≢ b'\n') × NoBreak s

infixr 66 ◌<>◌
abbrev ◌<>◌ : String → String → String
a <> b = Prim.Native.String.◌++◌ a b

line_break : Char
line_break = "\n"

break_cons : (s : String) → "\n" <> s ≡ line_break ∷ s
unfolding line_break
break_cons s = cons-append "\n" [] s ∙ ap (λ t. "\n" ∷ t) (nil-append s)

key_parts :
    (a b s t : String)
    → NoBreak a
    → NoBreak b
    → a <> (line_break ∷ s) ≡ b <> (line_break ∷ t)
    → (a ≡ b) × (s ≡ t)
unfolding line_break
key_parts [] [] s t h k e = (refl, tail-eq_of_cons-eq (sym (nil-append _) ∙ e ∙ nil-append _))
key_parts [] (d ∷ b) s t h k e =
    absurd (k.0 (ap code (sym (head-eq_of_cons-eq (sym (nil-append _) ∙ e ∙ cons-append d b _)))))
key_parts (c ∷ a) [] s t h k e =
    absurd (h.0 (ap code (head-eq_of_cons-eq (sym (cons-append c a _) ∙ e ∙ nil-append _))))
key_parts (c ∷ a) (d ∷ b) s t h k e =
    let e' : c ∷ (a <> (line_break ∷ s)) ≡ d ∷ (b <> (line_break ∷ t)) =
      sym (cons-append c a _) ∙ e ∙ cons-append d b _ in
    let (same_a, same_s) = key_parts a b s t h.1 k.1 (tail-eq_of_cons-eq e') in
    (ap₂ (λ x y. x ∷ y) (head-eq_of_cons-eq e') same_a, same_s)

-- The key of an identity whose issuer holds no line break belongs to no other such identity.
pub identity_key-injective :
    (i j : Identity) → NoBreak i.issuer → NoBreak j.issuer → identity_key i ≡ identity_key j → i ≡ j
unfolding identity_key
identity_key-injective i j h k e =
    let e' : i.issuer <> (line_break ∷ i.subject) ≡ j.issuer <> (line_break ∷ j.subject) =
      ap (λ t. i.issuer <> t) (sym (break_cons i.subject))
      ∙ e
      ∙ ap (λ t. j.issuer <> t) (break_cons j.subject) in
    let (same_issuer, same_subject) = key_parts i.issuer j.issuer i.subject j.subject h k e' in
    λ n. record { issuer = same_issuer n; subject = same_subject n }

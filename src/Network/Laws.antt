-- ===== src/Network/Laws.antt =====
-- The names of networks, read and printed.
use hayate.Prelude.{
  ℕ, ◌≡◌, refl, some, Bool-cases, inl, inr, [], ◌∷◌, false, if◌then◌else◌, ◌+◌, ◌∷◌, arith,
}
use hayate.Prelude.Text.{Text, codes, text_eq, text_eq_sound}
use hayate.Network.{
  Network, mainnet, preprod, preview, sancho_net, custom, as_str, is_upper, to_lowercase,
  from_lowercase, parse,
}

-- A network is named by one of the four names, or by another text in lower case.
abbrev pub IsNamed : Network → Type 0
IsNamed (custom name) =
    (to_lowercase name ≡ name)
    × (text_eq name (codes "mainnet") ≡ false)
    × (text_eq name (codes "preprod") ≡ false)
    × (text_eq name (codes "preview") ≡ false)
    × (text_eq name (codes "sanchonet") ≡ false)
IsNamed _ = Unit

as_str-from_lowercase : (s : Text) → as_str (from_lowercase s) ≡ s
unfolding as_str from_lowercase
as_str-from_lowercase s = elim (Bool-cases (text_eq s (codes "mainnet"))) [
  | inl e ↦ rw (e, text_eq_sound s _ e)
  | inr f ↦ elim (Bool-cases (text_eq s (codes "preprod"))) [
    | inl e ↦ rw (f, e, text_eq_sound s _ e)
    | inr g ↦ elim (Bool-cases (text_eq s (codes "preview"))) [
      | inl e ↦ rw (f, g, e, text_eq_sound s _ e)
      | inr h ↦ elim (Bool-cases (text_eq s (codes "sanchonet"))) [
        | inl e ↦ rw (f, g, h, e, text_eq_sound s _ e)
        | inr k ↦ rw (f, g, h, k)
      ]
    ]
  ]
]

custom_lem : (name : Text) → IsNamed (custom name) → parse name ≡ some (custom name)
unfolding parse from_lowercase
custom_lem name (lower, a, b, c, d) = rw (lower, a, b, c, d)

-- A letter that is in lower case stays.
lowercase_letter : (c : ℕ) → is_upper (if is_upper c then c + 32 else c) ≡ false
lowercase_letter c = ground arith

to_lowercase_idem : (s : Text) → to_lowercase (to_lowercase s) ≡ to_lowercase s
unfolding to_lowercase
to_lowercase_idem [] = refl
to_lowercase_idem (c ∷ s) = rw (lowercase_letter c, to_lowercase_idem s)

-- Every text is read as a network, whose name is the text in lower case, and which is read from the
-- text in lower case too.
pub as_str-parse :
    (s : Text)
    → ((n : Network) × (parse s ≡ some n) × (as_str n ≡ to_lowercase s))
      × (parse (to_lowercase s) ≡ parse s)
unfolding parse
as_str-parse s = (
  (from_lowercase (to_lowercase s), refl, as_str-from_lowercase (to_lowercase s)),
  rw (to_lowercase_idem s),
)

-- The name of a network is read back as the network, where a custom one is in lower case and not one
-- of the four names.
pub parse-as_str : (n : Network) → IsNamed n → parse (as_str n) ≡ some n
unfolding parse from_lowercase as_str text_eq to_lowercase
parse-as_str mainnet h = refl
parse-as_str preprod h = refl
parse-as_str preview h = refl
parse-as_str sancho_net h = refl
parse-as_str (custom name) h = custom_lem name h

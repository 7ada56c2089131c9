-- ===== src/Management/Admins.antt =====
use mathlib.Core.Option
-- The admins of zooid/management.go.
use unicity_relay.Prelude.{
  if◌then◌else◌, nat_eq, string_eq, Map, ℕ, String, Bool, ◌||◌, Option, none, some, List, [], ◌∷◌,
  ◌++◌,
}
use unicity_relay.Nostr.{Externals}
use unicity_relay.Config.{Role, Config, get_self, is_self, get_owner, is_owner}

-- `MustPubKeyFromHex` panics at a text that is no key: `none`.
unfoldable pub decode_all : ⦃x : Externals⦄ → List String → Option (List ℕ)
decode_all ⦃x⦄ [] = some []
decode_all ⦃x⦄ (text ∷ texts) = elim (x.pub_key_from_hex text) [
  | none ↦ none
  | some key ↦ Option.map (λ keys. key ∷ keys) (decode_all texts)
]

module _ ⦃x : Externals⦄ where
  unfoldable pub is_admin : Config → ℕ → Bool
  is_admin config pubkey = is_owner config pubkey || is_self config pubkey

  -- The texts of the keys that the managing roles list.
  unfoldable pub managing_texts : Map String Role → List String
  managing_texts [] = []
  managing_texts (entry ∷ roles) =
      (if entry.1.can_manage then entry.1.pubkeys else []) ++ managing_texts roles

  -- `none` if a key of a managing role is not hexadecimal, where the code panics.
  unfoldable pub get_admins : Config → Option (List ℕ)
  unfolding decode_all managing_texts
  get_admins config =
      Option.map (λ keys. get_owner config ∷ get_self config ∷ keys)
        (decode_all (managing_texts config.roles))

-- ===== src/Tests/Users.antt =====
-- Put-user events at the handler, on the concrete relay.
use unicity_relay.Prelude.{string_eq, nat_eq, [], ◌∷◌}
use unicity_relay.Nostr.{Event}
use unicity_relay.Tests.Demo.{letters, event_of}

-- The creator of "g" puts the key 4 in, as a writer.
abbrev put_event : Event
put_event = event_of 9000 2 (("h" ∷ "g" ∷ []) ∷ ("p" ∷ letters 4 ∷ "writer" ∷ []) ∷ [])

-- ===== src/Instance/Served.antt =====
-- Which events zooid/instance.go shows a client: `QueryStored`.
use unicity_relay.Prelude.{
  if◌then◌else◌, or_else, string_eq, nat_eq, ◌==◌, select, contains, ℕ, String, ◌≡◌, refl, ap, ◌∙◌,
  ◌⊎◌, inl, inr, Bool, true, false, not, ◌&&◌, Option, List, [], ◌∷◌, ◌++◌, map, arith,
}
use unicity_relay.Nostr.{Event, Filter, Externals}
use unicity_relay.Config.{can_invite, can_manage}
use unicity_relay.Events.Store.{EventStore, query_events}
use unicity_relay.Groups.Access.{is_group_event, can_read}
use unicity_relay.Management.Store.{relay_invite}
use unicity_relay.Instance.State.{Instance, config_in, events_in, with_store}
use unicity_relay.Instance.Requests.{
  zero_sig, is_write_only_event, strip_signature, is_internal_event, generate_invite_event, shown,
  generated, query_stored,
}

-- Every element has the property.
abbrev pub All {ℓ} : {A : Type ℓ} → (A → Type 0) → List A → Type 0
All P [] = Unit {0}
All P (a ∷ rest) = P a × All P rest

-- The event is one of these.
abbrev pub IsIn : Event → List Event → Type 0
IsIn event [] = ⊥
IsIn event (e ∷ es) = (event ≡ e) ⊎ IsIn event es

All-select :
    (P : Event → Type 0) (p : Event → Bool) (es : List Event)
    → ((e : Event) → IsIn e es → p e ≡ true → P e)
    → All P (select p es)
unfolding select
All-select P p [] h = tt
All-select P p (e ∷ es) h = kept (p e) (h e (inl refl)) (All-select P p es (λ d is. h d (inr is)))
  where
    kept :
        (b : Bool)
        → (b ≡ true → P e)
        → All P (select p es)
        → All P (if b then e ∷ select p es else select p es)
    kept true here rest = (here refl, rest)
    kept false here rest = rest

select-All :
    (P : Event → Type 0) (p : Event → Bool) (es : List Event) → All P es → All P (select p es)
unfolding select
select-All P p [] h = tt
select-All P p (e ∷ es) (h, hs) = kept (p e) (select-All P p es hs)
  where
    kept : (b : Bool) → All P (select p es) → All P (if b then e ∷ select p es else select p es)
    kept true rest = (h, rest)
    kept false rest = rest

All-map :
    (P Q : Event → Type 0) (f : Event → Event) (es : List Event)
    → ((e : Event) → P e → Q (f e))
    → All P es
    → All Q (map f es)
All-map P Q f [] h a = tt
All-map P Q f (e ∷ es) h (a, rest) = (h e a, All-map P Q f es h rest)

All-append : (P : Event → Type 0) (es fs : List Event) → All P es → All P fs → All P (es ++ fs)
All-append P [] fs a b = b
All-append P (e ∷ es) fs (h, a) b = (h, All-append P es fs a b)

module _ ⦃x : Externals⦄ where
  -- What a reader may see: no invite, no event of the relay's own data, no join or leave request, and
  -- of a group only what `CanRead` allows.
  pub record Readable (i : Instance) (pubkey : ℕ) (event : Event) : Type 0 where
    pub no_invite : (event.kind == relay_invite) ≡ false
    pub not_internal : is_internal_event event ≡ false
    pub not_write_only : is_write_only_event event ≡ false
    pub group_allows : is_group_event event ≡ true → can_read i.groups pubkey event ≡ true

  -- The event, with its signature or without.
  abbrev pub MayLackSig : Event → Event → Type 0
  MayLackSig event whole = (event ≡ whole) ⊎ (event ≡ record whole { sig = 0 })

  -- One of the events that the store finds for the filter, readable, and sent with its signature or
  -- without.
  abbrev pub Sent : Instance → Filter → ℕ → Event → Type 0
  Sent i filter pubkey event =
      (stored : Event) × IsIn stored (query_events (events_in i) filter 1000)
      × Readable i pubkey stored
      × MayLackSig event stored

  -- Either the reader asked for invites and may invite, and this is the event made for it, or a
  -- readable event of the store.
  abbrev pub Served : Instance → Filter → String → ℕ → Event → Type 0
  Served i filter claim pubkey event =
      ((contains filter.kinds relay_invite ≡ true)
        × (can_invite (config_in i) pubkey ≡ true)
        × MayLackSig event (generate_invite_event claim pubkey (events_in i)).0)
      ⊎ Sent (generated i filter claim pubkey).1 filter pubkey event

  -- The signature is the only thing that `StripSignature` may take away.
  strip_signature-cases :
      (i : Instance) (authed : Option ℕ) (event : Event)
      → MayLackSig (strip_signature i authed event) event
  unfolding strip_signature
  strip_signature-cases i authed event =
      either
        ((config_in i).policy.strip_signatures && not (can_manage (config_in i) (or_else 0 authed)))
    where
      either : (b : Bool) → MayLackSig (if b then zero_sig event else event) event
      either true = inr refl
      either false = inl refl

  shown-Readable :
      (i : Instance) (pubkey : ℕ) (event : Event)
      → shown i pubkey event ≡ true
      → Readable i pubkey event
  unfolding shown
  shown-Readable i pubkey event h = record {
    no_invite = ground arith;
    not_internal = ground arith;
    not_write_only = ground arith;
    group_allows = λ g. ground arith;
  }

  -- What holds of an event before its signature is taken away.
  abbrev Unstripped : Instance → Filter → String → ℕ → Event → Type 0
  Unstripped i filter claim pubkey event =
      ((contains filter.kinds relay_invite ≡ true)
        × (can_invite (config_in i) pubkey ≡ true)
        × (event ≡ (generate_invite_event claim pubkey (events_in i)).0))
      ⊎ (let j = (generated i filter claim pubkey).1 in
          IsIn event (query_events (events_in j) filter 1000) × Readable j pubkey event)

  generated-Unstripped :
      (i : Instance) (filter : Filter) (claim : String) (pubkey : ℕ)
      → All (Unstripped i filter claim pubkey) (generated i filter claim pubkey).0
  generated-Unstripped i filter claim pubkey =
      made (contains filter.kinds relay_invite && can_invite (config_in i) pubkey)
        (λ h. (ground arith, ground arith))
    where
      event : Event × EventStore
      event = generate_invite_event claim pubkey (events_in i)

      made_if : Bool → Event × EventStore → List Event × Instance
      made_if b made = if b then (made.0 ∷ [], with_store i made.1) else ([], i)

      made :
          (b : Bool)
          → (b ≡ true
              → (contains filter.kinds relay_invite ≡ true)
                × (can_invite (config_in i) pubkey ≡ true))
          → All (Unstripped i filter claim pubkey) (made_if b event).0
      made true h = (inl ((h refl).0, (h refl).1, refl), tt)
      made false h = tt

  stripped-Served :
      (i : Instance) (filter : Filter) (claim : String) (authed : Option ℕ) (event : Event)
      → let pubkey = or_else 0 authed in
        Unstripped i filter claim pubkey event
        → Served i filter claim pubkey
            (strip_signature (generated i filter claim pubkey).1 authed event)
  stripped-Served i filter claim authed event (inl (asked, may, made)) = inl (
    asked,
    may,
    elim (strip_signature-cases j authed event) [
      | inl e ↦ inl (e ∙ made)
      | inr e ↦ inr (e ∙ ap (λ (d : Event). record d { sig = 0 }) made)
    ],
  )
    where
      j : Instance
      j = (generated i filter claim (or_else 0 authed)).1
  stripped-Served i filter claim authed event (inr (is, r)) =
      let j = (generated i filter claim (or_else 0 authed)).1 in
      inr (event, is, r, strip_signature-cases j authed event)

  -- An external client is sent an event only as an invite that it asked for and may make, or as one
  -- of the events that the store finds for its filter and that it may read: such an event is no
  -- invite and nothing internal, no join or leave request, and `CanRead` allows it if it belongs to a
  -- group. At most the signature of the invite or of the stored event is missing.
  pub query_stored-Served :
      (i : Instance) (authed : Option ℕ) (claim : String) (filter : Filter)
      → All (Served i filter claim (or_else 0 authed)) (query_stored i false authed claim filter).0
  unfolding query_stored
  query_stored-Served i authed claim filter =
      let pubkey = or_else 0 authed in
      let made = generated i filter claim pubkey in
      let found = query_events (events_in made.1) filter 1000 in
      All-map (Unstripped i filter claim pubkey) (Served i filter claim pubkey)
        (strip_signature made.1 authed)
        (select (x.matches filter) made.0 ++ select (shown made.1 pubkey) found)
        (stripped-Served i filter claim authed)
        (All-append (Unstripped i filter claim pubkey) (select (x.matches filter) made.0)
          (select (shown made.1 pubkey) found)
          (select-All (Unstripped i filter claim pubkey) (x.matches filter) made.0
            (generated-Unstripped i filter claim pubkey))
          (All-select (Unstripped i filter claim pubkey) (shown made.1 pubkey) found
            (λ e is h. inr (is, shown-Readable made.1 pubkey e h))))

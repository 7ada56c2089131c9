-- ===== src/Tests/Sorting.antt =====
-- An order of the rows for the concrete relay: by insertion, newest first.
use unicity_relay.Prelude.{
  leb, if◌then◌else◌, string_eq, nat_eq, exists, ℕ, ◌+◌, ◌≤◌, ◌≡◌, refl, Bool, true, false, ◌||◌,
  List, [], ◌∷◌, arith,
}
use unicity_relay.Nostr.{Event, Descending}

unfoldable pub place : Event → List Event → List Event
place e [] = e ∷ []
place e (f ∷ fs) = if leb f.created_at e.created_at then e ∷ f ∷ fs else f ∷ place e fs

unfoldable pub newest_first : List Event → List Event
unfolding place
newest_first [] = []
newest_first (e ∷ es) = place e (newest_first es)

exists-place :
    (p : Event → Bool) (e : Event) (es : List Event) → exists p (place e es) ≡ (p e || exists p es)
unfolding place exists
exists-place p e [] = refl
exists-place p e (f ∷ fs) = ground (arith, exists-place p e fs)

pub exists-newest_first :
    (p : Event → Bool) (es : List Event) → exists p (newest_first es) ≡ exists p es
unfolding newest_first exists
exists-newest_first p [] = refl
exists-newest_first p (e ∷ es) =
    ground (arith, exists-place p e (newest_first es), exists-newest_first p es)

-- A sorted list whose head is not newer than this.
abbrev Below : ℕ → List Event → Type 0
Below bound [] = Unit {0}
Below bound (e ∷ es) = (e.created_at ≤ bound) × Descending (e ∷ es)

Descending-Below : (e : Event) (es : List Event) → Descending (e ∷ es) → Below e.created_at es
Descending-Below e [] d = tt
Descending-Below e (f ∷ fs) d = d

Below-Descending : (e : Event) (es : List Event) → Below e.created_at es → Descending (e ∷ es)
Below-Descending e [] d = tt
Below-Descending e (f ∷ fs) d = d

Below-place :
    (bound : ℕ) (e : Event) (es : List Event)
    → e.created_at ≤ bound
    → Below bound es
    → Below bound (place e es)
unfolding place
Below-place bound e [] h b = (h, tt)
Below-place bound e (f ∷ fs) h (fits, sorted) =
    either (leb f.created_at e.created_at) (λ t. ground arith)
      (λ t.
        Below-Descending f (place e fs)
          (Below-place f.created_at e fs (ground arith) (Descending-Below f fs sorted)))
  where
    either :
        (b : Bool)
        → (b ≡ true → f.created_at ≤ e.created_at)
        → (b ≡ false → Descending (f ∷ place e fs))
        → Below bound (if b then e ∷ f ∷ fs else f ∷ place e fs)
    either true p q = (h, (p refl, sorted))
    either false p q = (fits, q refl)

-- Every list is below some bound.
Descending-place : (e : Event) (es : List Event) → Descending es → Descending (place e es)
unfolding place
Descending-place e [] d = tt
Descending-place e (f ∷ fs) d =
    unbound (place e (f ∷ fs))
      (Below-place (e.created_at + f.created_at) e (f ∷ fs) (omega arith) (omega arith, d))
  where
    unbound : (es : List Event) → Below (e.created_at + f.created_at) es → Descending es
    unbound [] b = tt
    unbound (g ∷ gs) b = b.1

pub Descending-newest_first : (es : List Event) → Descending (newest_first es)
unfolding newest_first
Descending-newest_first [] = tt
Descending-newest_first (e ∷ es) = Descending-place e (newest_first es) (Descending-newest_first es)

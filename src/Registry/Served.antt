-- ===== src/Registry/Served.antt =====
-- When each loaded instance gets the requests for its host, and when one file silences another: the
-- watcher of zooid/lib.go.
use unicity_relay.Prelude.{
  if◌then◌else◌, string_eq, nat_eq, ◌==◌, lookup, delete, lookup-delete_other, lookup-delete_same,
  String, ◌≡◌, refl, sym, ◌∙◌, subst, Bool, true, false, ◌||◌, Option, none, some, ◌∷◌,
}
use unicity_relay.Instance.State.{Instance}
use unicity_relay.Registry.{Registry, host_of, dispatch, load, FileEvent, unload, on_file_event}
use unicity_relay.Registry.Hosts.{unload_loaded}

-- Every loaded instance is the one that its host is dispatched to, and no two files have one host.
pub record IsServed (r : Registry) : Type 0 where
  pub is_dispatched :
      (filename : String) (i : Instance)
      → lookup r.instances_by_name filename ≡ some i
      → dispatch r (host_of i) ≡ some i
  pub apart :
      (filename other : String) (i j : Instance)
      → lookup r.instances_by_name filename ≡ some i
      → lookup r.instances_by_name other ≡ some j
      → host_of i ≡ host_of j
      → filename ≡ other

-- No other file has the host of the instance.
abbrev pub HasOwnHost : String → Option Instance → Registry → Type 0
HasOwnHost filename none r = Unit {0}
HasOwnHost filename (some i) r =
    (other : String) (j : Instance)
    → lookup r.instances_by_name other ≡ some j
    → host_of j ≡ host_of i
    → other ≡ filename

on_file_event-removed :
    (event : FileEvent) (made : Option Instance) (r : Registry)
    → event.is_remove ≡ true
    → on_file_event event made r ≡ unload event.name r
unfolding on_file_event
on_file_event-removed event made r removed =
    go event.is_write event.is_create event.is_remove removed
  where
    go :
        (w c d : Bool)
        → d ≡ true
        → (if w || (c || d)
            then (if d then unload event.name r else load event.name made (unload event.name r))
            else r)
          ≡ unload event.name r
    go w c false e = absurd cc
    go true c true e = refl
    go false true true e = refl
    go false false true e = refl

-- Two files are loaded and have one host. When either file is removed, the host is dispatched to
-- nothing, though the instance of the other file is still loaded, and only the one of the removed
-- file has been cleaned up.
pub on_file_event_same_host :
    (event : FileEvent) (made : Option Instance) (r : Registry) (other : String) (i j : Instance)
    → event.is_remove ≡ true
    → lookup r.instances_by_name event.name ≡ some i
    → lookup r.instances_by_name other ≡ some j
    → (event.name == other) ≡ false
    → host_of i ≡ host_of j
    → let after = on_file_event event made r in
      (dispatch after (host_of j) ≡ none)
      × (lookup after.instances_by_name other ≡ some j)
      × (after.cleaned ≡ i ∷ r.cleaned)
unfolding on_file_event dispatch
on_file_event_same_host event made r other i j removed loaded stays apart same =
    subst
      (λ (s : Registry).
        (lookup s.instances_by_host (host_of j) ≡ none)
        × (lookup s.instances_by_name other ≡ some j)
        × (s.cleaned ≡ i ∷ r.cleaned))
      (sym (on_file_event-removed event made r removed ∙ unload_loaded event.name r i loaded))
      (
        subst (λ (h : String). lookup (delete (host_of i) r.instances_by_host) h ≡ none) same
            (lookup-delete_same (host_of i) r.instances_by_host),
        lookup-delete_other event.name other r.instances_by_name apart ∙ stays,
        refl,
      )

-- ===== src/Registry/Hosts.antt =====
-- Which instance a host is dispatched to, after any run of zooid/lib.go.
use mathlib.Core.Option.{some-injective, none-ne-some}
use mathlib.Core.Option.{some-injective, none-ne-some}
use unicity_relay.Prelude.{
  if◌then◌else◌, Bool-cases, Option-cases, string_eq, nat_eq, ◌==◌, ==_iff, exists, Map, lookup,
  insert, delete, lookup-insert, lookup-insert_same, lookup-insert_other, lookup-delete_other,
  lookup-delete_same, lookup-insert_cases, lookup-delete_found, String, ◌≡◌, refl, sym, ap, ◌∙◌,
  inl, inr, Bool, true, false, ◌||◌, Option, none, some, List, [], ◌∷◌, arith,
}
use unicity_relay.Instance.State.{Instance}
use unicity_relay.Registry.{
  Registry, host_of, dispatch, DirEntry, load, load_entries, merge, no_instances, start, FileEvent,
  unload, on_file_event,
}

-- A name stands in the directory once.
abbrev pub Distinct : List DirEntry → Type 0
Distinct [] = Unit {0}
Distinct (entry ∷ entries) =
    (exists (λ (other : DirEntry). other.name == entry.name) entries ≡ false) × Distinct entries

-- What a host is dispatched to has this host and is loaded under some file name.
pub record IsSound (r : Registry) : Type 0 where
  pub has_host :
      (hostname : String) (i : Instance) → dispatch r hostname ≡ some i → host_of i ≡ hostname
  pub is_loaded :
      (hostname : String) (i : Instance)
      → dispatch r hostname ≡ some i
      → (filename : String) × (lookup r.instances_by_name filename ≡ some i)

load-IsSound :
    (filename : String) (made : Option Instance) (r : Registry)
    → lookup r.instances_by_name filename ≡ none
    → IsSound r
    → IsSound (load filename made r)
unfolding load dispatch
load-IsSound filename none r fresh sound = sound
load-IsSound filename (some j) r fresh sound = record {
  has_host = λ hostname i found.
      elim (lookup-insert_cases (host_of j) hostname j i r.instances_by_host found) [
        | inl (same, is) ↦ sym (ap host_of is) ∙ same
        | inr (other, before) ↦ sound.has_host hostname i before
      ];
  is_loaded = λ hostname i found.
      elim (lookup-insert_cases (host_of j) hostname j i r.instances_by_host found) [
        | inl (same, is) ↦
            (filename, lookup-insert_same filename j r.instances_by_name ∙ ap some is)
        | inr (other, before) ↦
            let (name, named) = sound.is_loaded hostname i before in (name, kept name i named)
      ];
}
  where
    kept :
        (name : String) (i : Instance)
        → lookup r.instances_by_name name ≡ some i
        → lookup (insert filename j r.instances_by_name) name ≡ some i
    kept name i named = elim (Bool-cases (filename == name)) [
      | inl same ↦ absurd (
          none-ne-some i (
            sym fresh
            ∙ (ap (λ n. lookup r.instances_by_name n) ((==_iff filename name).0 same) ∙ named)))
      | inr other ↦ lookup-insert_other filename name j r.instances_by_name other ∙ named
    ]

-- What is left when a file that is loaded is taken out.
pub unload_loaded :
    (filename : String) (r : Registry) (i : Instance)
    → lookup r.instances_by_name filename ≡ some i
    → unload filename r ≡ record {
      instances_by_host = delete (host_of i) r.instances_by_host;
      instances_by_name = delete filename r.instances_by_name;
      cleaned = i ∷ r.cleaned;
    }
unfolding unload delete
unload_loaded filename r i e = rw (e, unload) refl

pub unload_other :
    (filename : String) (r : Registry)
    → lookup r.instances_by_name filename ≡ none
    → unload filename r ≡ r
unfolding unload
unload_other filename r e = rw (e, unload) refl

pub unload-fresh :
    (filename : String) (r : Registry)
    → lookup (unload filename r).instances_by_name filename ≡ none
unload-fresh filename r = elim (Option-cases (lookup r.instances_by_name filename)) [
  | inl e ↦ rw (unload_other filename r e) e
  | inr (i, e) ↦ rw (unload_loaded filename r i e) (lookup-delete_same filename r.instances_by_name)
]

unload-IsSound : (filename : String) (r : Registry) → IsSound r → IsSound (unload filename r)
unfolding dispatch
unload-IsSound filename r sound = elim (Option-cases (lookup r.instances_by_name filename)) [
  | inl e ↦ rw (unload_other filename r e) sound
  | inr (j, e) ↦ rw (unload_loaded filename r j e) (record {
    has_host = λ hostname i found.
        sound.has_host hostname i
          (lookup-delete_found (host_of j) hostname i r.instances_by_host found).1;
    is_loaded = λ hostname i found.
        let (other, before) =
          lookup-delete_found (host_of j) hostname i r.instances_by_host found in
        let (name, named) = sound.is_loaded hostname i before in
        (
          name,
          lookup-delete_other filename name r.instances_by_name
                (differs j e hostname i other name named (sound.has_host hostname i before))
              ∙ named,
        );
  })
]
  where
    -- The file that is taken out holds another instance: the hosts differ.
    differs :
        (j : Instance)
        → lookup r.instances_by_name filename ≡ some j
        → (hostname : String) (i : Instance) → (host_of j == hostname) ≡ false
        → (name : String) → lookup r.instances_by_name name ≡ some i
        → host_of i ≡ hostname
        → (filename == name) ≡ false
    differs j e hostname i other name named has_host = elim (Bool-cases (filename == name)) [
      | inr is ↦ is
      | inl same ↦
          let is = some-injective j i (
            sym e
            ∙ (ap (λ n. lookup r.instances_by_name n) ((==_iff filename name).0 same) ∙ named)) in
          absurd (ground (arith, other, (==_iff (host_of j) hostname).1 (ap host_of is ∙ has_host)))
    ]

on_file_event-IsSound :
    (event : FileEvent) (made : Option Instance) (r : Registry)
    → IsSound r
    → IsSound (on_file_event event made r)
unfolding on_file_event
on_file_event-IsSound event made r sound =
    go (event.is_write || (event.is_create || event.is_remove)) event.is_remove
  where
    gone : IsSound (unload event.name r)
    gone = unload-IsSound event.name r sound

    go :
        (seen removed : Bool)
        → IsSound (
            if seen
            then (if removed
                then unload event.name r
                else load event.name made (unload event.name r))
            else r)
    go false removed = sound
    go true true = gone
    go true false =
        load-IsSound event.name made (unload event.name r) (unload-fresh event.name r) gone

-- No file of the directory is loaded.
abbrev Unloaded : List DirEntry → Registry → Type 0
Unloaded [] r = Unit {0}
Unloaded (entry ∷ entries) r = (lookup r.instances_by_name entry.name ≡ none) × Unloaded entries r

load-Unloaded :
    (filename : String) (made : Option Instance) (entries : List DirEntry) (r : Registry)
    → exists (λ (other : DirEntry). other.name == filename) entries ≡ false
    → Unloaded entries r
    → Unloaded entries (load filename made r)
unfolding load exists
load-Unloaded filename none entries r other free = free
load-Unloaded filename (some i) [] r other free = tt
load-Unloaded filename (some i) (entry ∷ entries) r other free = (
  lookup-insert_other filename entry.name i r.instances_by_name (
        ground
          (arith, string_eq.beq_iff entry.name filename, string_eq.beq_iff filename entry.name))
      ∙ free.0,
  load-Unloaded filename (some i) entries r (ground arith) free.1,
)

load_entries-IsSound :
    (entries : List DirEntry) (r : Registry)
    → Distinct entries
    → Unloaded entries r
    → IsSound r
    → IsSound (load_entries entries r)
unfolding load_entries
load_entries-IsSound [] r distinct free sound = sound
load_entries-IsSound (entry ∷ entries) r distinct free sound =
    go entry.is_dir (load_entries-IsSound entries r distinct.1 free.1 sound) (
      load_entries-IsSound entries (load entry.name entry.made r) distinct.1
        (load-Unloaded entry.name entry.made entries r distinct.0 free.1)
        (load-IsSound entry.name entry.made r free.0 sound))
  where
    go :
        (is_dir : Bool)
        → IsSound (load_entries entries r)
        → IsSound (load_entries entries (load entry.name entry.made r))
        → IsSound (load_entries entries (if is_dir then r else load entry.name entry.made r))
    go true without with = without
    go false without with = with

lookup-merge : (m : Map String Instance) (k : String) → lookup (merge m []) k ≡ lookup m k
unfolding merge lookup
lookup-merge [] k = refl
lookup-merge ((j, i) ∷ m) k = rw (lookup-insert, lookup-merge m k) refl

none-Unloaded : (entries : List DirEntry) → Unloaded entries no_instances
unfolding lookup
none-Unloaded [] = tt
none-Unloaded (entry ∷ entries) = (refl, none-Unloaded entries)

start-IsSound : (entries : List DirEntry) → Distinct entries → IsSound (start entries)
unfolding start dispatch
start-IsSound entries distinct = record {
  has_host = λ hostname i found.
      built.has_host hostname i
        (sym (lookup-merge (load_entries entries no_instances).instances_by_host hostname) ∙ found);
  is_loaded = λ hostname i found.
      let (name, named) = built.is_loaded hostname i (
        sym (lookup-merge (load_entries entries no_instances).instances_by_host hostname)
        ∙ found) in
      (name, lookup-merge (load_entries entries no_instances).instances_by_name name ∙ named);
}
  where
    built : IsSound (load_entries entries no_instances)
    built = load_entries-IsSound entries no_instances distinct (none-Unloaded entries) (record {
      has_host = λ hostname i found. unfold lookup in absurd (none-ne-some i found);
      is_loaded = λ hostname i found. unfold lookup in absurd (none-ne-some i found);
    })

-- The registries of a process: the start, and then any events of the watcher.
pub data Reach : Registry → Type 0 where
  started : (entries : List DirEntry) → Distinct entries → Reach (start entries)
  watched :
      {r : Registry} (event : FileEvent) (made : Option Instance)
      → Reach r
      → Reach (on_file_event event made r)

-- At any time of a process, what a host is dispatched to has this host in its configuration and is
-- loaded under some file name: an instance that has been unloaded gets no requests.
pub Reach-IsSound : {r : Registry} → Reach r → IsSound r
Reach-IsSound (started entries distinct) = start-IsSound entries distinct
Reach-IsSound (watched {r} event made reach) =
    on_file_event-IsSound event made r (Reach-IsSound reach)

-- ===== src/Registry.antt =====
-- zooid/lib.go: the instances that are loaded, by host and by file name, and the watcher of the
-- configuration directory. What `MakeInstance` returns for a file at the time of the call is an
-- argument: `none` is an error.
pub mod Hosts
pub mod Served
use unicity_relay.Prelude.{
  if◌then◌else◌, string_eq, nat_eq, Map, lookup, insert, delete, String, Bool, ◌||◌, Option, none,
  some, List, [], ◌∷◌,
}
use unicity_relay.Instance.State.{Instance, config_in}

pub record Registry : Type 0 where
  pub instances_by_host : Map String Instance
  pub instances_by_name : Map String Instance
  -- the instances that `Cleanup` has been called on
  pub cleaned : List Instance

abbrev pub host_of : Instance → String
host_of instance_ = (config_in instance_).host

unfoldable pub dispatch : Registry → String → Option Instance
dispatch r hostname = lookup r.instances_by_host hostname

-- `os.ReadDir` lists a name once.
pub record DirEntry : Type 0 where
  pub name : String
  pub is_dir : Bool
  pub made : Option Instance

-- The two stores of an instance that has been made.
unfoldable pub load : String → Option Instance → Registry → Registry
load filename none r = r
load filename (some instance_) r = record r {
  instances_by_host = insert (host_of instance_) instance_ r.instances_by_host;
  instances_by_name = insert filename instance_ r.instances_by_name;
}

-- The loop over the directory: `newByHost` and `newByName`.
unfoldable pub load_entries : List DirEntry → Registry → Registry
unfolding load
load_entries [] r = r
load_entries (entry ∷ entries) r =
    load_entries entries (if entry.is_dir then r else load entry.name entry.made r)

-- `for k, v := range m { into[k] = v }`: the keys of `m` differ, so its order is indifferent.
unfoldable pub merge : Map String Instance → Map String Instance → Map String Instance
merge [] into = into
merge ((k, v) ∷ m) into = insert k v (merge m into)

abbrev pub no_instances : Registry
no_instances = record { instances_by_host = []; instances_by_name = []; cleaned = [] }

-- `Start`, up to the watcher: the maps are built apart and merged into the ones of the process.
unfoldable pub start : List DirEntry → Registry
unfolding load_entries merge
start entries =
    let built = load_entries entries no_instances in
    record no_instances {
      instances_by_host = merge built.instances_by_host [];
      instances_by_name = merge built.instances_by_name [];
    }

-- An event of the watcher; `name` is the base name of the path.
pub record FileEvent : Type 0 where
  pub name : String
  pub is_write : Bool
  pub is_create : Bool
  pub is_remove : Bool

unfoldable pub unload : String → Registry → Registry
unload filename r = elim (lookup r.instances_by_name filename) [
  | none ↦ r
  | some instance_ ↦ record {
    instances_by_host = delete (host_of instance_) r.instances_by_host;
    instances_by_name = delete filename r.instances_by_name;
    cleaned = instance_ ∷ r.cleaned;
  }
]

-- One turn of the loop with an event; `made` is the result of `MakeInstance`, if it is called.
unfoldable pub on_file_event : FileEvent → Option Instance → Registry → Registry
unfolding load unload
on_file_event event made r =
    if event.is_write || (event.is_create || event.is_remove)
    then (let unloaded = unload event.name r in
        if event.is_remove then unloaded else load event.name made unloaded)
    else r

-- ===== src/Examples/Model.antt =====
-- model/: a store with one cluster.
use go_matter.Base.{◌≡◌, refl, [], ◌∷◌, ◌==◌, if◌then◌else◌, none, some, err}
use go_matter.Model.{DataStore, read_attribute, endpoint_not_found}

abbrev store_of_one : DataStore
store_of_one = record {
  node = record {
    endpoints = λ e.
        if e == 1
        then some (record {
          id = 1;
          device_types = 0x100 ∷ [];
          clusters = λ c.
              if c == 6
              then some (record { id = 6; attributes = λ a. none; commands = λ a. none })
              else none;
        })
        else none;
  };
}

missing_endpoint : read_attribute store_of_one 2 6 0 ≡ err endpoint_not_found
unfolding read_attribute
missing_endpoint = refl

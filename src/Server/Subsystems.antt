-- ===== src/Server/Subsystems.antt =====
-- Which handler a subsystem has.
use wish.Base.{Bytes, List, [], ◌∷◌, Option, none, some, bytes_eq, if◌then◌else◌, ◌≡◌, refl}
use wish.Session.{Handler}
use wish.Server.{Subsystems, Server, fine, ServerOption, or_empty, with_subsystem, apply_options}

module _ {S : Type 0} where
  -- The value of a key in the map.
  abbrev pub get : Bytes → Subsystems S → Option (Handler S)
  get key [] = none
  get key ((k, h) ∷ m) = if bytes_eq key k then some h else get key m

  -- The last of the pairs with the key, or else what there was.
  abbrev pub last_of : Bytes → List (Bytes × Handler S) → Option (Handler S) → Option (Handler S)
  last_of key [] o = o
  last_of key ((k, h) ∷ kvs) o = last_of key kvs (if bytes_eq key k then some h else o)

module _ {S D K : Type 0} where
  abbrev pub subsystem_options : List (Bytes × Handler S) → List (ServerOption S D K)
  subsystem_options [] = []
  subsystem_options ((k, h) ∷ kvs) = with_subsystem k h ∷ subsystem_options kvs

  abbrev pub handler_of : Bytes → Server S D K → Option (Handler S)
  handler_of key s = get key (or_empty s.subsystem_handlers)

  -- Behind a list of `WithSubsystem` options, each name has the handler that was set last for it, and
  -- any other name the one that it had; the disk is not touched.
  pub apply_options-subsystem_options :
      (key : Bytes) (kvs : List (Bytes × Handler S)) (s : Server S D K) (d : D)
      → (s' : Server S D K) × (apply_options (subsystem_options kvs) s d ≡ fine s' d)
        × (handler_of key s' ≡ last_of key kvs (handler_of key s))
  unfolding apply_options with_subsystem
  apply_options-subsystem_options key [] s d = (s, refl, refl)
  apply_options-subsystem_options key ((k, h) ∷ kvs) s d =
      apply_options-subsystem_options key kvs
        (record s { subsystem_handlers = some ((k, h) ∷ or_empty s.subsystem_handlers) }) d

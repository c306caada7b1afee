-- ===== src/Lifetime/Tests.antt =====
-- The objects of `main` in examples/kapuad/main.cpp, made and deleted.
use kapua.Prelude.{ℕ, ◌≡◌, refl, true, false, List, [], ◌∷◌, none, map, elem}
use kapua.Prelude.Results.{ok}
use kapua.Logger.{debug_level, unknown_level, io_stream_logger}
use kapua.UdpNetwork.Service.{Service}
use kapua.Lifetime.{Heap}
use kapua.Lifetime.Objects.{
  Class, network, core, rsa, config, make_all, destroy_all, is_freed, became,
}
use kapua.Lifetime.Nested.{destroy_all-make_all}

abbrev memory : Service
memory = record { is_running = false; port = 0; socket = none; closed = []; has_thread = false }

-- The network, the last made first.
abbrev main_objects : List Class
main_objects = network memory ∷ core ∷ rsa ∷ config ∷ []

abbrev stdlog : Heap
stdlog = record { loggers = io_stream_logger debug_level ∷ []; deleted = []; lines = [] }

-- The logger of the core, which is the third, stays.
who_frees :
    map
      (λ a. is_freed a (map (became (λ s. s)) (make_all unknown_level main_objects stdlog).0))
      (1 ∷ 2 ∷ 3 ∷ 4 ∷ [])
    ≡ true ∷ true ∷ false ∷ true ∷ []
unfolding make_all
who_frees = refl

destroy_all-make_all_example :
    (after : Heap) × (destroy_all []
        (map (became (λ s. s)) (make_all unknown_level main_objects stdlog).0)
        (make_all unknown_level main_objects stdlog).1
      ≡ ok after)
    × ((a : ℕ)
        → elem a after.deleted
          ≡ is_freed a (map (became (λ s. s)) (make_all unknown_level main_objects stdlog).0))
destroy_all-make_all_example =
    destroy_all-make_all [] unknown_level debug_level (λ s. s) main_objects

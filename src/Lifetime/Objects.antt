-- ===== src/Lifetime/Objects.antt =====
-- The objects of the program that have a logger of their own, by class, and many of them.
use kapua.Prelude.{ℕ, Bool, true, false, ◌&&◌, ◌||◌, List, [], ◌∷◌, ◌==◌}
use kapua.Prelude.Results.{Result, ok, ◌>>=◌}
use kapua.Logger.{LogLevel}
use kapua.UdpNetwork.Service.{Service}
use kapua.Lifetime.{
  Heap, new_settings, delete_settings, new_memcached_server, delete_memcached_server,
  new_config_logger, delete_config, new_rsa, delete_rsa, new_core, delete_core, new_network,
  delete_network,
}

-- The classes with a logger of their own; a network has its state with it.
pub data Class : Type 0 where
  settings memcached_server config rsa core : Class
  network : Service → Class

-- An object of each class, with the logger at 0 for the one that it is given, and its own logger.
unfoldable pub make : Class → LogLevel → Heap → (Class × ℕ) × Heap
unfolding new_settings new_memcached_server new_config_logger new_rsa new_core new_network
make settings level h = let (a, h') = new_settings 0 level h in ((settings, a), h')
make memcached_server level h =
    let (a, h') = new_memcached_server 0 level h in ((memcached_server, a), h')
make config level h = let (a, h') = new_config_logger 0 level h in ((config, a), h')
make rsa level h = let (a, h') = new_rsa 0 level h in ((rsa, a), h')
make core level h = let (a, h') = new_core 0 level h in ((core, a), h')
make (network memory) level h =
    let (made, h') = new_network 0 level memory h in ((network made.1, made.0), h')

unfoldable pub destroy : List ℕ → Class × ℕ → Heap → Result Heap
unfolding delete_settings delete_memcached_server delete_config delete_rsa delete_core
    delete_network
destroy time (settings, a) h = delete_settings a h
destroy time (memcached_server, a) h = delete_memcached_server a h
destroy time (config, a) h = delete_config a h
destroy time (rsa, a) h = delete_rsa a h
destroy time (core, a) h = delete_core time a h
destroy time (network s, a) h = do (s', h') ← delete_network a s h; ok h'

-- The objects of classes, the last made first.
unfoldable pub make_all : LogLevel → List Class → Heap → List (Class × ℕ) × Heap
unfolding make
make_all level [] h = ([], h)
make_all level (c ∷ cs) h =
    let (objects, h') = make_all level cs h in
    let (object, h'') = make c level h' in (object ∷ objects, h'')

unfoldable pub destroy_all : List ℕ → List (Class × ℕ) → Heap → Result Heap
unfolding destroy
destroy_all time [] h = ok h
destroy_all time (x ∷ xs) h = do h' ← destroy time x h; destroy_all time xs h'

-- Whether an object deletes its logger.
abbrev pub frees : Class → Bool
frees core = false
frees _ = true

abbrev pub is_freed : ℕ → List (Class × ℕ) → Bool
is_freed a [] = false
is_freed a ((c, b) ∷ xs) = ((b == a) && frees c) || is_freed a xs

-- What has become of an object when it is deleted: a network may have been started, and may have stopped.
abbrev pub became : (Service → Service) → Class × ℕ → Class × ℕ
became during (network s, a) = (network (during s), a)
became during (settings, a) = (settings, a)
became during (memcached_server, a) = (memcached_server, a)
became during (config, a) = (config, a)
became during (rsa, a) = (rsa, a)
became during (core, a) = (core, a)

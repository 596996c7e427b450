-- ===== src/Cache/Tests.antt =====
-- A cache of two segments, and a server.
use tracedb.Base.{ℕ, codes, ◌≡◌, List, [], ◌∷◌, take, find_last}
use tracedb.Base.Map
use tracedb.Log.Commit.{zero_checksum}
use tracedb.Cache.Lru.{
  ObjectRef, SegmentServer, at_least_one, new_cache, insert_objects, served, publish_all,
}
use tracedb.Cache.Window.{latest, insert_objects-latest}
use tracedb.Cache.Served.{fits, last_or, served-publish_all}

abbrev object_of : List ℕ → List ℕ → ObjectRef
object_of path checksum = record { path = path; checksum = checksum }

-- The first path again at the end, so that the second falls out.
abbrev objects : List ObjectRef
objects =
    object_of (codes "a") (1 ∷ [])
    ∷ object_of (codes "b") (2 ∷ [])
    ∷ object_of (codes "c") (3 ∷ [])
    ∷ object_of (codes "a") zero_checksum
    ∷ []

abbrev new_server : SegmentServer
new_server = record { objects = Map.empty }

insert_objects-latest_example :
    (insert_objects objects (new_cache 2)).entries ≡ take (at_least_one 2) (latest objects)
insert_objects-latest_example = insert_objects-latest 2 objects

served-publish_all_example :
    served (codes "a") (publish_all objects new_server)
    ≡ last_or (find_last (fits (codes "a")) objects) (served (codes "a") new_server)
served-publish_all_example = served-publish_all (codes "a") objects new_server

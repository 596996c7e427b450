-- ===== src/Cache/Served.antt =====
-- crates/tracedb-segment-server/src/lib.rs: what the server gives.
use tracedb.Base.{
  ◌≡◌, refl, arith, Text, text_eq, text_eq_iff, Bool, true, false, not, ◌&&◌, Option, none, some,
  List, [], ◌∷◌, find_last, Bool-cases, Option-cases, inl, inr, if◌then◌else◌,
}
use tracedb.Base.Map
use tracedb.Log.Commit.{zero_checksum}
use tracedb.Cache.Lru.{ObjectRef, SegmentServer, stands_at, publish, served, publish_all}

-- Stands at the path and has a digest.
abbrev pub fits : Text → ObjectRef → Bool
fits path object = not (text_eq object.checksum zero_checksum) && stands_at path object

-- The last that fits, or else what was there.
abbrev pub last_or : Option ObjectRef → Option ObjectRef → Option ObjectRef
last_or (some object) before = some object
last_or none before = before

served-publish :
    (path : Text) (object : ObjectRef) (server : SegmentServer)
    → served path (publish object server).1
      ≡ (if fits path object then some object else served path server)
unfolding served publish
served-publish path object server = elim (Bool-cases (text_eq object.checksum zero_checksum)) [
  | inl empty ↦ rw empty refl
  | inr digest ↦
      rw (digest, Map.get-insert path object.path object server.objects)
        (ground (arith, text_eq_iff path object.path, text_eq_iff object.path path))
]

last_or-first :
    (path : Text) (object : ObjectRef) (objects : List ObjectRef) (before : Option ObjectRef)
    → last_or (find_last (fits path) objects) (if fits path object then some object else before)
      ≡ last_or (find_last (fits path) (object ∷ objects)) before
last_or-first path object objects before = elim (Option-cases (find_last (fits path) objects)) [
  | inl none_later ↦ rw none_later (chosen (fits path object))
  | inr (later, found) ↦ rw found refl
]
  where
    chosen :
        (b : Bool)
        → last_or none (if b then some object else before)
          ≡ last_or (if b then some object else none) before
    chosen true = refl
    chosen false = refl

-- After any publications the server gives at a path the last of those that were published there with a
-- digest that is not zero, and without one what it gave before.
pub served-publish_all :
    (path : Text) (objects : List ObjectRef) (server : SegmentServer)
    → served path (publish_all objects server)
      ≡ last_or (find_last (fits path) objects) (served path server)
served-publish_all path [] server = refl
served-publish_all path (object ∷ objects) server =
    rw
      (served-publish_all path objects (publish object server).1, served-publish path object server)
      (last_or-first path object objects (served path server))

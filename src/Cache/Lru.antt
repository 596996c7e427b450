-- ===== src/Cache/Lru.antt =====
-- crates/tracedb-cache/src/lib.rs and crates/tracedb-segment-server/src/lib.rs: the cache of
-- references to segments, and the server of published ones.
use tracedb.Base.{
  ℕ, zero, suc, ltb, Text, text_eq, codes, Bool, not, Option, List, [], ◌∷◌, length, keep, find,
  if◌then◌else◌, Result, ok, err,
}
use tracedb.Base.Map
use tracedb.Base.Map.{Map}
use tracedb.Log.Commit.{zero_checksum}

pub record ObjectRef : Type 0 where
  pub path : Text
  pub checksum : List ℕ

pub record SegmentCache : Type 0 where
  pub capacity : ℕ
  pub entries : List ObjectRef

-- `capacity.max(1)`.
abbrev pub at_least_one : ℕ → ℕ
at_least_one zero = 1
at_least_one n = n

-- `SegmentCache::new`.
unfoldable pub new_cache : ℕ → SegmentCache
new_cache capacity = record { capacity = at_least_one capacity; entries = [] }

abbrev pub stands_at : Text → ObjectRef → Bool
stands_at path entry = text_eq entry.path path

abbrev pub pop_back : List ObjectRef → List ObjectRef
pop_back [] = []
pop_back (x ∷ []) = []
pop_back (x ∷ y ∷ xs) = x ∷ pop_back (y ∷ xs)

-- `while self.entries.len() > self.capacity`; each round drops an entry.
unfoldable pub shrink : ℕ → ℕ → List ObjectRef → List ObjectRef
shrink zero capacity entries = entries
shrink (suc fuel) capacity entries =
    let rest = shrink fuel capacity (pop_back entries) in
    if ltb capacity (length entries) then rest else entries

-- `SegmentCache::insert`.
unfoldable pub insert_object : ObjectRef → SegmentCache → SegmentCache
insert_object object cache =
    let entries = object ∷ keep (λ entry. not (stands_at object.path entry)) cache.entries in
    record cache { entries = shrink (length entries) cache.capacity entries }

-- `SegmentCache::get`.
unfoldable pub cached_object : Text → SegmentCache → Option ObjectRef
cached_object path cache = find (stands_at path) cache.entries

-- The insertions one after the other.
abbrev pub insert_objects : List ObjectRef → SegmentCache → SegmentCache
insert_objects [] cache = cache
insert_objects (object ∷ objects) cache = insert_objects objects (insert_object object cache)

pub record SegmentServer : Type 0 where
  pub objects : Map ObjectRef

-- `SegmentServer::publish`: the result and the server that is left.
unfoldable pub publish : ObjectRef → SegmentServer → Result Text Unit × SegmentServer
publish object server =
    if text_eq object.checksum zero_checksum
    then (err (codes "object checksum cannot be zero"), server)
    else (ok tt, record server { objects = Map.insert object.path object server.objects })

-- `SegmentServer::get`.
unfoldable pub served : Text → SegmentServer → Option ObjectRef
served path server = Map.get path server.objects

-- The publications one after the other.
abbrev pub publish_all : List ObjectRef → SegmentServer → SegmentServer
publish_all [] server = server
publish_all (object ∷ objects) server = publish_all objects (publish object server).1

-- ===== src/Query/Paging.antt =====
-- crates/tracedb-query/src/lib.rs: `scan_as` page after page.
use tracedb.Base.{
  ℕ, zero, suc, ◌+◌, ◌-◌, ◌*◌, ◌<◌, ◌≤◌, ◌^◌, min, Text, text_eq_refl, Bool-cases, Option-cases,
  inl, inr, true, false, Option, some, none, List, [], ◌∷◌, ◌++◌, ltb, if◌then◌else◌, take, drop,
  length, drop-append, length-append, take_all, is_some, Result, ok, ◌>>=◌, ◌≡◌, ◌∙◌, refl, sym, ap,
  arith,
}
use mathlib.Core.List.{append_assoc}
use tracedb.Core.Error.{TraceDbError}
use tracedb.Core.Types.{Epoch, TableSchema}
use tracedb.Policy.Oracle.{ActorContext}
use tracedb.Store.Replay.{known_table, find_table}
use tracedb.Engine.State.{TraceDb}
use tracedb.Query.Cursor.{
  CursorHost, CursorScope, RecordScanRequest, cursor_ttl_secs, cursor_scope_for_scan,
  resolve_cursor_state, encode_next_cursor,
}
use tracedb.Query.Token.{Signs, encode_next_cursor-resolves}
use tracedb.Query.Reads.{RecordOutput, rows, scan_as, page_limit, page_at, validate_actor_tenant}

-- A client asks for a page at a time, of the database as it then is.
pub record Visit (V : Type 0) : Type 0 where
  pub db : TraceDb V
  pub now : ℕ

module _ {V : Type 0} (host : CursorHost) (actor : ActorContext) where
  -- The records of the pages, each of which is asked for with the cursor of the one before, and the
  -- cursor that is left.
  unfoldable pub read_pages :
      RecordScanRequest → List (Visit V) → Result TraceDbError (List (RecordOutput V) × Option Text)
  read_pages request [] = ok ([], request.cursor)
  read_pages request (visit ∷ visits) = do
    page ← scan_as host visit.db actor request visit.now
    elim page.next_cursor [
      | none ↦ ok (page.records, none)
      | some token ↦ do
        rest ← read_pages (record request { cursor = some token }) visits
        ok (page.records ++ rest.0, rest.1)
    ]

  -- The table is there, and its records at the epoch are those.
  abbrev pub Shows : Text → Text → Epoch → List (RecordOutput V) → List (Visit V) → Type 0
  Shows table tenant_id epoch records [] = Unit
  Shows table tenant_id epoch records (visit ∷ visits) =
      (is_some (find_table table visit.db.manifest.schemas) ≡ true)
      × (rows visit.db table tenant_id epoch ≡ records)
      × Shows table tenant_id epoch records visits

  -- Each page is asked for while the cursor of the one before is valid.
  abbrev pub InTime : ℕ → List (Visit V) → Type 0
  InTime before [] = Unit
  InTime before (visit ∷ visits) =
      (visit.now ≤ min (before + cursor_ttl_secs host) (2 ^ 64 - 1)) × InTime visit.now visits

take-append-drop {ℓ} : {A : Type ℓ} (n : ℕ) (xs : List A) → take n xs ++ drop n xs ≡ xs
take-append-drop zero xs = refl
take-append-drop (suc n) [] = refl
take-append-drop (suc n) (x ∷ xs) = ap (λ ys. x ∷ ys) (take-append-drop n xs)

length-drop {ℓ} : {A : Type ℓ} (n : ℕ) (xs : List A) → length (drop n xs) ≡ length xs - n
length-drop zero xs = omega arith
length-drop (suc n) [] = omega arith
length-drop (suc n) (x ∷ xs) = omega (arith, length-drop n xs)

-- One more than a page tells whether there is more.
take-take {ℓ} : {A : Type ℓ} (n : ℕ) (xs : List A) → take n (take (suc n) xs) ≡ take n xs
take-take zero xs = refl
take-take (suc n) [] = refl
take-take (suc n) (x ∷ xs) = ap (λ ys. x ∷ ys) (take-take n xs)

length-take_more {ℓ} :
    {A : Type ℓ} (n : ℕ) (xs : List A) → ltb n (length (take (suc n) xs)) ≡ ltb n (length xs)
length-take_more zero [] = refl
length-take_more zero (x ∷ xs) = ground arith
length-take_more (suc n) [] = refl
length-take_more (suc n) (x ∷ xs) = ground (arith, length-take_more n xs)

module _ (host : CursorHost) (actor : ActorContext) (request : RecordScanRequest) where
  abbrev scope : CursorScope
  scope = cursor_scope_for_scan host actor request (page_limit request.limit)

  same_scope :
      (cursor : Option Text) (limit : ℕ)
      → cursor_scope_for_scan host actor (record request { cursor = cursor }) limit
        ≡ cursor_scope_for_scan host actor request limit
  unfolding cursor_scope_for_scan
  same_scope cursor limit = refl

  allowed :
      actor.tenant_id ≡ request.tenant_id → validate_actor_tenant actor request.tenant_id ≡ ok tt
  unfolding validate_actor_tenant
  allowed own = rw (own, text_eq_refl request.tenant_id) refl

  known :
      {V : Type 0} (db : TraceDb V)
      → is_some (find_table request.table db.manifest.schemas) ≡ true
      → (schema : TableSchema) × (known_table request.table db.manifest.schemas ≡ ok schema)
  unfolding known_table
  known db there = elim (Option-cases (find_table request.table db.manifest.schemas)) [
    | inl absent ↦ absurd (cc)
    | inr (schema, found) ↦ (schema, rw found refl)
  ]

-- A page is asked for by a cursor that leads to the epoch, and to the records that are left.
module _ {V : Type 0} (host : CursorHost) (actor : ActorContext) (request : RecordScanRequest)
    (epoch : Epoch) (own : actor.tenant_id ≡ request.tenant_id)
    (small : page_limit request.limit + 1 < 2 ^ 64) (visit : Visit V) (cursor : Option Text)
    (front left : List (RecordOutput V))
    (there : is_some (find_table request.table visit.db.manifest.schemas) ≡ true)
    (shown : rows visit.db request.table request.tenant_id epoch ≡ front ++ left)
    (resolved : resolve_cursor_state host
        (scope host actor request)
        cursor
        visit.db.manifest.latest_epoch
        visit.now
      ≡ ok (record { offset = length front; snapshot_epoch = epoch })) where
  page_is :
      page_at
        (length front)
        (page_limit request.limit)
        (rows visit.db request.table request.tenant_id epoch)
      ≡ take (suc (page_limit request.limit)) left
  page_is =
      let many : min (page_limit request.limit + 1) (2 ^ 64 - 1) ≡ suc (page_limit request.limit) =
        omega arith in
      rw (shown, drop-append (length front) front left refl) (rw many refl)

  scanned : scan_as host visit.db actor (record request { cursor = cursor }) visit.now ≡ (do
    next_cursor ←
        if ltb (page_limit request.limit) (length left)
        then (do
          token ←
              encode_next_cursor host
                (scope host actor request)
                (length front + length (take (page_limit request.limit) left))
                epoch
                visit.now
          ok (some token))
        else ok none
    ok (record {
      records = take (page_limit request.limit) left;
      returned_count = length (take (page_limit request.limit) left);
      next_cursor = next_cursor;
    }))
  unfolding scan_as
  scanned =
      rw (allowed host actor request own, (known host actor request visit.db there).1)
        (rw (same_scope host actor request cursor (page_limit request.limit)) (
          rw resolved (
            rw page_is (
              rw
                (
                  take-take (page_limit request.limit) left,
                  length-take_more (page_limit request.limit) left,
                )
                refl))))

  last_page :
      ltb (page_limit request.limit) (length left) ≡ false
      → scan_as host visit.db actor (record request { cursor = cursor }) visit.now
        ≡ ok (record { records = left; returned_count = length left; next_cursor = none })
  last_page last =
      let whole : take (page_limit request.limit) left ≡ left =
        take_all (page_limit request.limit) left (ground arith) in
      scanned ∙ (rw last (rw whole refl))

  next_page :
      (token : Text)
      → ltb (page_limit request.limit) (length left) ≡ true
      → encode_next_cursor host
          (scope host actor request)
          (length (front ++ take (page_limit request.limit) left))
          epoch
          visit.now
        ≡ ok token
      → scan_as host visit.db actor (record request { cursor = cursor }) visit.now
        ≡ ok (record {
          records = take (page_limit request.limit) left;
          returned_count = length (take (page_limit request.limit) left);
          next_cursor = some token;
        })
  next_page token more written =
      let offset = length-append front (take (page_limit request.limit) left) in
      scanned ∙ (rw (more, ← offset) (rw written refl))

page_limit_pos : (limit : ℕ) → 0 < page_limit limit
page_limit_pos limit = ground arith

module _ {V : Type 0} (host : CursorHost) (key : List ℕ) (signs : Signs host key)
    (actor : ActorContext) (request : RecordScanRequest) (epoch : Epoch)
    (own : actor.tenant_id ≡ request.tenant_id) (small : page_limit request.limit + 1 < 2 ^ 64)
    (records : List (RecordOutput V)) where
  one_page : (n limit : ℕ) → n ≤ 1 * limit → ltb limit n ≡ true → ⊥
  one_page n limit enough more = absurd (ground arith)

  fewer_pages : (n k limit : ℕ) → n ≤ suc (suc k) * limit → n - limit ≤ suc k * limit
  fewer_pages n k limit h = grind arith

  -- The rest of the pages, from a cursor that leads to the records that are left.
  read_rest :
      (visits : List (Visit V)) (visit : Visit V) (cursor : Option Text)
      (front left : List (RecordOutput V))
      → records ≡ front ++ left
      → Shows host actor request.table request.tenant_id epoch records (visit ∷ visits)
      → InTime host actor visit.now visits
      → resolve_cursor_state host
          (scope host actor request)
          cursor
          visit.db.manifest.latest_epoch
          visit.now
        ≡ ok (record { offset = length front; snapshot_epoch = epoch })
      → length left ≤ suc (length visits) * page_limit request.limit
      → read_pages host actor (record request { cursor = cursor }) (visit ∷ visits)
        ≡ ok (left, none)
  unfolding read_pages
  read_rest [] visit cursor front left is (there, shown, later) timely resolved enough =
      elim (Bool-cases (ltb (page_limit request.limit) (length left))) [
        | inr last ↦
            rw
              (last_page host actor request epoch own small visit cursor front left there
                (shown ∙ is) resolved last)
              refl
        | inl more ↦ absurd (one_page _ _ enough more)
      ]
  read_rest (next ∷ visits) visit cursor front left is (there, shown, later) timely resolved
        enough =
      let limit = page_limit request.limit in
      let front' = front ++ take limit left in
      let (token, written, leads) =
        encode_next_cursor-resolves host key signs (scope host actor request) (length front') epoch
          visit.now in
      let joined = take-append-drop limit left in
      let is' : records ≡ front' ++ drop limit left =
        is
        ∙ (ap (λ (l : List (RecordOutput V)). front ++ l) (sym joined)
            ∙ sym (append_assoc front _ _)) in
      let rest =
        read_rest visits next (some token) front' (drop limit left) is' later timely.1
          (leads next.db.manifest.latest_epoch next.now timely.0)
          (rw (length-drop limit left) (fewer_pages _ _ _ enough)) in
      elim (Bool-cases (ltb limit (length left))) [
        | inr last ↦
            rw
              (last_page host actor request epoch own small visit cursor front left there
                (shown ∙ is) resolved last)
              refl
        | inl more ↦
            rw
              (next_page host actor request epoch own small visit cursor front left there
                (shown ∙ is) resolved token more written)
              (rw rest (rw joined refl))
      ]

  -- Let a signing key be set, and let a client read a table page by page, each page asked for with
  -- the cursor of the one before while that is valid, of the database as it then is. If all these
  -- databases have the table and the same records of the tenant at the epoch that was the latest for
  -- the first page, and the pages are enough for these records, then the pages together are these
  -- records, each once and in order, and no cursor is left. The actor is of the tenant, and the page
  -- limit is below the range of a `usize`.
  pub read_pages-records :
      (first : Visit V) (visits : List (Visit V))
      → epoch ≡ first.db.manifest.latest_epoch
      → Shows host actor request.table request.tenant_id epoch records (first ∷ visits)
      → InTime host actor first.now visits
      → length records ≤ suc (length visits) * page_limit request.limit
      → read_pages host actor (record request { cursor = none }) (first ∷ visits)
        ≡ ok (records, none)
  unfolding resolve_cursor_state
  read_pages-records first visits latest shown timely enough =
      read_rest visits first none [] records refl shown timely (rw latest refl) enough

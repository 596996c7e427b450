-- ===== src/Store/Versions.antt =====
-- The versions at a key: what a write does to them, and what a read before it sees.
use mathlib.Core.Option
use tracedb.Base.{
  ◌<◌, Text, text_eq, text_eq_iff, Bool, true, none, List, [], ◌∷◌, ◌++◌, ◌≡◌, refl, arith,
  find_last, find_last-append_one, modify_last, any, if◌then◌else◌,
}
use tracedb.Base.Map
use tracedb.Core.Types.{Epoch}
use tracedb.Store.Record.{
  StoredRecord, RecordStore, record_key, is_open, is_live, close, close_current, versions_at,
  put_versions,
}
use tracedb.Store.Read.{is_visible, visible_record_at, get_record}
use tracedb.Store.Apply.{close_live}

-- A change of one element that a search and a view do not see.
module _ {ℓ} {A B : Type ℓ} (p q : A → Bool) (f : A → A) (g : A → B) where
  any-modify_last :
      ((x : A) → p x ≡ true → q (f x) ≡ q x) → (xs : List A) → any q (modify_last p f xs) ≡ any q xs
  any-modify_last same [] = refl
  any-modify_last same (x ∷ xs) = ground (arith, same x, any-modify_last same xs)

  find_last-modify_last :
      ((x : A) → p x ≡ true → q (f x) ≡ q x)
      → ((x : A) → p x ≡ true → g (f x) ≡ g x)
      → (xs : List A)
      → Option.map g (find_last q (modify_last p f xs)) ≡ Option.map g (find_last q xs)
  find_last-modify_last same view [] = refl
  find_last-modify_last same view (x ∷ xs) =
      ground (arith, same x, view x, find_last-modify_last same view xs)

module _ {V : Type 0} where
  -- Ending an open version at `epoch` is not seen before it: what is found there is the same
  -- version but for its end, so it is compared without the end.
  abbrev pub forget_end : StoredRecord V → StoredRecord V
  forget_end r = record r { header = record r.header { end_epoch = none } }

  pub is_visible-close :
      (e e' : Epoch)
      → e' < e
      → (r : StoredRecord V) → is_open r ≡ true
      → is_visible e' (close e r) ≡ is_visible e' r
  is_visible-close e e' h r o = ground arith

  pub visible-close_current :
      (e e' : Epoch)
      → e' < e
      → (vs : List (StoredRecord V))
      → Option.map forget_end (visible_record_at (close_current e vs) e')
        ≡ Option.map forget_end (visible_record_at vs e')
  unfolding visible_record_at close_current
  visible-close_current e e' h vs =
      find_last-modify_last is_open (is_visible e') (close e) forget_end (is_visible-close e e' h)
        (λ r o. refl) vs

  visible-close_live :
      (e e' : Epoch)
      → e' < e
      → (vs : List (StoredRecord V))
      → Option.map forget_end (visible_record_at (close_live e vs) e')
        ≡ Option.map forget_end (visible_record_at vs e')
  unfolding visible_record_at close_live
  visible-close_live e e' h vs =
      find_last-modify_last is_live (is_visible e') (close e) forget_end
        (λ r o. is_visible-close e e' h r (ground arith)) (λ r o. refl) vs

  pub versions_at-put_versions :
      (j k : Text) (vs : List (StoredRecord V)) (s : RecordStore V)
      → versions_at j (put_versions k vs s) ≡ (if text_eq j k then vs else versions_at j s)
  unfolding versions_at put_versions
  versions_at-put_versions j k vs s = rw Map.get-insert (ground arith)

  pub put_versions_twice :
      (k : Text) (vs ws : List (StoredRecord V)) (s : RecordStore V)
      → put_versions k vs (put_versions k ws s) ≡ put_versions k vs s
  unfolding put_versions
  put_versions_twice k vs ws s = rw Map.insert-insert

  -- A read is a search of the versions at the key.
  pub get_record-eq :
      (s : RecordStore V) (t n i : Text) (e : Epoch)
      → get_record s t n i e ≡ visible_record_at (versions_at (record_key t n i) s) e
  unfolding get_record versions_at
  get_record-eq s t n i e = ground arith

  pub visible-append_new :
      (e e' : Epoch)
      → e' < e
      → (vs : List (StoredRecord V)) (new : StoredRecord V) → new.header.begin_epoch ≡ e
      → visible_record_at (vs ++ new ∷ []) e' ≡ visible_record_at vs e'
  unfolding visible_record_at
  visible-append_new e e' h vs new b = ground (arith, find_last-append_one (is_visible e') vs new)

  -- The views at a key before `e`, after a write that only closes, and one that appends too.
  pub closed_view :
      (e e' : Epoch)
      → e' < e
      → (s : RecordStore V) (k j : Text)
      → Option.map forget_end (
          visible_record_at
            (versions_at j (put_versions k (close_current e (versions_at k s)) s))
            e')
        ≡ Option.map forget_end (visible_record_at (versions_at j s) e')
  closed_view e e' h s k j =
      rw versions_at-put_versions
        (ground (arith, text_eq_iff j k, visible-close_current e e' h (versions_at k s)))

  pub appended_view :
      (e e' : Epoch)
      → e' < e
      → (s : RecordStore V) (k j : Text) (new : StoredRecord V) → new.header.begin_epoch ≡ e
      → Option.map forget_end (
          visible_record_at
            (versions_at j (put_versions k (close_current e (versions_at k s) ++ new ∷ []) s))
            e')
        ≡ Option.map forget_end (visible_record_at (versions_at j s) e')
  appended_view e e' h s k j new b = rw versions_at-put_versions (
      ground (
        arith,
        text_eq_iff j k,
        visible-append_new e e' h (close_current e (versions_at k s)) new b,
        visible-close_current e e' h (versions_at k s),
      ))

  pub tombstoned_view :
      (e e' : Epoch)
      → e' < e
      → (s : RecordStore V) (k j : Text) (new : StoredRecord V) → new.header.begin_epoch ≡ e
      → Option.map forget_end (
          visible_record_at
            (versions_at j (put_versions k (close_live e (versions_at k s) ++ new ∷ []) s))
            e')
        ≡ Option.map forget_end (visible_record_at (versions_at j s) e')
  tombstoned_view e e' h s k j new b = rw versions_at-put_versions (
      ground (
        arith,
        text_eq_iff j k,
        visible-append_new e e' h (close_live e (versions_at k s)) new b,
        visible-close_live e e' h (versions_at k s),
      ))

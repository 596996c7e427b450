-- ===== src/Modules/Invariant.antt =====
-- crates/tracedb-modules/src/lib.rs: what the registry of any registrations is like.
use tracedb.Base.{
  All-append_one, text_eq, text_eq_iff, Bool, true, false, not, ◌&&◌, List, [], ◌∷◌, ◌++◌, ◌≡◌, ◌≢◌,
  refl, arith, any, All, is_empty, Bool-cases, inl, inr, ensure-ok, ok, err, Result, text_eq_refl,
}
use tracedb.Base.Exec.{Exec, lift, modify, ◌>>◌, lift-keeps}
use tracedb.Modules.Registry.{
  TraceDbModule, RegisteredModule, ModuleRegistry, default_registry, registered, push_module,
  register, register_all, check_hidden_state, check_explain_hooks, check_wal_decoders,
}

-- A module that is queried can be explained, and one that stores can be decoded.
abbrev pub IsServed : RegisteredModule → Type 0
IsServed m =
    (m.access_paths ≢ [] → m.explain_hooks ≢ []) × (m.segment_codecs ≢ [] → m.wal_decoders ≢ [])

-- No module comes twice.
abbrev pub HasDistinctIds : List RegisteredModule → Type 0
HasDistinctIds [] = Unit
HasDistinctIds (m ∷ modules) =
    All (λ other. other.module_id ≢ m.module_id) modules × HasDistinctIds modules

abbrev pub IsWellFormed : ModuleRegistry → Type 0
IsWellFormed r = HasDistinctIds r.modules × All IsServed r.modules

HasDistinctIds-append_one :
    (modules : List RegisteredModule) (m : RegisteredModule)
    → HasDistinctIds modules
    → any (λ given. text_eq given.module_id m.module_id) modules ≡ false
    → HasDistinctIds (modules ++ m ∷ [])
HasDistinctIds-append_one [] m h new = (tt, tt)
HasDistinctIds-append_one (first ∷ modules) m h new =
    let other : m.module_id ≢ first.module_id =
      ground (arith, text_eq_iff first.module_id m.module_id) in
    let later : any (λ given. text_eq given.module_id m.module_id) modules ≡ false = ground arith in
    (All-append_one _ modules m h.0 other, HasDistinctIds-append_one modules m h.1 later)

hooks_given :
    {A B : Type 0} (xs : List A) (ys : List B)
    → not (not (is_empty xs) && is_empty ys) ≡ true
    → xs ≢ []
    → ys ≢ []
hooks_given xs ys h = ground arith

push_module-IsWellFormed :
    (m : TraceDbModule) (r : ModuleRegistry)
    → IsWellFormed r
    → IsServed (registered m)
    → IsWellFormed (push_module m r)
unfolding push_module
push_module-IsWellFormed m r h served =
    elim (Bool-cases (any (λ given. text_eq given.module_id m.module_id) r.modules)) [
      | inl there ↦ rw there h
      | inr new ↦ rw new (
        HasDistinctIds-append_one r.modules (registered m) h.0 new,
        All-append_one IsServed r.modules (registered m) h.1 served,
      )
    ]

register-IsWellFormed :
    (m : TraceDbModule) (r : ModuleRegistry) → IsWellFormed r → IsWellFormed (register m r).1
unfolding register
register-IsWellFormed m r h = lift-keeps IsWellFormed (check_hidden_state m) _ r h λ _ _.
    lift-keeps IsWellFormed (check_explain_hooks m) _ r h λ u explained.
      lift-keeps IsWellFormed (check_wal_decoders m) _ r h λ v decoded.
        push_module-IsWellFormed m r h (
          hooks_given m.access_paths m.explain_hooks (ensure-ok _ _ u explained),
          hooks_given m.segment_codecs m.wal_decoders (ensure-ok _ _ v decoded),
        )

register_all-keeps :
    (modules : List TraceDbModule) (r : ModuleRegistry)
    → IsWellFormed r
    → IsWellFormed (register_all modules r)
unfolding register_all
register_all-keeps [] r h = h
register_all-keeps (m ∷ modules) r h =
    register_all-keeps modules (register m r).1 (register-IsWellFormed m r h)

-- After any registrations on an empty registry, rejected ones among them, no id comes twice, every
-- module with access paths has explain hooks, and every module with segment codecs has WAL decoders.
pub register_all-IsWellFormed :
    (modules : List TraceDbModule) → IsWellFormed (register_all modules default_registry)
register_all-IsWellFormed modules = register_all-keeps modules default_registry (tt, tt)

any-append_here :
    {A : Type 0} (p : A → Bool) (xs : List A) (y : A) → p y ≡ true → any p (xs ++ y ∷ []) ≡ true
any-append_here p [] y here = ground arith
any-append_here p (x ∷ xs) y here = ground (arith, any-append_here p xs y here)

push_module_twice :
    (m : TraceDbModule) (r : ModuleRegistry) → push_module m (push_module m r) ≡ push_module m r
unfolding push_module
push_module_twice m r =
    elim (Bool-cases (any (λ given. text_eq given.module_id m.module_id) r.modules)) [
      | inl there ↦ rw there (rw there refl)
      | inr new ↦ rw new (
          rw
            (any-append_here (λ given. text_eq given.module_id m.module_id) r.modules (registered m)
              (text_eq_refl m.module_id))
            refl)
    ]

-- The three checks, then the change.
checked_twice :
    {E : Type 0} (a b c : Result E Unit) (change : ModuleRegistry → ModuleRegistry)
    (r : ModuleRegistry)
    → change (change r) ≡ change r
    → let run : Exec ModuleRegistry E Unit = lift a >> (lift b >> (lift c >> modify change)) in
      (run r).0 ≡ ok tt → run (run r).1 ≡ (ok tt, (run r).1)
checked_twice (ok _) (ok _) (ok _) change r same through = rw same refl
checked_twice (ok _) (ok _) (err e) change r same through = cc
checked_twice (ok _) (err e) c change r same through = cc
checked_twice (err e) b c change r same through = cc

-- A module that is registered once more leaves the registry as it is, and is let through again.
pub register-again :
    (m : TraceDbModule) (r : ModuleRegistry)
    → (register m r).0 ≡ ok tt
    → register m (register m r).1 ≡ (ok tt, (register m r).1)
unfolding register
register-again m r through =
    checked_twice (check_hidden_state m) (check_explain_hooks m) (check_wal_decoders m)
      (push_module m) r (push_module_twice m r) through

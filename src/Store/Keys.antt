-- ===== src/Store/Keys.antt =====
-- The keys of crates/tracedb-store/src/lib.rs: `table NUL tenant NUL id`.
use mathlib.Core.List.{append_assoc}
use tracedb.Base.{Text, Bool, true, not, [], ◌∷◌, ◌++◌, ◌≡◌, arith, all, ◌==◌}
use tracedb.Store.Record.{record_key}

-- No code point of the text is NUL.
abbrev pub nul_free : Text → Bool
nul_free s = all (λ c. not (c == 0)) s

nul_splits :
    (s s' r r' : Text)
    → nul_free s ≡ true
    → nul_free s' ≡ true
    → s ++ (0 ∷ r) ≡ s' ++ (0 ∷ r')
    → (s ≡ s') × (r ≡ r')
nul_splits [] [] r r' h h' p = ground arith
nul_splits [] (b ∷ s') r r' h h' p = ground arith
nul_splits (a ∷ s) [] r r' h h' p = ground arith
nul_splits (a ∷ s) (b ∷ s') r r' h h' p = ground (arith, nul_splits s s' r r')

key_parts : (t n i : Text) → record_key t n i ≡ t ++ (0 ∷ (n ++ (0 ∷ i)))
unfolding record_key
key_parts t n i = simp append_assoc

-- Where the tables and the tenants hold no NUL, two keys are equal only if their parts are.
pub record_key-injective :
    (t n i t' n' i' : Text)
    → nul_free t ≡ true
    → nul_free n ≡ true
    → nul_free t' ≡ true
    → nul_free n' ≡ true
    → record_key t n i ≡ record_key t' n' i'
    → (t ≡ t') × (n ≡ n') × (i ≡ i')
record_key-injective t n i t' n' i' ht hn ht' hn' p =
    let (et, rest) = nul_splits t t' _ _ ht ht' (rw (← key_parts t n i, ← key_parts t' n' i') p) in
    let (en, ei) = nul_splits n n' _ _ hn hn' rest in (et, en, ei)

-- With a NUL in the tenant, records of two tenants have one key: record `c` of the tenant `a NUL b`
-- and record `b NUL c` of the tenant `a`.
pub record_key-collides :
    (t a b c : Text) → record_key t (a ++ (0 ∷ b)) c ≡ record_key t a (b ++ (0 ∷ c))
record_key-collides t a b c = simp (key_parts, append_assoc)

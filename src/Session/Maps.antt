-- ===== src/Session/Maps.antt =====
-- The `std::map` of a session of http/session.cpp as a list of entries: each key at most once.
use uco.Prelude.{◌≡◌, refl, subst, false, [], ◌∷◌, ◌++◌, none, arith, inl, inr, Bool-cases}
use uco.Prelude.Bytes.{Bytes, All, bytes_eq, bytes_eq_iff}
use uco.Prelude.Dict.{lookup, insert, erase, lookup-insert}
use uco.Session.Json.{Values}
use uco.Session.RoundTrip.{Fresh}

abbrev pub IsMap : Values → Type 0
IsMap [] = Unit
IsMap ((k, v) ∷ l) = (lookup k l ≡ none) × IsMap l

pub insert-IsMap : (k v : Bytes) (l : Values) → IsMap l → IsMap (insert k v l)
unfolding insert lookup
insert-IsMap k v [] h = (refl, tt)
insert-IsMap k v ((j, w) ∷ l) h = elim (Bool-cases (bytes_eq j k)) [
  | inl e ↦ rw e h
  | inr e ↦ rw e (
    ground (arith, lookup-insert k j v l, h.0, bytes_eq_iff j k, bytes_eq_iff k j),
    insert-IsMap k v l h.1,
  )
]

pub lookup-erase_self : (k : Bytes) (l : Values) → IsMap l → lookup k (erase k l) ≡ none
unfolding erase lookup
lookup-erase_self k [] h = refl
lookup-erase_self k ((j, w) ∷ l) h = elim (Bool-cases (bytes_eq j k)) [
  | inl e ↦ rw e (subst (λ t. lookup t l ≡ none) ((bytes_eq_iff j k).0 e) h.0)
  | inr e ↦ rw e (rw e (lookup-erase_self k l h.1))
]

apart :
    (k : Bytes) (l : Values)
    → lookup k l ≡ none
    → All (λ (e : Bytes × Bytes). bytes_eq k e.0 ≡ false) l
unfolding lookup
apart k [] h = tt
apart k ((j, w) ∷ l) h =
    (ground (arith, bytes_eq_iff j k, bytes_eq_iff k j), apart k l (ground arith))

lookup-snoc :
    (j k v : Bytes) (kv : Values)
    → lookup j kv ≡ none
    → bytes_eq k j ≡ false
    → lookup j (kv ++ ((k, v) ∷ [])) ≡ none
unfolding lookup
lookup-snoc j k v [] h e = rw e refl
lookup-snoc j k v ((i, w) ∷ kv) h e = ground (arith, lookup-snoc j k v kv)

absent-snoc :
    (k v : Bytes) (kv l : Values)
    → All (λ (e : Bytes × Bytes). lookup e.0 kv ≡ none) l
    → All (λ (e : Bytes × Bytes). bytes_eq k e.0 ≡ false) l
    → All (λ (e : Bytes × Bytes). lookup e.0 (kv ++ ((k, v) ∷ [])) ≡ none) l
absent-snoc k v kv [] h a = tt
absent-snoc k v kv (e ∷ l) h a = (lookup-snoc e.0 k v kv h.0 a.0, absent-snoc k v kv l h.1 a.1)

Fresh-of_absent :
    (kv l : Values) → IsMap l → All (λ (e : Bytes × Bytes). lookup e.0 kv ≡ none) l → Fresh kv l
Fresh-of_absent kv [] m h = tt
Fresh-of_absent kv ((k, v) ∷ l) m h =
    (h.0, Fresh-of_absent (kv ++ ((k, v) ∷ [])) l m.1 (absent-snoc k v kv l h.1 (apart k l m.0)))

absent-nil : (l : Values) → All (λ (e : Bytes × Bytes). lookup {V = Bytes} e.0 [] ≡ none) l
unfolding lookup
absent-nil [] = tt
absent-nil (e ∷ l) = (refl, absent-nil l)

pub Fresh-of_IsMap : (l : Values) → IsMap l → Fresh [] l
Fresh-of_IsMap l m = Fresh-of_absent [] l m (absent-nil l)

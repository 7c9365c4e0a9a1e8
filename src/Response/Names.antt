-- ===== src/Response/Names.antt =====
-- `SetHeader` of http/httpresponce.cpp: one field for each name, but for Set-Cookie.
use uco.Prelude.{
  ◌≤◌, ◌≡◌, refl, sym, ap, ◌∙◌, Bool, true, false, not, List, [], ◌∷◌, ◌++◌, if◌then◌else◌, arith,
  Bool-cases, inl, inr, length, none_of_length_zero,
}
use uco.Prelude.Bytes.{Bytes, bytes_eq, bytes_eq_iff, bytes_eq_refl}
use uco.Prelude.Ascii.{ascii}
use uco.Text.Chars.{equals_ignore_case, equals_ignore_case_lem, to_lower}
use uco.Response.{overwrite, set_field}

-- The values of the fields of this name, whatever its case.
unfoldable pub values_of : Bytes → List (Bytes × Bytes) → List Bytes
values_of name [] = []
values_of name ((k, v) ∷ l) =
    let rest = values_of name l in if equals_ignore_case k name then v ∷ rest else rest

abbrev pub is_cookie : Bytes → Bool
is_cookie key = equals_ignore_case key (ascii "Set-Cookie")

values_of-append :
    (name key value : Bytes) (l : List (Bytes × Bytes))
    → values_of name (l ++ ((key, value) ∷ []))
      ≡ (if equals_ignore_case key name then values_of name l ++ (value ∷ []) else values_of name l)
unfolding values_of
values_of-append name key value [] = ground arith
values_of-append name key value ((k, v) ∷ l) = ground (arith, values_of-append name key value l)

same_lower : (a b : Bytes) → equals_ignore_case a b ≡ true → to_lower a ≡ to_lower b
same_lower a b e = (bytes_eq_iff (to_lower a) (to_lower b)).0 (sym (equals_ignore_case_lem a b) ∙ e)

-- The relation on names is an equivalence.
same_name :
    (a b c : Bytes)
    → equals_ignore_case a b ≡ true
    → equals_ignore_case a c ≡ equals_ignore_case b c
same_name a b c e =
    equals_ignore_case_lem a c
    ∙ ap (λ t. bytes_eq t (to_lower c)) (same_lower a b e)
    ∙ sym (equals_ignore_case_lem b c)

values_of-overwrite_other :
    (name key value : Bytes) (l : List (Bytes × Bytes))
    → equals_ignore_case key name ≡ false
    → values_of name (overwrite key value l) ≡ values_of name l
unfolding values_of overwrite
values_of-overwrite_other name key value [] h = ground arith
values_of-overwrite_other name key value ((k, v) ∷ l) h =
    ground (arith, values_of-overwrite_other name key value l, same_name k key name)

same_self : (a : Bytes) → equals_ignore_case a a ≡ true
same_self a = equals_ignore_case_lem a a ∙ bytes_eq_refl (to_lower a)

values_of-overwrite_self :
    (key value : Bytes) (l : List (Bytes × Bytes))
    → length (values_of key l) ≤ 1
    → values_of key (overwrite key value l) ≡ value ∷ []
unfolding values_of overwrite
values_of-overwrite_self key value [] h = ground (arith, same_self key)
values_of-overwrite_self key value ((k, v) ∷ l) h = ground (
  arith,
  same_self key,
  values_of-overwrite_self key value l,
  none_of_length_zero (values_of key l),
)

same_right :
    (a b c : Bytes)
    → equals_ignore_case a b ≡ true
    → equals_ignore_case c a ≡ equals_ignore_case c b
same_right a b c e =
    equals_ignore_case_lem c a
    ∙ ap (bytes_eq (to_lower c)) (same_lower a b e)
    ∙ sym (equals_ignore_case_lem c b)

values_of-same :
    (a b : Bytes) (l : List (Bytes × Bytes))
    → equals_ignore_case a b ≡ true
    → values_of a l ≡ values_of b l
unfolding values_of
values_of-same a b [] e = refl
values_of-same a b ((k, v) ∷ l) e = ground (arith, same_right a b k e, values_of-same a b l e)

-- Setting a field changes no other name. Set-Cookie gets one more value at the end; any other name,
-- where it has one value at most, as this keeps it, has then the new value alone.
pub values_of-set_field :
    (name key value : Bytes) (l : List (Bytes × Bytes))
    → (is_cookie key ≡ false → length (values_of key l) ≤ 1)
    → values_of name (set_field key value l) ≡ (
        if not (equals_ignore_case key name)
        then values_of name l
        else if is_cookie key
        then values_of name l ++ (value ∷ [])
        else value ∷ [])
unfolding set_field
values_of-set_field name key value l h = elim (Bool-cases (is_cookie key)) [
  | inl cookie ↦ ground (arith, values_of-append name key value l)
  | inr other ↦ elim (Bool-cases (equals_ignore_case key name)) [
    | inl same ↦ simp (
      other,
      same,
      sym (values_of-same key name (overwrite key value l) same),
      values_of-overwrite_self key value l (h other),
    )
    | inr apart ↦ ground (arith, values_of-overwrite_other name key value l apart)
  ]
]

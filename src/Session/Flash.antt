-- ===== src/Session/Flash.antt =====
-- http/session.cpp: flash messages, a JSON array of texts under one key of the session.
use uco.Prelude.{
  ℕ, zero, suc, ◌≡◌, ◌<◌, refl, ap, ◌∙◌, Bool, true, false, List, [], ◌∷◌, ◌++◌, Option, none, some,
  length, length-append, arith,
}
use mathlib.Core.List.{append_assoc}
use uco.Prelude.Bytes.{Bytes, IsBytes, All}
use uco.Session.Json.{json_string, is_ws, eat, eat_first, skip_ws, parse_string, whole, is_end}
use uco.Session.RoundTrip.{parse_string-json_string, eat_self, eat_other}

-- The loop of `DumpFlashArray` behind its first round.
unfoldable pub flash_rest : List Bytes → Bytes
flash_rest [] = b']' ∷ []
flash_rest (t ∷ l) = b',' ∷ (json_string t ++ flash_rest l)

unfoldable pub dump_flash_array : List Bytes → Bytes
dump_flash_array [] = b'[' ∷ b']' ∷ []
dump_flash_array (t ∷ l) = b'[' ∷ (json_string t ++ flash_rest l)

unfoldable pub after_item :
    (List Bytes → Bytes → List Bytes × Bool) → List Bytes → Bytes → Option Bytes → List Bytes × Bool
after_item next out s (some rest) = next out rest
after_item next out s none = (out, whole (eat b']' s))

unfoldable pub flash_item :
    (List Bytes → Bytes → List Bytes × Bool)
    → List Bytes
    → Option (Bytes × Bytes)
    → List Bytes × Bool
flash_item next out none = (out, false)
flash_item next out (some (t, s)) = after_item next (out ++ (t ∷ [])) s (eat b',' s)

-- The loop of `ParseFlashArray`, on fuel for its rounds.
unfoldable pub flash_items : ℕ → List Bytes → Bytes → List Bytes × Bool
flash_items zero out s = (out, false)
flash_items (suc fuel) out s = flash_item (flash_items fuel) out (parse_string s)

unfoldable pub flash_body : Bytes → Option Bytes → List Bytes × Bool
flash_body s (some rest) = ([], true)
flash_body s none = flash_items (suc (length s)) [] s

unfoldable pub flash_array : Option Bytes → List Bytes × Bool
flash_array none = ([], false)
flash_array (some s) = flash_body (skip_ws s) (eat b']' (skip_ws s))

-- `ParseFlashArray`: the items, also if the text is refused, and the result.
unfoldable pub parse_flash_array : Bytes → List Bytes × Bool
parse_flash_array [] = ([], false)
parse_flash_array (c ∷ s) = flash_array (eat b'[' (c ∷ s))

abbrev flashes_body : Bytes → List Bytes → Bytes
flashes_body t l = json_string t ++ flash_rest l

flash_items-body :
    (fuel : ℕ) (out : List Bytes) (t : Bytes) (l : List Bytes)
    → length l < fuel
    → All IsBytes (t ∷ l)
    → flash_items fuel out (flashes_body t l) ≡ (out ++ (t ∷ l), true)
unfolding flash_items flash_item after_item flash_rest is_ws whole is_end skip_ws
flash_items-body zero out t l h b = absurd (omega arith)
flash_items-body (suc fuel) out t [] h b =
    rw
      (
        parse_string-json_string t (flash_rest []) b.0,
        flash_item,
        eat_other b',' b']' [] refl (omega arith),
        after_item,
        eat_self b']' [] refl,
      )
      refl
flash_items-body (suc fuel) out t (u ∷ l) h b =
    rw
      (
        parse_string-json_string t (flash_rest (u ∷ l)) b.0,
        flash_item,
        eat_self b',' (flashes_body u l) refl,
        after_item,
      )
      (flash_items-body fuel (out ++ (t ∷ [])) u l (omega arith) b.1)
    ∙ ap (λ (o : List Bytes). (o, true)) (append_assoc out (t ∷ []) (u ∷ l))

length-flash_rest : (l : List Bytes) → length l < length (flash_rest l)
unfolding flash_rest
length-flash_rest [] = omega arith
length-flash_rest (t ∷ l) =
    omega (arith, length-flash_rest l, length-append (json_string t) (flash_rest l))

flash_array-body :
    (t : Bytes) (l : List Bytes)
    → parse_flash_array (b'[' ∷ flashes_body t l)
      ≡ flash_items (suc (length (flashes_body t l))) [] (flashes_body t l)
unfolding parse_flash_array flash_array flash_body skip_ws is_ws json_string eat eat_first
flash_array-body t l = refl

-- Messages of any bytes are read back from the array that they are dumped as.
pub parse_flash_array-dump :
    (l : List Bytes) → All IsBytes l → parse_flash_array (dump_flash_array l) ≡ (l, true)
unfolding parse_flash_array dump_flash_array flash_array flash_body eat eat_first skip_ws is_ws
parse_flash_array-dump [] b = refl
parse_flash_array-dump (t ∷ l) b =
    flash_array-body t l
    ∙ flash_items-body (suc (length (flashes_body t l))) [] t l
        (omega (arith, length-flash_rest l, length-append (json_string t) (flash_rest l))) b

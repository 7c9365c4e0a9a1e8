-- ===== src/Redis/Wire.antt =====
-- The RESP2 texts that a Redis server sends, as its protocol describes them, and `serialize` of
-- core/uredis.cpp, the text of a command.
use uco.Prelude.{ℕ, suc, ◌+◌, ◌≤◌, ◌≡◌, List, [], ◌∷◌, ◌++◌, none, length}
use uco.Prelude.Bytes.{Bytes}
use uco.Prelude.Decimal.{to_string}
use uco.Prelude.Int.{ℤ, pos, negsuc}
use uco.Text.Search.{cut_sub}
use uco.Redis.Reply.{
  Reply, Replies, reply, no_replies, cons_reply, string_type, status_type, integer_type, array_type,
  no_error, server_error, empty_reply,
}
use uco.Redis.Parse.{crlf, int64_max, max_elements}

mutual
  pub data Resp : Type 0 where
    simple failure : Bytes → Resp
    int : ℤ → Resp
    bulk : Bytes → Resp
    null_bulk null_array : Resp
    array : Resps → Resp

  pub data Resps : Type 0 where
    no_resps : Resps
    cons_resp : Resp → Resps → Resps

unfoldable pub print_int : ℤ → Bytes
print_int (pos n) = to_string n
print_int (negsuc n) = b'-' ∷ to_string (suc n)

abbrev pub count : Resps → ℕ
count no_resps = 0
count (cons_resp r rs) = suc (count rs)

unfoldable mutual
  pub print : Resp → Bytes
  print (simple s) = b'+' ∷ (s ++ crlf)
  print (failure s) = b'-' ∷ (s ++ crlf)
  print (int z) = b':' ∷ (print_int z ++ crlf)
  print (bulk s) = b'$' ∷ (print_int (pos (length s)) ++ (crlf ++ (s ++ crlf)))
  print null_bulk = b'$' ∷ (print_int (negsuc 0) ++ crlf)
  print null_array = b'*' ∷ (print_int (negsuc 0) ++ crlf)
  print (array rs) = b'*' ∷ (print_int (pos (count rs)) ++ (crlf ++ print_all rs))

  pub print_all : Resps → Bytes
  print_all no_resps = []
  print_all (cons_resp r rs) = print r ++ print_all rs

-- The reply that a text stands for.
unfoldable mutual
  pub value : Resp → Reply
  value (simple s) = reply no_error status_type (pos 0) s no_replies
  value (failure s) =
      reply (record { ret_code = server_error; err_msg = s }) status_type (pos 0) s no_replies
  value (int z) = reply no_error integer_type z [] no_replies
  value (bulk s) = reply no_error string_type (pos 0) s no_replies
  value null_bulk = empty_reply
  value null_array = empty_reply
  value (array rs) = reply no_error array_type (pos 0) [] (values rs)

  pub values : Resps → Replies
  values no_resps = no_replies
  values (cons_resp r rs) = cons_reply (value r) (values rs)

-- An integer other than the least one of 64 bits.
abbrev pub IsInt64 : ℤ → Type 0
IsInt64 (pos n) = n ≤ int64_max
IsInt64 (negsuc n) = suc n ≤ int64_max

-- A text within the limits of the client: lines without CRLF, integers and lengths of 64 bits.
abbrev mutual
  pub IsWire : Resp → Type 0
  IsWire (simple s) = cut_sub crlf s ≡ none
  IsWire (failure s) = cut_sub crlf s ≡ none
  IsWire (int z) = IsInt64 z
  IsWire (bulk s) = length s + 2 ≤ int64_max
  IsWire null_bulk = Unit
  IsWire null_array = Unit
  IsWire (array rs) = (count rs ≤ max_elements) × AreWire rs

  pub AreWire : Resps → Type 0
  AreWire no_resps = Unit
  AreWire (cons_resp r rs) = IsWire r × AreWire rs

-- The loop of `serialize`.
unfoldable pub serialize_args : List Bytes → Bytes
serialize_args [] = []
serialize_args (arg ∷ args) =
    b'$' ∷ (to_string (length arg) ++ (crlf ++ (arg ++ (crlf ++ serialize_args args))))

unfoldable pub serialize : List Bytes → Bytes
unfolding serialize_args
serialize args = b'*' ∷ (to_string (length args) ++ (crlf ++ serialize_args args))
